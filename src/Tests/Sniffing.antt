-- ===== src/Tests/Sniffing.antt =====
-- The search for a server name on a concrete ClientHello.
use ostp.Prelude.{ℕ, ◌≡◌, refl, arith, true, some, List, [], ◌∷◌, ◌++◌}
use ostp.Outcome.{ok}
use ostp.Sniff.{extract_sni}
use ostp.Sniff.Answers.{IsAnswer, extract_sni-IsAnswer}
use ostp.Sniff.Hello.{
  Extension, IsHead, put_all, put_name, put_methods, put_suites, put_session, extract_sni_finds,
}
use ostp.Tests.World.{whole_numbers, zero_bytes}

-- An empty session id, one cipher suite, one compression method, an extension that is skipped, and
-- the name `a.io`.
abbrev client_hello : List ℕ
client_hello =
    (22 ∷ 3 ∷ 1 ∷ 0 ∷ 0 ∷ 1 ∷ 0 ∷ 0 ∷ 0 ∷ 3 ∷ 3 ∷ [])
    ++ (zero_bytes 32
        ++ (0 ∷ 0 ∷ 2 ∷ 19 ∷ 1 ∷ 1 ∷ 0 ∷ 0 ∷ 17 ∷ 0 ∷ 23 ∷ 0 ∷ 0 ∷ 0 ∷ 0 ∷ 0 ∷ 9 ∷ 0 ∷ 7 ∷ 0 ∷ 0 ∷ 4
            ∷ 97 ∷ 46 ∷ 105 ∷ 111 ∷ []))

client_hello_name : extract_sni (λ _. true) client_hello ≡ ok (some (97 ∷ 46 ∷ 105 ∷ 111 ∷ []))
unfolding extract_sni zero_bytes
client_hello_name = refl

extract_sni-IsAnswer_example :
    IsAnswer (λ _. true) client_hello (extract_sni (λ _. true) client_hello)
extract_sni-IsAnswer_example = extract_sni-IsAnswer (λ _. true) client_hello

abbrev hello_head : List ℕ
hello_head = (22 ∷ 3 ∷ 1 ∷ 0 ∷ 0 ∷ 1 ∷ 0 ∷ 0 ∷ 0 ∷ 3 ∷ 3 ∷ []) ++ zero_bytes 32

hello_head-IsHead : IsHead hello_head
unfolding zero_bytes
hello_head-IsHead = record {
  whole = refl;
  content_type = refl;
  version = refl;
  handshake_type = refl;
}

abbrev master_secret : Extension
master_secret = record { ext_type = 23; body = [] }

abbrev host : List ℕ
host = 97 ∷ 46 ∷ 105 ∷ 111 ∷ []

extract_sni_finds_example :
    extract_sni
      (λ _. true)
      (hello_head
        ++ put_session [] (
            put_suites
              (19 ∷ 1 ∷ [])
              (put_methods (0 ∷ []) (put_all (master_secret ∷ []) (put_name host [])))))
    ≡ ok (some host)
extract_sni_finds_example =
    extract_sni_finds (λ _. true) hello_head [] (19 ∷ 1 ∷ []) (0 ∷ []) (master_secret ∷ []) host []
      hello_head-IsHead (omega arith, tt) refl (omega arith)
