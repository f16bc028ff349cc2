-- ===== src/Sniff/Hello.antt =====
-- What `extract_sni` of ostp-client/src/tunnel/sni_sniff.rs finds in a well-formed ClientHello.
use ostp.Prelude.{
  ℕ, zero, suc, ◌+◌, ◌/◌, ◌%◌, ◌≤◌, ◌<◌, ◌==◌, leb, ltb, ◌≡◌, refl, ap, some, Bool, true, false,
  List, [], ◌∷◌, ◌++◌, length, drop, get_or, arith, All, length-append, length-drop, drop-append,
  le→not-ltb,
}
use ostp.Outcome.{ok}
use ostp.Sniff.{server_name, find_extension, after_suites, after_header, extract_sni}
use ostp.Sniff.Reads.{put_word, byte_lem, at_byte, advance, at_word, at_slice, byte_of_head}

pub record Extension : Type 0 where
  pub ext_type : ℕ
  pub body : List ℕ

abbrev pub put_all : List Extension → List ℕ → List ℕ
put_all [] rest = rest
put_all (e ∷ es) rest = put_word e.ext_type (put_word (length e.body) (e.body ++ put_all es rest))

-- The extension for one host name.
abbrev pub put_name : List ℕ → List ℕ → List ℕ
put_name host rest = put_word 0 (
    put_word (length host + 5)
      (put_word (length host + 3) (0 ∷ put_word (length host) (host ++ rest))))

abbrev pub size : List Extension → ℕ
size [] = 0
size (e ∷ es) = 4 + length e.body + size es

-- An extension that is not the server name.
abbrev pub IsOther : Extension → Type 0
IsOther e = 0 < e.ext_type

-- The server name, where the extension for it has its body.
name_found :
    (is_utf8 : List ℕ → Bool) (input : List ℕ) (extensions_end pos : ℕ) (host rest : List ℕ)
    → is_utf8 host ≡ true
    → 0 < length host
    → pos + 5 + length host ≤ extensions_end
    → drop pos input ≡ put_word (length host + 3) (0 ∷ put_word (length host) (host ++ rest))
    → server_name is_utf8 input extensions_end pos ≡ ok (some host)
unfolding server_name
name_found is_utf8 input extensions_end pos host rest utf8 some_bytes fits h =
    let l = length host + 3 in
    let at2 = advance input pos 2 (l / 256 ∷ l % 256 ∷ []) _ refl h in
    let at3 =
      advance input pos 3 (l / 256 ∷ l % 256 ∷ 0 ∷ []) (put_word (length host) (host ++ rest)) refl
        h in
    let at5 =
      advance input pos 5 (l / 256 ∷ l % 256 ∷ 0 ∷ length host / 256 ∷ length host % 256 ∷ [])
        (host ++ rest) refl h in
    rw
      (
        le→not-ltb (pos + 5) extensions_end (omega arith),
        at_word input pos l _ h,
        at_byte input (pos + 2) 0 _ at2,
        at_word input (pos + 3) (length host) _ at3,
        le→not-ltb (pos + 5 + length host) extensions_end fits,
        at_slice input (pos + 5) host rest some_bytes at5,
        utf8,
      )
      refl

extension_found :
    (is_utf8 : List ℕ → Bool) (before : List Extension) (fuel : ℕ) (input : List ℕ)
    (extensions_end pos : ℕ) (host rest : List ℕ)
    → All IsOther before
    → is_utf8 host ≡ true
    → 0 < length host
    → pos + (size before + (9 + length host)) ≤ extensions_end
    → 0 < fuel
    → extensions_end < pos + fuel
    → drop pos input ≡ put_all before (put_name host rest)
    → find_extension is_utf8 fuel input extensions_end pos ≡ ok (some host)
unfolding find_extension
extension_found is_utf8 before zero input extensions_end pos host rest o u b fits f g h =
    absurd (omega arith)
extension_found is_utf8 [] (suc fuel) input extensions_end pos host rest o u b fits f g h =
    let n = length host + 5 in
    let at2 = advance input pos 2 (0 ∷ 0 ∷ []) _ refl h in
    let at4 = advance input pos 4 (0 ∷ 0 ∷ n / 256 ∷ n % 256 ∷ []) _ refl h in
    rw
      (
        le→not-ltb (pos + 4) extensions_end (omega arith),
        at_word input pos 0 _ h,
        at_word input (pos + 2) n _ at2,
      )
      (name_found is_utf8 input extensions_end (pos + 4) host rest u b (omega arith) at4)
extension_found is_utf8 (e ∷ es) (suc fuel) input extensions_end pos host rest o u b fits f g h =
    let n = length e.body in
    let t = e.ext_type in
    let at2 = advance input pos 2 (t / 256 ∷ t % 256 ∷ []) _ refl h in
    let at4 = advance input pos 4 (t / 256 ∷ t % 256 ∷ n / 256 ∷ n % 256 ∷ []) _ refl h in
    let next = advance input (pos + 4) n e.body _ refl at4 in
    let other : (t == 0) ≡ false = ground (arith, o.0) in
    rw
      (
        le→not-ltb (pos + 4) extensions_end (omega arith),
        at_word input pos t _ h,
        at_word input (pos + 2) n _ at2,
        other,
      )
      (extension_found is_utf8 es fuel input extensions_end (pos + 4 + n) host rest o.1 u b
        (omega arith) (omega arith) (omega arith) next)

length-put_all :
    (es : List Extension) (rest : List ℕ) → length (put_all es rest) ≡ size es + length rest
length-put_all [] rest = omega arith
length-put_all (e ∷ es) rest =
    omega (arith, length-append e.body (put_all es rest), length-put_all es rest)

-- What follows the length of the extensions, the compression methods, and the cipher suites.
abbrev pub put_methods : List ℕ → List ℕ → List ℕ
put_methods methods extensions = length methods ∷ methods ++ put_word (length extensions) extensions

abbrev pub put_suites : List ℕ → List ℕ → List ℕ
put_suites suites rest = put_word (length suites) (suites ++ rest)

abbrev pub put_session : List ℕ → List ℕ → List ℕ
put_session session rest = length session ∷ session ++ rest

-- The fixed part of a ClientHello: 43 bytes with the three bytes that tell it.
pub record IsHead (head : List ℕ) : Type 0 where
  pub whole : length head ≡ 43
  pub content_type : get_or head 0 0 ≡ 22
  pub version : get_or head 1 0 ≡ 3
  pub handshake_type : get_or head 5 0 ≡ 1

after_suites_found :
    (is_utf8 : List ℕ → Bool) (input : List ℕ) (pos : ℕ) (methods : List ℕ)
    (before : List Extension) (host rest : List ℕ)
    → All IsOther before
    → is_utf8 host ≡ true
    → 0 < length host
    → drop pos input ≡ put_methods methods (put_all before (put_name host rest))
    → after_suites is_utf8 input pos ≡ ok (some host)
unfolding after_suites
after_suites_found is_utf8 input pos methods before host rest o u b h =
    let extensions = put_all before (put_name host rest) in
    let n = length extensions in
    let here = byte_lem input pos _ _ h in
    let pos' = pos + (1 + length methods) in
    let at' = advance input pos (1 + length methods) (length methods ∷ methods) _ (omega arith) h in
    let at'' = advance input pos' 2 (n / 256 ∷ n % 256 ∷ []) extensions refl at' in
    let size_lem : n ≡ size before + length (put_name host rest) =
      length-put_all before (put_name host rest) in
    let tail : length (put_name host rest) ≡ 9 + length host + length rest =
      omega (arith, length-append host rest) in
    let ends : pos' + 2 + n ≤ length input =
      omega (arith, ap length at'', length-drop (pos' + 2) input, size_lem, tail, here.0) in
    let more : leb (length input) pos ≡ false = ground (arith, here.0) in
    rw
      (
        more,
        at_byte input pos (length methods) _ h,
        le→not-ltb (pos' + 2) (length input) (omega (arith, ends)),
        at_word input pos' n extensions at',
        le→not-ltb (pos' + 2 + n) (length input) ends,
      )
      (extension_found is_utf8 before (suc (length input)) input (pos' + 2 + n) (pos' + 2) host rest
        o u b (omega (arith, size_lem, tail)) (omega arith) (omega (arith, ends)) at'')

after_header_found :
    (is_utf8 : List ℕ → Bool) (input : List ℕ) (pos : ℕ) (session suites methods : List ℕ)
    (before : List Extension) (host rest : List ℕ)
    → All IsOther before
    → is_utf8 host ≡ true
    → 0 < length host
    → drop pos input
      ≡ put_session session
          (put_suites suites (put_methods methods (put_all before (put_name host rest))))
    → after_header is_utf8 input pos ≡ ok (some host)
unfolding after_header
after_header_found is_utf8 input pos session suites methods before host rest o u b h =
    let n = length suites in
    let here = byte_lem input pos _ _ h in
    let pos' = pos + (1 + length session) in
    let at' = advance input pos (1 + length session) (length session ∷ session) _ (omega arith) h in
    let at'' = advance input pos' (2 + n) (n / 256 ∷ n % 256 ∷ suites) _ (omega arith) at' in
    let there = byte_lem input (pos' + (2 + n)) _ _ at'' in
    let more : leb (length input) pos ≡ false = ground (arith, here.0) in
    rw
      (
        more,
        at_byte input pos (length session) _ h,
        le→not-ltb (pos' + 2) (length input) (omega (arith, there.0)),
        at_word input pos' n _ at',
      )
      (after_suites_found is_utf8 input (pos' + (2 + n)) methods before host rest o u b at'')

-- The server name of a well-formed ClientHello is found: whatever the session id, the cipher suites,
-- the compression methods, the other extensions before it and the bytes after it, the answer is the
-- host name of its extension, if that is UTF-8 and not empty.
pub extract_sni_finds :
    (is_utf8 : List ℕ → Bool) (head session suites methods : List ℕ) (before : List Extension)
    (host rest : List ℕ)
    → IsHead head
    → All IsOther before
    → is_utf8 host ≡ true
    → 0 < length host
    → extract_sni is_utf8 (
        head
        ++ put_session session
            (put_suites suites (put_methods methods (put_all before (put_name host rest)))))
      ≡ ok (some host)
unfolding extract_sni
extract_sni_finds is_utf8 head session suites methods before host rest is o u b =
    let after =
      put_session session
        (put_suites suites (put_methods methods (put_all before (put_name host rest)))) in
    let long : ltb (length (head ++ after)) 43 ≡ false =
      le→not-ltb 43 (length (head ++ after)) (omega (arith, length-append head after, is.whole)) in
    rw
      (
        long,
        byte_of_head head after 0 22 (omega (arith, is.whole)) is.content_type,
        byte_of_head head after 1 3 (omega (arith, is.whole)) is.version,
        byte_of_head head after 5 1 (omega (arith, is.whole)) is.handshake_type,
      )
      (after_header_found is_utf8 (head ++ after) 43 session suites methods before host rest o u b
        (drop-append 43 head after is.whole))
