-- ===== src/Sniff.antt =====
-- ostp-client/src/tunnel/sni_sniff.rs: the server name in a TLS ClientHello. A `String` is its UTF-8
-- bytes, and `str::from_utf8` is a test on bytes. Every access that is out of range is a panic.
pub mod Answers
pub mod Reads
pub mod Hello
use ostp.Prelude.{
  ℕ, zero, suc, ◌+◌, ◌-◌, ◌*◌, Option, none, some, Bool, not, ◌||◌, List, length, take, drop,
  get_or, ltb, leb, ◌==◌, if◌then◌else◌,
}
unfoldable pub use ostp.Slices.{byte_at, slice}
use ostp.Outcome.{Outcome, ok, err, panic, ◌>>=◌}

-- `(data[pos] << 8) | data[pos + 1]`, of two bytes
unfoldable pub word_at : List ℕ → ℕ → Outcome ℕ
unfolding byte_at
word_at input pos = do
  high ← byte_at input pos
  low ← byte_at input (pos + 1)
  ok (high * 256 + low)

-- The body of the extension for the server name, at `pos`.
unfoldable pub server_name : (List ℕ → Bool) → List ℕ → ℕ → ℕ → Outcome (Option (List ℕ))
unfolding byte_at word_at slice
server_name is_utf8 input extensions_end pos = if ltb extensions_end (pos + 5) then ok none else do
  list_len ← word_at input pos
  name_type ← byte_at input (pos + 2)
  if not (name_type == 0) then ok none else do
    name_len ← word_at input (pos + 3)
    if ltb extensions_end (pos + 5 + name_len) then ok none else do
      sni_bytes ← slice input (pos + 5) (pos + 5 + name_len)
      ok (if is_utf8 sni_bytes then some sni_bytes else none)

-- The loop over the extensions. Out of fuel counts as a panic.
unfoldable pub find_extension : (List ℕ → Bool) → ℕ → List ℕ → ℕ → ℕ → Outcome (Option (List ℕ))
unfolding word_at server_name
find_extension is_utf8 zero input extensions_end pos = panic
find_extension is_utf8 (suc fuel) input extensions_end pos =
    if ltb extensions_end (pos + 4) then ok none else do
      ext_type ← word_at input pos
      ext_len ← word_at input (pos + 2)
      if ext_type == 0
          then server_name is_utf8 input extensions_end (pos + 4)
          else find_extension is_utf8 fuel input extensions_end (pos + 4 + ext_len)

-- From the compression methods on.
unfoldable pub after_suites : (List ℕ → Bool) → List ℕ → ℕ → Outcome (Option (List ℕ))
unfolding byte_at word_at find_extension
after_suites is_utf8 input pos = if leb (length input) pos then ok none else do
  comp_methods_len ← byte_at input pos
  let pos' : ℕ = pos + (1 + comp_methods_len)
  if ltb (length input) (pos' + 2) then ok none else do
    extensions_len ← word_at input pos'
    let extensions_end : ℕ = pos' + 2 + extensions_len
    if ltb (length input) extensions_end
        then ok none
        else find_extension is_utf8 (suc (length input)) input extensions_end (pos' + 2)

-- From the session id on.
unfoldable pub after_header : (List ℕ → Bool) → List ℕ → ℕ → Outcome (Option (List ℕ))
unfolding byte_at word_at after_suites
after_header is_utf8 input pos = if leb (length input) pos then ok none else do
  session_id_len ← byte_at input pos
  let pos' : ℕ = pos + (1 + session_id_len)
  if ltb (length input) (pos' + 2) then ok none else do
    cipher_suites_len ← word_at input pos'
    after_suites is_utf8 input (pos' + (2 + cipher_suites_len))

unfoldable pub extract_sni : (List ℕ → Bool) → List ℕ → Outcome (Option (List ℕ))
unfolding byte_at after_header
extract_sni is_utf8 input = if ltb (length input) 43 then ok none else do
  content_type ← byte_at input 0
  version ← byte_at input 1
  handshake_type ← byte_at input 5
  if not (content_type == 22) || (not (version == 3) || not (handshake_type == 1))
      then ok none
      else after_header is_utf8 input 43
