-- ===== src/Relay/RoundTrip.antt =====
-- What a peer decodes from an encoded relay message (ostp-core/src/relay.rs).
use mathlib.Core.List.{append-nil}
use ostp.Prelude.{
  ℕ, ◌+◌, ◌%◌, ◌^◌, ◌≤◌, ◌<◌, min, ◌≡◌, true, refl, sym, ap, ◌∙◌, some, Bool, List, [], ◌∷◌, ◌++◌,
  length, take, drop, arith, to_be_bytes, from_be_bytes, length-to_be_bytes,
  from_be_bytes-to_be_bytes, length-append, length-take, take-append, drop-append, drop-drop,
  take_all,
}
use ostp.Relay.{
  RelayMessage, connect, payload, keep_alive, close, connect_ok, error, ping, pong, udp_associate,
  udp_data, encode, decode_with_len, decode_udp, decode,
}

-- What can be carried whole: texts and bodies of at most 65535 bytes, 64-bit timestamps.
abbrev pub Fits : (List ℕ → Bool) → RelayMessage → Type 0
Fits is_utf8 (connect addr) = (length addr ≤ 65535) × (is_utf8 addr ≡ true)
Fits is_utf8 (payload body) = length body ≤ 65535
Fits is_utf8 (error msg) = (length msg ≤ 65535) × (is_utf8 msg ≡ true)
Fits is_utf8 (ping ts) = ts < 2 ^ 64
Fits is_utf8 (pong ts) = ts < 2 ^ 64
Fits is_utf8 (udp_data addr body) =
    (length addr ≤ 65535) × (length body ≤ 65535) × (is_utf8 addr ≡ true)
Fits is_utf8 _ = Unit

decode_prefixed :
    (len : ℕ) (body rest : List ℕ)
    → length body ≡ len
    → len < 2 ^ 16
    → decode_with_len (to_be_bytes 2 len ++ (body ++ rest)) ≡ some body
unfolding decode_with_len
decode_prefixed len body rest e small = ground (
  arith,
  length-to_be_bytes 2 len,
  take-append 2 (to_be_bytes 2 len) (body ++ rest) (length-to_be_bytes 2 len),
  drop-append 2 (to_be_bytes 2 len) (body ++ rest) (length-to_be_bytes 2 len),
  from_be_bytes-to_be_bytes 2 len (omega arith),
  take-append len body rest e,
  length-append (to_be_bytes 2 len) (body ++ rest),
  length-append body rest,
)

-- A length-prefixed body comes back cut to 65535 bytes.
abbrev prefixed : List ℕ → List ℕ
prefixed body = let len : ℕ = min (length body) 65535 in to_be_bytes 2 len ++ take len body

decode_with_len-cut :
    (body : List ℕ) → decode_with_len (prefixed body) ≡ some (take (min (length body) 65535) body)
decode_with_len-cut body =
    let len : ℕ = min (length body) 65535 in
    ap (λ t. decode_with_len (to_be_bytes 2 len ++ t)) (sym (append-nil (take len body)))
    ∙ decode_prefixed len (take len body) [] (omega (arith, length-take len body)) (omega arith)

decode_with_len-fits :
    (body : List ℕ) → length body ≤ 65535 → decode_with_len (prefixed body) ≡ some body
decode_with_len-fits body h =
    decode_with_len-cut body ∙ ap some (take_all (min (length body) 65535) body (omega arith))

-- The `UdpData` arm on an input whose parts are known.
decode_udp_parts :
    (is_utf8 : List ℕ → Bool) (input l1 l2 addr body t1 t2 t3 : List ℕ)
    → take 2 (drop 1 input) ≡ l1
    → from_be_bytes l1 ≡ length addr
    → drop 3 input ≡ t1
    → take (length addr) t1 ≡ addr
    → drop (3 + length addr) input ≡ t2
    → take 2 t2 ≡ l2
    → from_be_bytes l2 ≡ length body
    → drop (3 + length addr + 2) input ≡ t3
    → take (length body) t3 ≡ body
    → 3 + length addr + 2 + length body ≤ length input
    → is_utf8 addr ≡ true
    → decode_udp is_utf8 input ≡ some (udp_data addr body)
unfolding decode_udp
decode_udp_parts is_utf8 input l1 l2 addr body t1 t2 t3 e1 n1 e2 e3 e4 e5 n2 e6 e7 len u =
    ground arith

decode_udp-encode :
    (is_utf8 : List ℕ → Bool) (addr body : List ℕ)
    → length addr ≤ 65535
    → length body ≤ 65535
    → is_utf8 addr ≡ true
    → decode_udp is_utf8 (encode (udp_data addr body)) ≡ some (udp_data addr body)
unfolding encode
decode_udp-encode is_utf8 addr body a b u =
    let l1 = to_be_bytes 2 (length addr % 2 ^ 16) in
    let l2 = to_be_bytes 2 (length body % 2 ^ 16) in
    let len1 = length-to_be_bytes 2 (length addr % 2 ^ 16) in
    let len2 = length-to_be_bytes 2 (length body % 2 ^ 16) in
    let t2 = l2 ++ body in
    let t1 = addr ++ t2 in
    let input : List ℕ = 10 ∷ (l1 ++ t1) in
    let at_t1 : drop 3 input ≡ t1 = drop-append 2 l1 t1 len1 in
    let at_t2 : drop (3 + length addr) input ≡ t2 =
      sym (drop-drop (length addr) 3 input)
      ∙ ap (drop (length addr)) at_t1
      ∙ drop-append (length addr) addr t2 refl in
    decode_udp_parts is_utf8 input l1 l2 addr body t1 t2 body (take-append 2 l1 t1 len1)
      (from_be_bytes-to_be_bytes 2 (length addr % 2 ^ 16) (omega arith) ∙ omega arith) at_t1
      (take-append (length addr) addr t2 refl) at_t2 (take-append 2 l2 body len2)
      (from_be_bytes-to_be_bytes 2 (length body % 2 ^ 16) (omega arith) ∙ omega arith)
      (sym (drop-drop 2 (3 + length addr) input) ∙ ap (drop 2) at_t2 ∙ drop-append 2 l2 body len2)
      (take_all (length body) body refl)
      (omega (arith, len1, len2, length-append l1 t1, length-append addr t2, length-append l2 body))
      u

stamp_back : (ts : ℕ) → decode_with_len (prefixed (to_be_bytes 8 ts)) ≡ some (to_be_bytes 8 ts)
stamp_back ts = decode_with_len-fits (to_be_bytes 8 ts) (omega (arith, length-to_be_bytes 8 ts))

-- A message that fits is decoded as it was, by any receiver with the same test for UTF-8.
pub decode-encode :
    (is_utf8 : List ℕ → Bool) (m : RelayMessage)
    → Fits is_utf8 m
    → decode is_utf8 (encode m) ≡ some m
unfolding decode encode
decode-encode is_utf8 (connect addr) (h, u) = rw (decode_with_len-fits addr h, u)
decode-encode is_utf8 (payload body) h = rw (decode_with_len-fits body h)
decode-encode is_utf8 keep_alive h = refl
decode-encode is_utf8 close h = refl
decode-encode is_utf8 connect_ok h = refl
decode-encode is_utf8 (error msg) (h, u) = rw (decode_with_len-fits msg h, u)
decode-encode is_utf8 (ping ts) h =
    ground
      (arith, stamp_back ts, length-to_be_bytes 8 ts, from_be_bytes-to_be_bytes 8 ts (omega arith))
decode-encode is_utf8 (pong ts) h =
    ground
      (arith, stamp_back ts, length-to_be_bytes 8 ts, from_be_bytes-to_be_bytes 8 ts (omega arith))
decode-encode is_utf8 udp_associate h = refl
decode-encode is_utf8 (udp_data addr body) (a, b, u) = decode_udp-encode is_utf8 addr body a b u

-- A data message of any length loses exactly what stands behind its first 65535 bytes, with no
-- error on either side.
pub decode-encode_cut :
    (is_utf8 : List ℕ → Bool) (body : List ℕ)
    → decode is_utf8 (encode (payload body)) ≡ some (payload (take (min (length body) 65535) body))
unfolding decode encode
decode-encode_cut is_utf8 body = rw (decode_with_len-cut body)
