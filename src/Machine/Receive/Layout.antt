-- ===== src/Machine/Receive/Layout.antt =====
-- The layout of a data datagram of ostp-core/src/protocol.rs: session id, nonce, ciphertext.
use ostp.Prelude.{
  ℕ, ◌+◌, ◌≡◌, List, ◌++◌, arith, length, take, drop, to_be_bytes, sym, length-append, take-append,
  drop-append, length-to_be_bytes, to_be_bytes-IsByte, IsByte, All, All-append,
}
use mathlib.Core.List.{append_assoc}

pub bare-length :
    (id nonce : ℕ) (c : List ℕ)
    → length (to_be_bytes 4 id ++ (to_be_bytes 8 nonce ++ c)) ≡ 12 + length c
bare-length id nonce c = omega (
  arith,
  length-append (to_be_bytes 4 id) (to_be_bytes 8 nonce ++ c),
  length-append (to_be_bytes 8 nonce) c,
  length-to_be_bytes 4 id,
  length-to_be_bytes 8 nonce,
)

pub bare-id :
    (id nonce : ℕ) (c : List ℕ)
    → take 4 (to_be_bytes 4 id ++ (to_be_bytes 8 nonce ++ c)) ≡ to_be_bytes 4 id
bare-id id nonce c = take-append 4 (to_be_bytes 4 id) _ (length-to_be_bytes 4 id)

pub bare-nonce :
    (id nonce : ℕ) (c : List ℕ)
    → take 8 (drop 4 (to_be_bytes 4 id ++ (to_be_bytes 8 nonce ++ c))) ≡ to_be_bytes 8 nonce
bare-nonce id nonce c =
    rw (drop-append 4 (to_be_bytes 4 id) (to_be_bytes 8 nonce ++ c) (length-to_be_bytes 4 id))
      (take-append 8 (to_be_bytes 8 nonce) c (length-to_be_bytes 8 nonce))

pub bare-body :
    (id nonce : ℕ) (c : List ℕ) → drop 12 (to_be_bytes 4 id ++ (to_be_bytes 8 nonce ++ c)) ≡ c
bare-body id nonce c =
    let e : (to_be_bytes 4 id ++ to_be_bytes 8 nonce) ++ c
        ≡ to_be_bytes 4 id ++ (to_be_bytes 8 nonce ++ c) =
      simp append_assoc in
    rw (sym e) (
      drop-append 12 (to_be_bytes 4 id ++ to_be_bytes 8 nonce) c (
        omega (
          arith,
          length-append (to_be_bytes 4 id) (to_be_bytes 8 nonce),
          length-to_be_bytes 4 id,
          length-to_be_bytes 8 nonce,
        )))

pub bare-bytes :
    (id nonce : ℕ) (c : List ℕ)
    → All IsByte c
    → All IsByte (to_be_bytes 4 id ++ (to_be_bytes 8 nonce ++ c))
bare-bytes id nonce c h =
    All-append IsByte (to_be_bytes 4 id) _ (to_be_bytes-IsByte 4 id)
      (All-append IsByte (to_be_bytes 8 nonce) c (to_be_bytes-IsByte 8 nonce) h)
