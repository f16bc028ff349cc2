-- ===== src/Obfuscation/Masking.antt =====
-- The header mask of ostp-core/src/crypto/obfuscation.rs is taken off by the receiver.
use Prim.Native.Nat.{bit_xor}
use mathlib.Core.List.{append-nil}
use ostp.Prelude.{
  take_all, ℕ, ◌+◌, Bool-cases, inl, inr, if◌then◌else◌, zero, suc, ◌≤◌, ◌<◌, ◌≡◌, ◌≢◌, refl, ap,
  true, false, Bool, List, [], ◌∷◌, ◌++◌, length, take, drop, arith, ◌==◌, ==_iff, IsByte, All,
  length-take, length-drop, length-append, take-append, drop-append, take-append-drop, All-take,
  ◌⊎◌,
}
use ostp.External.{Hash}
use ostp.Obfuscation.{
  xor_bytes, derive_payload_mask, obfuscate_packet_inplace, deobfuscate_packet_inplace,
}

nil_of_length : (xs : List ℕ) → length xs ≡ 0 → xs ≡ []
nil_of_length [] h = refl
nil_of_length (x ∷ xs) h = absurd (omega arith)

-- How many bytes below `width` a mask byte does not give back when it is applied twice.
failures : ℕ → ℕ → ℕ
failures m zero = 0
failures m (suc x) = (if bit_xor (bit_xor x m) m == x then 0 else 1) + failures m x

total_failures : ℕ → ℕ → ℕ
total_failures zero width = 0
total_failures (suc m) width = failures m width + total_failures m width

no_failures : total_failures 256 256 ≡ 0
unfolding failures total_failures
no_failures = refl

now_zero : (b : Bool) (later : ℕ) → (if b then 0 else 1) + later ≡ 0 → b ≡ true
now_zero true later h = refl
now_zero false later h = absurd (omega arith)

rest_zero : (b : Bool) (later : ℕ) → (if b then 0 else 1) + later ≡ 0 → later ≡ 0
rest_zero true later h = omega arith
rest_zero false later h = absurd (omega arith)

restores :
    (width m x : ℕ) → failures m width ≡ 0 → x < width → (bit_xor (bit_xor x m) m == x) ≡ true
unfolding failures
restores zero m x h lt = absurd (omega arith)
restores (suc width) m x h lt = elim (Bool-cases (x == width)) [
  | inl here ↦ let e : x ≡ width = (==_iff x width).0 here in rw e (now_zero _ (failures m width) h)
  | inr there ↦ restores width m x (rest_zero _ (failures m width) h) (ground arith)
]

mask_restores : (k width m : ℕ) → total_failures k width ≡ 0 → m < k → failures m width ≡ 0
unfolding total_failures
mask_restores zero width m h lt = absurd (omega arith)
mask_restores (suc k) width m h lt = elim (Bool-cases (m == k)) [
  | inl here ↦ let e : m ≡ k = (==_iff m k).0 here in rw e (omega arith)
  | inr there ↦ mask_restores k width m (omega arith) (ground arith)
]

xor_twice : (x m : ℕ) → x < 256 → m < 256 → bit_xor (bit_xor x m) m ≡ x
xor_twice x m hx hm =
    (==_iff (bit_xor (bit_xor x m) m) x).0
      (restores 256 m x (mask_restores 256 256 m no_failures hm) hx)

length-xor_bytes : (xs mask : List ℕ) → length (xor_bytes xs mask) ≡ length xs
unfolding xor_bytes
length-xor_bytes [] mask = refl
length-xor_bytes (x ∷ xs) [] = refl
length-xor_bytes (x ∷ xs) (m ∷ mask) = ap suc (length-xor_bytes xs mask)

xor_bytes_twice :
    (xs mask : List ℕ) → All IsByte xs → All IsByte mask → xor_bytes (xor_bytes xs mask) mask ≡ xs
unfolding xor_bytes
xor_bytes_twice [] mask h k = refl
xor_bytes_twice (x ∷ xs) [] h k = refl
xor_bytes_twice (x ∷ xs) (m ∷ mask) h k =
    cc (xor_twice x m h.0 k.0, xor_bytes_twice xs mask h.1 k.1)

module _ (hash : Hash) where
  -- Masking the first `n` bytes by what follows them, twice.
  remask :
      (n : ℕ) (key raw : List ℕ)
      → All IsByte raw
      → n ≤ length raw
      → let mask = derive_payload_mask hash key (drop n raw) in
        let out = xor_bytes (take n raw) mask ++ drop n raw in
        xor_bytes (take n out) (derive_payload_mask hash key (drop n out)) ++ drop n out ≡ raw
  unfolding derive_payload_mask
  remask n key raw bytes h =
      let mask = derive_payload_mask hash key (drop n raw) in
      let head = xor_bytes (take n raw) mask in
      let len : length head ≡ n =
        omega (arith, length-xor_bytes (take n raw) mask, length-take n raw) in
      rw (take-append n head (drop n raw) len, drop-append n head (drop n raw) len)
        (rw (xor_bytes_twice (take n raw) mask (All-take IsByte n raw bytes) (hash.hmac-IsByte _ _))
          (take-append-drop n raw))

  length-masked :
      (n : ℕ) (raw mask : List ℕ) → length (xor_bytes (take n raw) mask ++ drop n raw) ≡ length raw
  length-masked n raw mask = omega (
    arith,
    length-append (xor_bytes (take n raw) mask) (drop n raw),
    length-xor_bytes (take n raw) mask,
    length-take n raw,
    length-drop n raw,
  )

  -- A receiver with the key takes the mask off: every handshake datagram of bytes comes back, and
  -- every data datagram but one of exactly 12 bytes.
  pub deobfuscate-obfuscate :
      (key raw : List ℕ) (is_handshake : Bool)
      → All IsByte raw
      → (is_handshake ≡ true) ⊎ (length raw ≢ 12)
      → deobfuscate_packet_inplace hash key is_handshake
          (obfuscate_packet_inplace hash key is_handshake raw)
        ≡ raw
  unfolding deobfuscate_packet_inplace obfuscate_packet_inplace
  deobfuscate-obfuscate key raw true bytes other = ground (
    arith,
    remask 6 key raw bytes,
    length-masked 6 raw (derive_payload_mask hash key (drop 6 raw)),
  )
  deobfuscate-obfuscate key raw false bytes other = ground (
    arith,
    remask 12 key raw bytes,
    length-masked 12 raw (derive_payload_mask hash key (drop 12 raw)),
  )

  -- A data datagram of exactly 12 bytes is sent unmasked, and the receiver masks it.
  pub obfuscate_bare_header :
      (key raw : List ℕ)
      → length raw ≡ 12
      → (obfuscate_packet_inplace hash key false raw ≡ raw)
        × (deobfuscate_packet_inplace hash key false raw
            ≡ xor_bytes raw (derive_payload_mask hash key []))
  unfolding deobfuscate_packet_inplace obfuscate_packet_inplace
  obfuscate_bare_header key raw h =
      let none_left : drop 12 raw ≡ [] =
        nil_of_length (drop 12 raw) (omega (arith, length-drop 12 raw)) in
      (
        ground arith,
        ground (
          arith,
          take_all 12 raw h,
          append-nil (xor_bytes raw (derive_payload_mask hash key [])),
        ),
      )
