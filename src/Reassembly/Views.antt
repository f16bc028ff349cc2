-- ===== src/Reassembly/Views.antt =====
-- Parsing a frame in ostp-client/src/tunnel/ip_reasm.rs never reads out of range.
use ostp.Prelude.{
  ℕ, ◌-◌, ◌*◌, ◌/◌, ◌%◌, ◌≤◌, ◌≡◌, refl, Option, none, some, List, length, take, ltb, ◌==◌, arith,
  Bool-cases, inl, inr, length-take, get_or, max, min, drop, from_be_bytes,
}
use ostp.Slices.{byte_at-inside, slice-inside, slice-front}
use ostp.Outcome.{Outcome, ok, err, panic}
use ostp.Reassembly.{Ipv4View, parse, view, word}
use ostp.Reassembly.Groups.{fragment_key}

-- The header of what parsing gives has its fixed part, and parsing does not panic.
abbrev pub LongView : Outcome (Option Ipv4View) → Type 0
LongView (ok none) = Unit
LongView (ok (some v4)) = 20 ≤ length v4.header
LongView (err e) = ⊥
LongView panic = ⊥

word-inside :
    (frame : List ℕ) (start end : ℕ)
    → start ≤ end
    → end ≤ length frame
    → (n : ℕ) × (word frame start end ≡ ok n)
unfolding word
word-inside frame start end h t = (
  from_be_bytes (take (end - start) (drop start frame)),
  rw (slice-inside frame start end h t) refl,
)

view-LongView :
    (frame : List ℕ) (ihl : ℕ) → 20 ≤ ihl → ihl ≤ length frame → LongView (view frame ihl)
unfolding view
view-LongView frame ihl fixed inside =
    let (declared, e1) = word-inside frame 2 4 (omega arith) (omega arith) in
    let (id, e2) = word-inside frame 4 6 (omega arith) (omega arith) in
    let (flags, e3) = word-inside frame 6 8 (omega arith) (omega arith) in
    let e4 = byte_at-inside frame 9 (omega arith) in
    let (src, e5) = word-inside frame 12 16 (omega arith) (omega arith) in
    let (dst, e6) = word-inside frame 16 20 (omega arith) (omega arith) in
    let e7 = slice-front frame ihl inside in
    let e8 =
      slice-inside frame ihl (max (min declared (length frame)) ihl) (omega arith) (omega arith) in
    let long : 20 ≤ length (take ihl frame) = omega (arith, length-take ihl frame) in
    rw (e1, e2, e3, e4, e5, e6, e7, e8) long

pub parse-LongView : (frame : List ℕ) → LongView (parse frame)
unfolding parse
parse-LongView frame =
    let ihl : ℕ = get_or frame 0 0 % 16 * 4 in
    elim (Bool-cases (ltb (length frame) 20)) [
      | inl q ↦ rw q tt
      | inr q ↦
          let first = byte_at-inside frame 0 (ground (arith, q)) in
          elim (Bool-cases (get_or frame 0 0 / 16 == 4)) [
            | inr v ↦ rw (q, first, v) tt
            | inl v ↦ elim (Bool-cases (ltb ihl 20)) [
              | inl s ↦ rw (q, first, v, s) tt
              | inr s ↦ elim (Bool-cases (ltb (length frame) ihl)) [
                | inl t ↦ rw (q, first, v, s, t) tt
                | inr t ↦
                    rw (q, first, v, s, t)
                      (view-LongView frame ihl (ground (arith, s)) (ground (arith, t)))
              ]
            ]
          ]
    ]
