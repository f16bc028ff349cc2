-- ===== src/Sniff/Answers.antt =====
-- What `extract_sni` of ostp-client/src/tunnel/sni_sniff.rs answers.
use ostp.Prelude.{
  ℕ, zero, suc, ◌+◌, ◌-◌, ◌*◌, ◌≤◌, ◌<◌, ◌≡◌, refl, Option, none, some, Bool, true, inl, inr, not,
  ◌||◌, List, length, take, drop, get_or, ltb, leb, ◌==◌, if◌then◌else◌, arith, Bool-cases,
  length-take, length-drop, lt→ltb, le→leb,
}
use ostp.Outcome.{Outcome, ok, err, panic}
use ostp.Sniff.{
  byte_at, word_at, slice, server_name, find_extension, after_suites, after_header, extract_sni,
}

-- Nothing, or a piece of the data that is UTF-8; no error and no panic.
abbrev pub IsAnswer : (List ℕ → Bool) → List ℕ → Outcome (Option (List ℕ)) → Type 0
IsAnswer is_utf8 input (ok none) = Unit
IsAnswer is_utf8 input (ok (some name)) =
    (is_utf8 name ≡ true)
    × ((start : ℕ) × (start + length name ≤ length input)
        × (name ≡ take (length name) (drop start input)))
IsAnswer is_utf8 input (err _) = ⊥
IsAnswer is_utf8 input panic = ⊥

byte_at_in :
    (input : List ℕ) (pos : ℕ) → pos < length input → byte_at input pos ≡ ok (get_or input pos 0)
unfolding byte_at
byte_at_in input pos h = rw (lt→ltb pos (length input) h) refl

word_at_in :
    (input : List ℕ) (pos : ℕ)
    → pos + 1 < length input
    → word_at input pos ≡ ok (get_or input pos 0 * 256 + get_or input (pos + 1) 0)
unfolding word_at
word_at_in input pos h = rw (byte_at_in input pos (omega arith), byte_at_in input (pos + 1) h) refl

slice_in :
    (input : List ℕ) (start len : ℕ)
    → start + len ≤ length input
    → slice input start (start + len) ≡ ok (take len (drop start input))
unfolding slice
slice_in input start len h =
    let width : start + len - start ≡ len = omega arith in
    rw (le→leb start (start + len) (omega arith), le→leb (start + len) (length input) h, width) refl

-- A piece of the input answers, if it is UTF-8.
piece-IsAnswer :
    (is_utf8 : List ℕ → Bool) (input : List ℕ) (start len : ℕ)
    → start + len ≤ length input
    → IsAnswer is_utf8 input (
        ok (
          if is_utf8 (take len (drop start input))
          then some (take len (drop start input))
          else none))
piece-IsAnswer is_utf8 input start len h =
    let whole : length (take len (drop start input)) ≡ len =
      omega (arith, length-take len (drop start input), length-drop start input) in
    elim (Bool-cases (is_utf8 (take len (drop start input)))) [
      | inl q ↦ rw q (q, (start, omega (arith, whole), rw whole refl))
      | inr q ↦ rw q tt
    ]

server_name-IsAnswer :
    (is_utf8 : List ℕ → Bool) (input : List ℕ) (extensions_end pos : ℕ)
    → extensions_end ≤ length input
    → IsAnswer is_utf8 input (server_name is_utf8 input extensions_end pos)
unfolding server_name
server_name-IsAnswer is_utf8 input extensions_end pos fits =
    elim (Bool-cases (ltb extensions_end (pos + 5))) [
      | inl q ↦ rw q tt
      | inr q ↦
          let room : pos + 5 ≤ length input = ground arith in
          let name_len = get_or input (pos + 3) 0 * 256 + get_or input (pos + 3 + 1) 0 in
          rw
            (
              q,
              word_at_in input pos (omega arith),
              byte_at_in input (pos + 2) (omega arith),
              word_at_in input (pos + 3) (omega arith),
            )
            (elim (Bool-cases (get_or input (pos + 2) 0 == 0)) [
              | inr r ↦ rw r tt
              | inl r ↦ rw r (elim (Bool-cases (ltb extensions_end (pos + 5 + name_len))) [
                | inl s ↦ rw s tt
                | inr s ↦
                    rw (s, slice_in input (pos + 5) name_len (ground arith))
                      (piece-IsAnswer is_utf8 input (pos + 5) name_len (ground arith))
              ])
            ])
    ]

find_extension-IsAnswer :
    (is_utf8 : List ℕ → Bool) (fuel : ℕ) (input : List ℕ) (extensions_end pos : ℕ)
    → extensions_end ≤ length input
    → 0 < fuel
    → extensions_end < pos + fuel
    → IsAnswer is_utf8 input (find_extension is_utf8 fuel input extensions_end pos)
unfolding find_extension
find_extension-IsAnswer is_utf8 zero input extensions_end pos fits some_fuel enough =
    absurd (omega arith)
find_extension-IsAnswer is_utf8 (suc fuel) input extensions_end pos fits some_fuel enough =
    elim (Bool-cases (ltb extensions_end (pos + 4))) [
      | inl q ↦ rw q tt
      | inr q ↦
          let room : pos + 4 ≤ extensions_end = ground arith in
          rw (q, word_at_in input pos (omega arith), word_at_in input (pos + 2) (omega arith))
            (elim (Bool-cases (get_or input pos 0 * 256 + get_or input (pos + 1) 0 == 0)) [
              | inl r ↦ rw r (server_name-IsAnswer is_utf8 input extensions_end (pos + 4) fits)
              | inr r ↦ rw r (
                  find_extension-IsAnswer is_utf8 fuel input extensions_end _ fits (omega arith)
                    (omega arith))
            ])
    ]

after_suites-IsAnswer :
    (is_utf8 : List ℕ → Bool) (input : List ℕ) (pos : ℕ)
    → IsAnswer is_utf8 input (after_suites is_utf8 input pos)
unfolding after_suites
after_suites-IsAnswer is_utf8 input pos = elim (Bool-cases (leb (length input) pos)) [
  | inl q ↦ rw q tt
  | inr q ↦
      let pos' = pos + (1 + get_or input pos 0) in
      rw (q, byte_at_in input pos (ground arith))
        (elim (Bool-cases (ltb (length input) (pos' + 2))) [
          | inl r ↦ rw r tt
          | inr r ↦
              let extensions_end =
                pos' + 2 + (get_or input pos' 0 * 256 + get_or input (pos' + 1) 0) in
              rw (r, word_at_in input pos' (ground arith))
                (elim (Bool-cases (ltb (length input) extensions_end)) [
                  | inl s ↦ rw s tt
                  | inr s ↦ rw s (
                      find_extension-IsAnswer is_utf8 (suc (length input)) input extensions_end
                        (pos' + 2) (ground arith) (omega arith) (ground arith))
                ])
        ])
]

after_header-IsAnswer :
    (is_utf8 : List ℕ → Bool) (input : List ℕ) (pos : ℕ)
    → IsAnswer is_utf8 input (after_header is_utf8 input pos)
unfolding after_header
after_header-IsAnswer is_utf8 input pos = elim (Bool-cases (leb (length input) pos)) [
  | inl q ↦ rw q tt
  | inr q ↦
      let pos' = pos + (1 + get_or input pos 0) in
      rw (q, byte_at_in input pos (ground arith))
        (elim (Bool-cases (ltb (length input) (pos' + 2))) [
          | inl r ↦ rw r tt
          | inr r ↦
              rw (r, word_at_in input pos' (ground arith)) (after_suites-IsAnswer is_utf8 input _)
        ])
]

-- On any bytes at all the search for the server name ends and stays inside the data: it never
-- panics, and what it answers is nothing or a contiguous piece of the data that is UTF-8.
pub extract_sni-IsAnswer :
    (is_utf8 : List ℕ → Bool) (input : List ℕ) → IsAnswer is_utf8 input (extract_sni is_utf8 input)
unfolding extract_sni
extract_sni-IsAnswer is_utf8 input = elim (Bool-cases (ltb (length input) 43)) [
  | inl q ↦ rw q tt
  | inr q ↦
      let room : 43 ≤ length input = ground arith in
      let other =
        not (get_or input 0 0 == 22)
        || (not (get_or input 1 0 == 3) || not (get_or input 5 0 == 1)) in
      rw
        (
          q,
          byte_at_in input 0 (omega arith),
          byte_at_in input 1 (omega arith),
          byte_at_in input 5 (omega arith),
        )
        (elim (Bool-cases other) [
          | inl r ↦ rw r tt
          | inr r ↦ rw r (after_header-IsAnswer is_utf8 input 43)
        ])
]
