-- ===== src/Reassembly/Groups/Bounds.antt =====
-- The reassembler of ostp-client/src/tunnel/ip_reasm.rs is bounded and never panics.
use ostp.Prelude.{
  ◌+◌, ◌≤◌, ◌<◌, ◌≡◌, refl, sym, subst, true, Option, none, some, [], ◌∷◌, length, leb, arith,
  Bool-cases, inl, inr,
}
use ostp.Dict.{Key, Dict, lookup, insert, contains}
use ostp.Dict.Laws.{length-insert, length-remove, beq_self}
use ostp.Reassembly.{FragmentKey, Group, max_groups}
use ostp.Reassembly.Groups.{fragment_key, older_group, oldest_group, make_room, without_group}

module _ {K V : Type 0} ⦃e : Key K⦄ where
  contains-cons :
      (i : K) (x : K × V) (d : Dict K V) → contains i d ≡ true → contains i (x ∷ d) ≡ true
  unfolding lookup
  contains-cons i (k, v) d h = elim (Bool-cases (e.beq k i)) [ inl q ↦ rw q refl | inr q ↦ rw q h ]

  contains-head : (x : K × V) (d : Dict K V) → contains x.0 (x ∷ d) ≡ true
  unfolding lookup
  contains-head (k, v) d = rw (beq_self k) refl

contains-older_group :
    (x : FragmentKey × Group) (o : Option (FragmentKey × Group)) (d : Dict FragmentKey Group)
    → ((y : FragmentKey × Group) → o ≡ some y → contains y.0 d ≡ true)
    → contains ((older_group x o).0) (x ∷ d) ≡ true
contains-older_group x none d h = contains-head x d
contains-older_group x (some y) d h = elim (Bool-cases (leb x.1.first_seen y.1.first_seen)) [
  | inl q ↦
      let same : older_group x (some y) ≡ x = rw q refl in
      subst (λ z. contains z.0 (x ∷ d) ≡ true) (sym same) (contains-head x d)
  | inr q ↦
      let same : older_group x (some y) ≡ y = rw q refl in
      subst (λ z. contains z.0 (x ∷ d) ≡ true) (sym same) (contains-cons y.0 x d (h y refl))
]

oldest_group-contains :
    (d : Dict FragmentKey Group) (y : FragmentKey × Group)
    → oldest_group d ≡ some y
    → contains y.0 d ≡ true
unfolding oldest_group
oldest_group-contains [] y h = absurd cc
oldest_group-contains (x ∷ d) y h =
    let same : older_group x (oldest_group d) ≡ y = cc in
    subst (λ z. contains z.0 (x ∷ d) ≡ true) same
      (contains-older_group x (oldest_group d) d (oldest_group-contains d))

without_oldest :
    (d : Dict FragmentKey Group)
    → 0 < length d
    → length (without_group (oldest_group d) d) + 1 ≤ length d
unfolding oldest_group
without_oldest [] h = absurd (omega arith)
without_oldest (x ∷ d) h =
    length-remove ((older_group x (oldest_group d)).0) (x ∷ d)
      (contains-older_group x (oldest_group d) d (oldest_group-contains d))

-- After room is made a group can be put in.
pub room-insert :
    (key : FragmentKey) (g : Group) (d : Dict FragmentKey Group)
    → length d ≤ max_groups
    → length (insert key g (make_room key d)) ≤ max_groups
unfolding make_room
room-insert key g d h = elim (Bool-cases (leb max_groups (length d))) [
  | inr q ↦ rw q (bounded d (ground (arith, q)))
  | inl q ↦ elim (Bool-cases (contains key d)) [
    | inl known ↦ rw (q, known) (kept d known h)
    | inr new ↦
        rw (q, new)
          (bounded (without_group (oldest_group d) d)
            (omega (arith, without_oldest d (ground (arith, q)), h)))
  ]
]
  where
    bounded :
        (d : Dict FragmentKey Group) → length d < max_groups → length (insert key g d) ≤ max_groups
    bounded d h = ground (arith, length-insert key g d, h)

    kept :
        (d : Dict FragmentKey Group)
        → contains key d ≡ true
        → length d ≤ max_groups
        → length (insert key g d) ≤ max_groups
    kept d known h = rw (length-insert key g d, known) h
