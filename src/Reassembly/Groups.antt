-- ===== src/Reassembly/Groups.antt =====
-- `process` of ostp-client/src/tunnel/ip_reasm.rs: the groups of fragments.
pub mod Bounds
pub mod Safety
use ostp.Prelude.{
  ℕ, ◌+◌, ◌-◌, ◌*◌, ◌≡◌, refl, ap, ◌↔◌, Bool, true, false, not, ◌&&◌, ◌||◌, Option, none, some,
  List, [], ◌∷◌, length, ltb, leb, ◌==◌, if◌then◌else◌, retain, arith,
}
use ostp.Outcome.{Outcome, ok, err, panic}
use ostp.Dict.{Key, Dict, lookup, insert, remove, contains}
use ostp.Reassembly.{
  FragmentKey, Group, Reassembler, Ipv4View, reasm_timeout, max_groups, max_datagram, parse,
  put_part, complete,
}

abbrev pub same_fragment : FragmentKey → FragmentKey → Bool
same_fragment a b = (a.0 == b.0) && ((a.1 == b.1) && ((a.2 == b.2) && (a.3 == b.3)))

pub fragment_beq : (a b : FragmentKey) → (same_fragment a b ≡ true) ↔ (a ≡ b)
fragment_beq (a, b, c, d) (a', b', c', d') = (
  λ h.
      let p : a ≡ a' = ground (arith, h) in
      let q : b ≡ b' = ground (arith, h) in
      let r : c ≡ c' = ground (arith, h) in
      let s : d ≡ d' = ground (arith, h) in rw (p, q, r, s) refl,
  λ h.
      let p : a ≡ a' = ap (λ x. x.0) h in
      let q : b ≡ b' = ap (λ x. x.1) h in
      let r : c ≡ c' = ap (λ x. x.2) h in
      let s : d ≡ d' = ap (λ x. x.3) h in ground (arith, p, q, r, s),
)

instance abbrev pub fragment_key : Key FragmentKey
fragment_key = record { beq = same_fragment; beq_iff = fragment_beq }

unfoldable pub maybe_sweep : ℕ → Reassembler → Reassembler
maybe_sweep now r = if ltb (now - r.last_sweep) 1_000_000_000 then r else record {
  groups = retain (λ x. ltb (now - x.1.first_seen) reasm_timeout) r.groups;
  last_sweep = now;
}

-- `min_by_key`: the first group that is seen longest.
abbrev pub older_group : FragmentKey × Group → Option (FragmentKey × Group) → FragmentKey × Group
older_group x none = x
older_group x (some y) = if leb x.1.first_seen y.1.first_seen then x else y

unfoldable pub oldest_group : Dict FragmentKey Group → Option (FragmentKey × Group)
oldest_group [] = none
oldest_group (x ∷ d) = some (older_group x (oldest_group d))

abbrev pub without_group :
    Option (FragmentKey × Group) → Dict FragmentKey Group → Dict FragmentKey Group
without_group none d = d
without_group (some x) d = remove x.0 d

unfoldable pub make_room : FragmentKey → Dict FragmentKey Group → Dict FragmentKey Group
unfolding oldest_group
make_room key d =
    if leb max_groups (length d) && not (contains key d)
    then without_group (oldest_group d) d
    else d

abbrev pub group_or : ℕ → Option Group → Group
group_or now (some g) = g
group_or now none = record { parts = []; header = none; total_len = none; first_seen = now }

-- A fragment in its group.
unfoldable pub add_fragment : Ipv4View → Group → Group
add_fragment v4 g = record {
  parts = put_part v4.frag_offset v4.payload g.parts;
  header = if v4.frag_offset == 0 then some v4.header else g.header;
  total_len =
      if not v4.more_fragments then some (v4.frag_offset + length v4.payload) else g.total_len;
  first_seen = g.first_seen;
}

abbrev pub answer_group :
    FragmentKey
    → Group
    → Dict FragmentKey Group
    → ℕ
    → Option (Outcome (List ℕ))
    → Outcome (Option (List ℕ)) × Reassembler
answer_group key g d sweep none = (ok none, record { groups = insert key g d; last_sweep = sweep })
answer_group key g d sweep (some (ok packet)) =
    (ok (some packet), record { groups = remove key d; last_sweep = sweep })
answer_group key g d sweep (some (err e)) =
    (err e, record { groups = remove key d; last_sweep = sweep })
answer_group key g d sweep (some panic) =
    (panic, record { groups = remove key d; last_sweep = sweep })

unfoldable pub process_view :
    ℕ → List ℕ → Reassembler → Outcome (Option Ipv4View) → Outcome (Option (List ℕ)) × Reassembler
unfolding make_room add_fragment
process_view now frame r panic = (panic, r)
process_view now frame r (err e) = (err e, r)
process_view now frame r (ok none) = (ok (some frame), r)
process_view now frame r (ok (some v4)) =
    let key : FragmentKey = (v4.src, v4.dst, v4.id, v4.protocol) in
    let room = make_room key r.groups in
    let g = add_fragment v4 (group_or now (lookup key room)) in
    if not v4.more_fragments && (v4.frag_offset == 0)
    then (ok (some frame), r)
    else if ltb max_datagram (v4.frag_offset + length v4.payload)
    then (ok none, record r { groups = remove key room })
    else answer_group key g room r.last_sweep (complete g)

unfoldable pub process : ℕ → List ℕ → Reassembler → Outcome (Option (List ℕ)) × Reassembler
unfolding maybe_sweep process_view
process now frame r = process_view now frame (maybe_sweep now r) (parse frame)

abbrev pub new_reassembler : ℕ → Reassembler
new_reassembler now = record { groups = []; last_sweep = now }

-- Frames at times, and what each gives.
unfoldable pub process_all :
    List (ℕ × List ℕ) → Reassembler → List (Outcome (Option (List ℕ))) × Reassembler
unfolding process
process_all [] r = ([], r)
process_all ((now, frame) ∷ rest) r =
    let one = process now frame r in let more = process_all rest one.1 in (one.0 ∷ more.0, more.1)
