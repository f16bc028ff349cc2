-- ===== src/Reassembly/Groups/Safety.antt =====
-- The reassembler of ostp-client/src/tunnel/ip_reasm.rs never panics, whatever frames the TUN device gives.
use ostp.Prelude.{
  ℕ, ◌+◌, ◌-◌, ◌≤◌, ◌≡◌, refl, false, not, ◌&&◌, Option, none, some, List, [], ◌∷◌, length, ltb,
  leb, ◌==◌, arith, Bool-cases, inl, inr, All,
}
use ostp.Reassembly.Bytes.{length-zeros}
use ostp.Reassembly.Pieces.{copy_parts-returns}
use ostp.Outcome.{Outcome, ok, err, panic}
use ostp.Dict.{Dict, lookup, insert, contains}
use ostp.Dict.Laws.{length-remove-le, length-retain}
use ostp.Dict.All.{Values, Values-lookup, Values-insert, Values-remove, Values-retain}
use ostp.Reassembly.{
  FragmentKey, Group, Reassembler, Ipv4View, max_groups, max_datagram, parse, zeros,
  build_reassembled, walk, covered, complete_known, complete, reasm_timeout,
}
use ostp.Reassembly.Groups.{
  fragment_key, maybe_sweep, oldest_group, make_room, without_group, group_or, add_fragment,
  answer_group, process_view, process, process_all, new_reassembler,
}
use ostp.Reassembly.Groups.Bounds.{room-insert}
use ostp.Reassembly.Views.{LongView, parse-LongView}

abbrev LongHeader : Option (List ℕ) → Type 0
LongHeader none = Unit
LongHeader (some header) = 20 ≤ length header

abbrev LongHeaders : Dict FragmentKey Group → Type 0
LongHeaders d = Values (λ g. LongHeader g.header) d

-- Bounded, and each header has its fixed part.
abbrev IsFit : Reassembler → Type 0
IsFit r = (length r.groups ≤ max_groups) × LongHeaders r.groups

-- Neither an error nor a panic.
abbrev pub IsCalm : Outcome (Option (List ℕ)) → Type 0
IsCalm (ok packet) = Unit
IsCalm (err e) = ⊥
IsCalm panic = ⊥

abbrev IsBuilt : Option (Outcome (List ℕ)) → Type 0
IsBuilt none = Unit
IsBuilt (some (ok packet)) = Unit
IsBuilt (some (err e)) = ⊥
IsBuilt (some panic) = ⊥

build-IsBuilt :
    (header payload : List ℕ)
    → 20 ≤ length header
    → IsBuilt (some (build_reassembled header payload))
unfolding build_reassembled
build-IsBuilt header payload h =
    let room : ltb (length header + length payload) 12 ≡ false = ground (arith, h) in rw room tt

complete-IsBuilt : (g : Group) → LongHeader g.header → IsBuilt (complete g)
unfolding complete
complete-IsBuilt g h = known g.total_len g.header h
  where
    tiled :
        (total : ℕ) (header : List ℕ) (o : Option ℕ)
        → 20 ≤ length header
        → IsBuilt (covered total header g.parts o)
    tiled total header none h = tt
    tiled total header (some expected) h = elim (Bool-cases (ltb expected total)) [
      | inl q ↦ rw q tt
      | inr q ↦
          let (out, done) = copy_parts-returns total g.parts (zeros total) (length-zeros total) in
          rw (q, done) (build-IsBuilt header out h)
    ]

    known :
        (total : Option ℕ) (header : Option (List ℕ))
        → LongHeader header
        → IsBuilt (complete_known g.parts total header)
    known none header h = tt
    known (some total) none h = tt
    known (some total) (some header) h = tiled total header (walk 0 g.parts) h

add-LongHeader :
    (v4 : Ipv4View) (g : Group)
    → 20 ≤ length v4.header
    → LongHeader g.header
    → LongHeader (add_fragment v4 g).header
unfolding add_fragment
add-LongHeader v4 g long h = elim (Bool-cases (v4.frag_offset == 0)) [
  | inl q ↦ rw q long
  | inr q ↦ rw q h
]

group_or-LongHeader :
    (now : ℕ) (key : FragmentKey) (d : Dict FragmentKey Group) (o : Option Group)
    → lookup key d ≡ o
    → LongHeaders d
    → LongHeader (group_or now o).header
group_or-LongHeader now key d none e h = tt
group_or-LongHeader now key d (some g) e h = Values-lookup (λ g. LongHeader g.header) key g d h e

without-IsFit :
    (o : Option (FragmentKey × Group)) (d : Dict FragmentKey Group)
    → length d ≤ max_groups
    → LongHeaders d
    → (length (without_group o d) ≤ max_groups) × LongHeaders (without_group o d)
without-IsFit none d n h = (n, h)
without-IsFit (some x) d n h =
    (omega (arith, length-remove-le x.0 d, n), Values-remove (λ g. LongHeader g.header) x.0 d h)

room-IsFit :
    (key : FragmentKey) (d : Dict FragmentKey Group)
    → length d ≤ max_groups
    → LongHeaders d
    → (length (make_room key d) ≤ max_groups) × LongHeaders (make_room key d)
unfolding make_room
room-IsFit key d n h = elim (Bool-cases (leb max_groups (length d) && not (contains key d))) [
  | inl q ↦ rw q (without-IsFit (oldest_group d) d n h)
  | inr q ↦ rw q (n, h)
]

answer-IsFit :
    (key : FragmentKey) (g : Group) (d : Dict FragmentKey Group) (sweep : ℕ)
    (o : Option (Outcome (List ℕ)))
    → length (insert key g d) ≤ max_groups
    → length d ≤ max_groups
    → LongHeaders d
    → LongHeader g.header
    → IsBuilt o
    → let a = answer_group key g d sweep o in IsCalm (a.0) × IsFit (a.1)
answer-IsFit key g d sweep none n m h l b =
    (tt, (n, Values-insert (λ g. LongHeader g.header) key g d l h))
answer-IsFit key g d sweep (some (ok packet)) n m h l b = (
  tt,
  (omega (arith, length-remove-le key d, m), Values-remove (λ g. LongHeader g.header) key d h),
)
answer-IsFit key g d sweep (some (err e)) n m h l b = absurd b
answer-IsFit key g d sweep (some panic) n m h l b = absurd b

view-IsFit :
    (now : ℕ) (frame : List ℕ) (r : Reassembler) (o : Outcome (Option Ipv4View))
    → LongView o
    → IsFit r
    → IsCalm ((process_view now frame r o).0) × IsFit ((process_view now frame r o).1)
unfolding process_view
view-IsFit now frame r panic long h = absurd long
view-IsFit now frame r (err e) long h = absurd long
view-IsFit now frame r (ok none) long h = (tt, h)
view-IsFit now frame r (ok (some v4)) long h =
    let key : FragmentKey = (v4.src, v4.dst, v4.id, v4.protocol) in
    let room = make_room key r.groups in
    let fit = room-IsFit key r.groups h.0 h.1 in
    let old = group_or now (lookup key room) in
    let header =
      add-LongHeader v4 old long (group_or-LongHeader now key room (lookup key room) refl fit.1) in
    elim (Bool-cases (not v4.more_fragments && (v4.frag_offset == 0))) [
      | inl q ↦ rw q (tt, h)
      | inr q ↦ elim (Bool-cases (ltb max_datagram (v4.frag_offset + length v4.payload))) [
        | inl s ↦
            rw (q, s)
              (
                tt,
                (
                  omega (arith, length-remove-le key room, fit.0),
                  Values-remove (λ g. LongHeader g.header) key room fit.1,
                ),
              )
        | inr s ↦
            rw (q, s)
              (answer-IsFit key (add_fragment v4 old) room r.last_sweep _
                (room-insert key (add_fragment v4 old) r.groups h.0) fit.0 fit.1 header
                (complete-IsBuilt (add_fragment v4 old) header))
      ]
    ]

sweep-IsFit : (now : ℕ) (r : Reassembler) → IsFit r → IsFit (maybe_sweep now r)
unfolding maybe_sweep
sweep-IsFit now r h = elim (Bool-cases (ltb (now - r.last_sweep) 1_000_000_000)) [
  | inl q ↦ rw q h
  | inr q ↦ rw q (
    omega (arith, length-retain (λ x. ltb (now - x.1.first_seen) reasm_timeout) r.groups, h.0),
    Values-retain (λ g. LongHeader g.header) (λ x. ltb (now - x.1.first_seen) reasm_timeout)
        r.groups h.1,
  )
]

process_all-IsFit :
    (frames : List (ℕ × List ℕ)) (r : Reassembler)
    → IsFit r
    → All IsCalm ((process_all frames r).0) × IsFit ((process_all frames r).1)
unfolding process_all process
process_all-IsFit [] r h = (tt, h)
process_all-IsFit ((now, frame) ∷ rest) r h =
    let one =
      view-IsFit now frame (maybe_sweep now r) (parse frame) (parse-LongView frame)
        (sweep-IsFit now r h) in
    let more = process_all-IsFit rest _ one.1 in ((one.0, more.0), more.1)

-- Whatever frames arrive at whatever times, the reassembler never panics, and holds 4096 groups of
-- fragments at most.
pub reassembler_is_safe :
    (frames : List (ℕ × List ℕ)) (now : ℕ)
    → All IsCalm ((process_all frames (new_reassembler now)).0)
      × (length ((process_all frames (new_reassembler now)).1).groups ≤ max_groups)
reassembler_is_safe frames now =
    let r = process_all-IsFit frames (new_reassembler now) (omega arith, tt) in (r.0, r.1.0)
