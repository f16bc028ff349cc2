-- ===== src/History/Rising.antt =====
-- The nonces in `sent_history` of ostp-core/src/protocol.rs: they rise, and every operation on the history
-- leaves them so.
use ostp.Prelude.{
  ℕ, zero, suc, ◌+◌, ◌-◌, ◌≤◌, ◌≡◌, Bool, true, false, ◌==◌, Option, none, some, List, [], ◌∷◌,
  ◌++◌, drop, retain, Bool-cases, inl, inr, arith, if◌then◌else◌, subst, refl,
}
use ostp.History.{
  SentFrame, push_capped, resend, or_this, lookup_sent_frame, mark_due, retain_unacked,
  evict_zombies, retransmit, is_due,
}

-- Rising nonces from `lo` on, all below `hi`.
abbrev pub Rising : ℕ → ℕ → List SentFrame → Type 0
Rising lo hi [] = lo ≤ hi
Rising lo hi (f ∷ fs) = (lo ≤ f.nonce) × Rising (f.nonce + 1) hi fs

pub Rising-lower :
    (lo lo' hi : ℕ) (fs : List SentFrame) → lo' ≤ lo → Rising lo hi fs → Rising lo' hi fs
Rising-lower lo lo' hi [] le h = omega arith
Rising-lower lo lo' hi (f ∷ fs) le (h, hs) = (omega arith, hs)

pub Rising-raise :
    (lo hi hi' : ℕ) (fs : List SentFrame) → hi ≤ hi' → Rising lo hi fs → Rising lo hi' fs
Rising-raise lo hi hi' [] le h = omega arith
Rising-raise lo hi hi' (f ∷ fs) le (h, hs) = (h, Rising-raise (f.nonce + 1) hi hi' fs le hs)

Rising-append :
    (lo hi : ℕ) (f : SentFrame) (fs : List SentFrame)
    → f.nonce ≡ hi
    → Rising lo hi fs
    → Rising lo (hi + 1) (fs ++ (f ∷ []))
Rising-append lo hi f [] e h = (omega arith, omega arith)
Rising-append lo hi f (g ∷ fs) e (h, hs) = (h, Rising-append (g.nonce + 1) hi f fs e hs)

Rising-drop : (n lo hi : ℕ) (fs : List SentFrame) → Rising lo hi fs → Rising lo hi (drop n fs)
Rising-drop zero lo hi fs h = h
Rising-drop (suc n) lo hi [] h = h
Rising-drop (suc n) lo hi (f ∷ fs) (h, hs) =
    Rising-lower (f.nonce + 1) lo hi (drop n fs) (omega arith)
      (Rising-drop n (f.nonce + 1) hi fs hs)

pub push_capped-Rising :
    (max_sent_history lo hi : ℕ) (f : SentFrame) (fs : List SentFrame)
    → f.nonce ≡ hi
    → Rising lo hi fs
    → Rising lo (hi + 1) (push_capped max_sent_history f fs)
unfolding push_capped
push_capped-Rising max_sent_history lo hi f fs e h =
    Rising-drop _ lo (hi + 1) (fs ++ (f ∷ [])) (Rising-append lo hi f fs e h)

Rising-retain :
    (p : SentFrame → Bool) (lo hi : ℕ) (fs : List SentFrame)
    → Rising lo hi fs
    → Rising lo hi (retain p fs)
unfolding retain
Rising-retain p lo hi [] h = h
Rising-retain p lo hi (f ∷ fs) (h, hs) = elim (Bool-cases (p f)) [
  | inl q ↦ rw (q, retain) (h, Rising-retain p (f.nonce + 1) hi fs hs)
  | inr q ↦
      rw (q, retain)
        (Rising-lower (f.nonce + 1) lo hi (retain p fs) (omega arith)
          (Rising-retain p (f.nonce + 1) hi fs hs))
]

pub retain_unacked-Rising :
    (ranges : List (ℕ × ℕ)) (lo hi : ℕ) (fs : List SentFrame)
    → Rising lo hi fs
    → Rising lo hi (retain_unacked ranges fs)
unfolding retain_unacked
retain_unacked-Rising ranges lo hi fs h = Rising-retain _ lo hi fs h

pub evict_zombies-Rising :
    (grace lo hi : ℕ) (fs : List SentFrame)
    → Rising lo hi fs
    → Rising lo hi (evict_zombies grace fs)
unfolding evict_zombies
evict_zombies-Rising grace lo hi fs h = Rising-retain _ lo hi fs h

pub mark_due-Rising :
    (due lo hi : ℕ) (fs : List SentFrame) → Rising lo hi fs → Rising lo hi (mark_due due fs)
unfolding mark_due
mark_due-Rising due lo hi [] h = h
mark_due-Rising due lo hi (f ∷ fs) (h, hs) = elim (Bool-cases f.is_retransmittable) [
  | inl q ↦ rw q (h, mark_due-Rising due (f.nonce + 1) hi fs hs)
  | inr q ↦ rw q (h, mark_due-Rising due (f.nonce + 1) hi fs hs)
]

pub retransmit-Rising :
    (now base budget lo hi : ℕ) (fs : List SentFrame)
    → Rising lo hi fs
    → Rising lo hi ((retransmit now base budget fs).frames)
unfolding retransmit is_due
retransmit-Rising now base budget lo hi [] h = h
retransmit-Rising now base budget lo hi (f ∷ fs) (h, hs) =
    let same = retransmit-Rising now base budget (f.nonce + 1) hi fs hs in
    let less = retransmit-Rising now base (budget - 1) (f.nonce + 1) hi fs hs in
    elim (Bool-cases f.is_retransmittable) [
      | inr q ↦ rw q (h, same)
      | inl q ↦ elim (Bool-cases (budget == 0)) [
        | inl r ↦ rw (q, r) (h, hs)
        | inr r ↦ elim (Bool-cases (is_due now base f)) [
          | inl d ↦ rw (q, r, d) (h, less)
          | inr d ↦ rw (q, r, d) (h, same)
        ]
      ]
    ]

if_some :
    (b : Bool) (u bytes : List ℕ) (v frames : List SentFrame)
    → (if◌then◌else◌ {A = Option (List ℕ × List SentFrame)} b (some (u, v)) none)
      ≡ some (bytes, frames)
    → v ≡ frames
if_some true u bytes v frames e = cc
if_some false u bytes v frames e = absurd cc

or_this-Rising :
    (now nonce lo hi : ℕ) (f : SentFrame) (fs : List SentFrame)
    (r : Option (List ℕ × List SentFrame)) (bytes : List ℕ) (frames : List SentFrame)
    → ((bytes : List ℕ) (rest : List SentFrame)
        → r ≡ some (bytes, rest)
        → Rising (f.nonce + 1) hi rest)
    → or_this now nonce f fs r ≡ some (bytes, frames)
    → Rising lo hi (f ∷ fs)
    → Rising lo hi frames
or_this-Rising now nonce lo hi f fs (some (b, rest)) bytes frames later e (h, hs) =
    let same : f ∷ rest ≡ frames = cc in subst (Rising lo hi) same (h, later b rest refl)
or_this-Rising now nonce lo hi f fs none bytes frames later e (h, hs) =
    subst (Rising lo hi) (if_some (f.nonce == nonce) f.bytes bytes (resend now f ∷ fs) frames e)
      (h, hs)

pub lookup_sent_frame-Rising :
    (now nonce lo hi : ℕ) (fs : List SentFrame) (bytes : List ℕ) (frames : List SentFrame)
    → lookup_sent_frame now nonce fs ≡ some (bytes, frames)
    → Rising lo hi fs
    → Rising lo hi frames
unfolding lookup_sent_frame
lookup_sent_frame-Rising now nonce lo hi [] bytes frames e h = absurd cc
lookup_sent_frame-Rising now nonce lo hi (f ∷ fs) bytes frames e (h, hs) =
    or_this-Rising now nonce lo hi f fs (lookup_sent_frame now nonce fs) bytes frames
      (λ b rest later. lookup_sent_frame-Rising now nonce (f.nonce + 1) hi fs b rest later hs) e
      (h, hs)
