-- ===== src/Dispatcher/Expiry/Living.antt =====
-- Which sessions the tick of ostp-server/src/dispatcher.rs counts as living, in terms of the session, the
-- clock and the user.
use ostp.Prelude.{
  ℕ, ◌-◌, ◌≤◌, ◌<◌, ◌≡◌, ◌≢◌, ◌↔◌, refl, true, false, not, Option, none, some, add64, arith,
  Bool-cases, inl, inr,
}
use ostp.External.{F64}
use ostp.Machine.{OstpState}
use ostp.Dict.{Key, contains, is_some, if_kept, bytes_key}
use ostp.Users.{Users, stats_of, is_admitted, is_over_limit, reaches}
use ostp.Dispatcher.{PeerState, Clock}
use ostp.Dispatcher.Calls.{is_closed, is_expired}

-- The traffic is below the limit, if there is one.
abbrev pub BelowLimit : ℕ → Option ℕ → Type 0
BelowLimit traffic none = Unit
BelowLimit traffic (some limit) = traffic < limit

-- The session is not closed, it was heard of within ten minutes, its user is registered, and the
-- user's traffic is below the limit.
abbrev pub IsLive : {A F S : Type 0} → Clock → Users → PeerState A F S → Type 0
IsLive now users ps =
    let stats = stats_of now.unix ps.access_key users in
    (ps.machine.state ≢ OstpState.closed)
    × (now.instant - ps.last_seen ≤ 600_000_000_000)
    × (contains ps.access_key users.access_keys ≡ true)
    × BelowLimit (add64 stats.bytes_up stats.bytes_down) stats.limit_bytes

below-reaches : (n : ℕ) (o : Option ℕ) → (reaches n o ≡ false) ↔ BelowLimit n o
below-reaches n none = (λ h. tt, λ h. refl)
below-reaches n (some limit) = (λ h. ground (arith, h), λ h. ground (arith, h))

closed-is_closed : (s : OstpState) → (is_closed s ≡ false) ↔ (s ≢ OstpState.closed)
closed-is_closed OstpState.closed = (λ h. absurd cc, λ h. absurd (h refl))
closed-is_closed OstpState.init = (λ h e. absurd cc, λ h. refl)
closed-is_closed OstpState.handshaking = (λ h e. absurd cc, λ h. refl)
closed-is_closed OstpState.established = (λ h e. absurd cc, λ h. refl)
closed-is_closed OstpState.closing = (λ h e. absurd cc, λ h. refl)

module _ {A F S : Type 0} ⦃k : Key A⦄ ⦃f : F64 F⦄ where
  is_expired-IsLive :
      (now : Clock) (users : Users) (ps : PeerState A F S)
      → (is_expired now users ps ≡ false) ↔ IsLive now users ps
  unfolding is_expired is_admitted is_over_limit
  is_expired-IsLive now users ps =
      let stats = stats_of now.unix ps.access_key users in
      let below = below-reaches (add64 stats.bytes_up stats.bytes_down) stats.limit_bytes in
      let closed = closed-is_closed ps.machine.state in
      (
        λ h. (
          closed.0 (ground (arith, h)),
          ground (arith, h),
          ground (arith, h),
          below.0 (ground (arith, h)),
        ),
        λ h.
            let alive : is_closed ps.machine.state ≡ false = closed.1 h.0 in
            let within = below.1 h.3 in ground (arith, alive, h.1, h.2, within),
      )

  pub kept-IsLive :
      (now : Clock) (users : Users) (o : Option (PeerState A F S))
      → (is_some (if_kept (λ ps. not (is_expired now users ps)) o) ≡ true)
        ↔ ((ps : PeerState A F S) × (o ≡ some ps) × IsLive now users ps)
  kept-IsLive now users none = (λ h. absurd cc, λ h. absurd cc)
  kept-IsLive now users (some ps) =
      let live = is_expired-IsLive now users ps in
      elim (Bool-cases (is_expired now users ps)) [
        | inl q ↦ rw q (λ h. absurd cc, λ h. absurd (gone q h))
        | inr q ↦ rw q (λ h. (ps, refl, live.0 q), λ h. refl)
      ]
    where
      gone :
          is_expired now users ps ≡ true
          → ((ps' : PeerState A F S) × (some ps ≡ some ps') × IsLive now users ps')
          → ⊥
      gone q (ps', e, h) =
          let same : ps ≡ ps' = cc in
          let left = (is_expired-IsLive now users ps').1 h in
          let left' : is_expired now users ps ≡ false = rw same left in absurd cc
