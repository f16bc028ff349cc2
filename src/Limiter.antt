-- ===== src/Limiter.antt =====
-- ostp-server/src/transport/limiter.rs: how many connections an address may open. An address is of any
-- type with an equality; times are nanoseconds.
pub mod Refinement
pub mod Budget
use ostp.Prelude.{
  ℕ, ◌+◌, ◌-◌, ◌%◌, ◌^◌, Bool, true, Option, none, some, List, [], ◌∷◌, ltb, leb, if◌then◌else◌,
  retain,
}
use ostp.Dict.{Key, Dict, lookup, insert}

abbrev pub window : ℕ
window = 10_000_000_000

abbrev pub max_conns : ℕ
max_conns = 60

abbrev pub prune_every : ℕ
prune_every = 60_000_000_000

-- `Inner`: for an address the attempts of its window, and when that began.
pub record ConnLimiter (A : Type 0) : Type 0 where
  pub windows : Dict A (ℕ × ℕ)
  pub last_prune : ℕ

abbrev pub new_limiter : {A : Type 0} → ℕ → ConnLimiter A
new_limiter now = record { windows = []; last_prune = now }

abbrev pub entry_of : ℕ → Option (ℕ × ℕ) → ℕ × ℕ
entry_of now none = (0, now)
entry_of now (some entry) = entry

-- One more attempt: whether it may pass, and the window that is left.
unfoldable pub count : ℕ → ℕ × ℕ → Bool × (ℕ × ℕ)
count now (n, start) =
    let next : ℕ = (n + 1) % 2 ^ 32 in
    if leb window (now - start) then (true, (1, now)) else (leb next max_conns, (next, start))

module _ {A : Type 0} ⦃k : Key A⦄ where
  -- The sweep of stale windows.
  unfoldable pub prune : ℕ → ConnLimiter A → ConnLimiter A
  prune now l =
      if leb prune_every (now - l.last_prune)
      then record { windows = retain (λ x. ltb (now - x.1.1) window) l.windows; last_prune = now }
      else l

  unfoldable pub check_at : A → ℕ → ConnLimiter A → Bool × ConnLimiter A
  unfolding prune count
  check_at ip now l =
      let pruned = prune now l in
      let counted = count now (entry_of now (lookup ip pruned.windows)) in
      (counted.0, record pruned { windows = insert ip counted.1 pruned.windows })

  -- The answers to a sequence of attempts.
  unfoldable pub check_all : List (A × ℕ) → ConnLimiter A → List Bool
  unfolding check_at
  check_all [] l = []
  check_all ((ip, now) ∷ rest) l = let r = check_at ip now l in r.0 ∷ check_all rest r.1
