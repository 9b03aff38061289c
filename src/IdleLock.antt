-- ===== src/IdleLock.antt =====
-- internal/vault/idlelock.go: the last activity, and whether the idle window has passed since.
use joyvend_secretvault.Shared.{
  ℕ, ◌+◌, ◌-◌, ◌≤◌, ◌≡◌, ◌≢◌, ◌↔◌, Bool, true, false, List, [], ◌∷◌, arith, leb, ◌==◌,
  if◌then◌else◌, ℤ, pos_part, All,
}

pub record IdleLock : Type 0 where
  pub last : ℕ
  pub timeout : ℤ

-- NewIdleLock at time `now`
unfoldable pub new_idle_lock : ℤ → ℕ → IdleLock
new_idle_lock timeout now = record { last = now; timeout = timeout }

unfoldable pub touch : ℕ → IdleLock → IdleLock
touch now l = record l { last = now }

unfoldable pub expired : ℕ → IdleLock → Bool
expired now l = if pos_part l.timeout == 0 then false else leb (pos_part l.timeout) (now - l.last)

-- Activity at each of these times.
unfoldable pub touch_all : List ℕ → IdleLock → IdleLock
unfolding touch
touch_all [] l = l
touch_all (t ∷ times) l = touch_all times (touch t l)

-- Times that do not run backwards, from a start to an end.
abbrev pub InOrder : ℕ → List ℕ → ℕ → Type 0
InOrder start [] end = start ≤ end
InOrder start (t ∷ times) end = (start ≤ t) × InOrder t times end

-- A lock with a positive timeout has expired exactly if its creation and every activity since are at
-- least the timeout ago, where the clock does not run backwards. One without never expires.
pub expired-touch_all :
    (timeout : ℤ) (start now : ℕ) (times : List ℕ)
    → InOrder start times now
    → (expired now (touch_all times (new_idle_lock timeout start)) ≡ true)
      ↔ ((pos_part timeout ≢ 0) × All (λ t. t + pos_part timeout ≤ now) (start ∷ times))
unfolding expired touch_all new_idle_lock
expired-touch_all timeout start now [] order =
    ((λ e. (ground arith, (ground arith, tt))), (λ (some_time, (old, _)). ground arith))
expired-touch_all timeout start now (t ∷ times) (later, order) =
    let (to, from) = expired-touch_all timeout t now times order in
    (
      (λ e. let (some_time, old) = to e in (some_time, (omega (arith, old.0), old))),
      (λ (some_time, (_, old)). from (some_time, old)),
    )
