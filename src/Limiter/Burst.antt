-- ===== src/Limiter/Burst.antt =====
-- How many requests the limiter lets through at once.
use joyvend_secretvault.Shared.{
  ℕ, zero, suc, ◌-◌, ◌≤◌, ◌<◌, ◌≡◌, refl, ◌∙◌, Bool, true, false, ◌&&◌, Bool-cases, inl, inr, none,
  some, List, [], ◌∷◌, arith, ◌==◌, ltb, min, ℤ, pos, pos_part,
}
use joyvend_secretvault.Text.{Bytes, bytes_eq, bytes_eq_refl, bytes_eq_sound}
use joyvend_secretvault.Maps.{lookup, lookup-insert}
use joyvend_secretvault.Limiter.{
  Floats, Bucket, Limiter, bucket_or_full, per_second, refill, take_token, allow_positive, allow,
}

-- A float64 is exact on the whole numbers up to this one, and no time brings no tokens. (IEEE 754: on
-- those up to 2 ^ 53.)
pub record CountsExactly (f : Floats) (r : ℕ) : Type 0 where
  pub no_refill :
      (k : ℕ) → k ≤ r → f.add (f.of_int k) (f.mul (f.seconds 0) (per_second f r)) ≡ f.of_int k
  pub less_exact : (j k : ℕ) → j ≤ r → k ≤ r → f.less (f.of_int j) (f.of_int k) ≡ ltb j k
  pub one_less : (k : ℕ) → k < r → f.sub (f.of_int (suc k)) (f.of_int 1) ≡ f.of_int k

abbrev pub count_if : Bool → ℕ → ℕ
count_if true n = suc n
count_if false n = n

abbrev pub calls_for : Bytes → List Bytes → ℕ
calls_for name [] = 0
calls_for name (n ∷ names) = count_if (bytes_eq n name) (calls_for name names)

-- How many of the calls for `name` were allowed, of calls for these names at one time, and the limiter
-- after all of them.
unfoldable pub run_limiter : Floats → (Bytes → ℤ) → Bytes → ℕ → List Bytes → Limiter → Limiter × ℕ
run_limiter f rate name now [] l = (l, 0)
run_limiter f rate name now (n ∷ names) l =
    let (l', allowed) = allow f n (rate n) now l in
    let (l'', count) = run_limiter f rate name now names l' in
    (l'', count_if (bytes_eq n name && allowed) count)

-- This many tokens, refilled at this time.
abbrev holding : Floats → ℕ → ℕ → Bucket
holding f k now = record { tokens = f.of_int k; last = now }

module _ (f : Floats) (r now : ℕ) (positive : 0 < r) (exact : CountsExactly f r) where
  refill_now : (k : ℕ) → k ≤ r → refill f r now (holding f k now) ≡ holding f k now
  unfolding refill
  refill_now k h =
      let no_time : now - now ≡ 0 = omega arith in
      let below : ltb r k ≡ false = ground arith in
      rw (no_time, exact.no_refill k h, exact.less_exact r k (omega arith) h, below) refl

  take_token_empty : take_token f (holding f 0 now) ≡ (holding f 0 now, false)
  unfolding take_token
  take_token_empty = rw (exact.less_exact 0 1 (omega arith) (omega arith)) refl

  take_token_some : (k : ℕ) → k < r → take_token f (holding f (suc k) now) ≡ (holding f k now, true)
  unfolding take_token
  take_token_some k h =
      let enough : ltb (suc k) 1 ≡ false = ground arith in
      rw (exact.less_exact (suc k) 1 (omega arith) (omega arith), enough, exact.one_less k h) refl

  -- A call on a bucket that holds `k` tokens now.
  allow_held :
      (name : Bytes) (rate : ℤ) (k : ℕ) (l : Limiter) (b : Bucket) (allowed : Bool)
      → rate ≡ pos r
      → k ≤ r
      → bucket_or_full f r now (lookup name l) ≡ holding f k now
      → take_token f (holding f k now) ≡ (b, allowed)
      → (lookup name (allow f name rate now l).0 ≡ some b) × ((allow f name rate now l).1 ≡ allowed)
  unfolding allow allow_positive
  allow_held name rate k l b allowed is_rate h held taken =
      let limited : (r == 0) ≡ false = ground arith in
      rw is_rate (
        rw limited (
          rw held (
            rw (refill_now k h)
              (rw taken (lookup-insert name name b l ∙ rw (bytes_eq_refl name) refl, refl)))))

  allow_other :
      (n name : Bytes) (rate : ℤ) (l : Limiter)
      → bytes_eq n name ≡ false
      → lookup name (allow f n rate now l).0 ≡ lookup name l
  unfolding allow allow_positive
  allow_other n name rate l e = elim (Bool-cases (pos_part rate == 0)) [
    | inl t ↦ rw t refl
    | inr u ↦ rw u (lookup-insert n name _ l ∙ rw e refl)
  ]

  -- One call for the credential, if the count of the later ones is known.
  own_call :
      (rate : Bytes → ℤ) (name : Bytes) (names : List Bytes) (k : ℕ) (l : Limiter)
      → rate name ≡ pos r
      → k ≤ r
      → bucket_or_full f r now (lookup name l) ≡ holding f k now
      → ((j : ℕ) (m : Limiter)
          → j ≤ r
          → bucket_or_full f r now (lookup name m) ≡ holding f j now
          → (run_limiter f rate name now names m).1 ≡ min (calls_for name names) j)
      → count_if
          (allow f name (rate name) now l).1
          (run_limiter f rate name now names (allow f name (rate name) now l).0).1
        ≡ min (suc (calls_for name names)) k
  unfolding bucket_or_full
  own_call rate name names zero l is_rate h held later =
      let (left, refused) =
        allow_held name (rate name) 0 l (holding f 0 now) false is_rate h held take_token_empty in
      let rest = later 0 (allow f name (rate name) now l).0 h (rw left refl) in
      rw (refused, rest) (omega arith)
  own_call rate name names (suc k) l is_rate h held later =
      let (left, passed) =
        allow_held name (rate name) (suc k) l (holding f k now) true is_rate (omega arith) held
          (take_token_some k (omega arith)) in
      let rest = later k (allow f name (rate name) now l).0 (omega arith) (rw left refl) in
      rw (passed, rest) (omega arith)

  run_limiter_held :
      (rate : Bytes → ℤ) (name : Bytes) (names : List Bytes) (k : ℕ) (l : Limiter)
      → rate name ≡ pos r
      → k ≤ r
      → bucket_or_full f r now (lookup name l) ≡ holding f k now
      → (run_limiter f rate name now names l).1 ≡ min (calls_for name names) k
  unfolding run_limiter
  run_limiter_held rate name [] k l is_rate h held = omega arith
  run_limiter_held rate name (n ∷ names) k l is_rate h held = elim (Bool-cases (bytes_eq n name)) [
    | inr other ↦ rw other (
        run_limiter_held rate name names k (allow f n (rate n) now l).0 is_rate h
          (rw (allow_other n name (rate n) l other) held))
    | inl same ↦ rw (bytes_eq_sound n name same) (
        rw (bytes_eq_refl name) (
          own_call rate name names k l is_rate h held
            (λ j m hj hm. run_limiter_held rate name names j m is_rate hj hm)))
  ]

-- Of calls at one time, for any credentials in any order, on a limiter that does not know this
-- credential: exactly the first `r` of those for it are allowed, if it has the rate `r`, which is
-- positive and such that float64 is exact on the numbers up to it.
pub run_limiter-calls_for :
    (f : Floats) (r now : ℕ) (rate : Bytes → ℤ) (name : Bytes) (names : List Bytes) (l : Limiter)
    → 0 < r
    → CountsExactly f r
    → rate name ≡ pos r
    → lookup name l ≡ none
    → (run_limiter f rate name now names l).1 ≡ min (calls_for name names) r
unfolding bucket_or_full
run_limiter-calls_for f r now rate name names l positive exact is_rate unknown =
    run_limiter_held f r now positive exact rate name names r l is_rate (omega arith)
      (rw unknown refl)
