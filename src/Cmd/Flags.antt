-- ===== src/Cmd/Flags.antt =====
-- The two commands of cmd/vault/main.go behind the parsing of their flags: the idle time, which is
-- counted in minutes and computed in 64 bits, and the vault that is opened, served, and sealed.
use joyvend_secretvault.Shared.{
  ℕ, ◌+◌, ◌-◌, ◌*◌, ◌%◌, ◌≤◌, ◌<◌, ◌≡◌, ◌≢◌, ◌↔◌, refl, Bool, Option, List, [], ◌∷◌, ◌++◌, All,
  arith, ltb, leb, if◌then◌else◌, ℤ, pos, negsuc, pos_part, Result, ok, ◌>>=◌, guard, Bool-cases,
  inl, inr, ◌>>◌,
}
use joyvend_secretvault.Text.{Bytes}
use joyvend_secretvault.Secret.{Randoms}
use joyvend_secretvault.IdleLock.{InOrder}
use joyvend_secretvault.Store.{Library, Store, Io}
use joyvend_secretvault.Gui.{App, new_app}
use joyvend_secretvault.Gui.Running.{Event, run_app}
use joyvend_secretvault.Cmd.{ServeError, no_directory, open_or_create}
use joyvend_secretvault.Cmd.Serving.{Serving, Arrival, ticked, start_serving, serve_all}
use joyvend_secretvault.Cmd.Idling.{Call, arrivals, call_times, IsSealed, serve_all-IsSealed}

-- 2 ^ 64 and its half, and time.Minute in nanoseconds
abbrev word : ℕ
word = 0x10000000000000000

abbrev half : ℕ
half = 0x8000000000000000

abbrev pub minute : ℕ
minute = 60000000000

-- The bits of an int64, and the int64 of 64 bits.
abbrev to_bits : ℤ → ℕ
to_bits (pos n) = n % word
to_bits (negsuc n) = word - 1 - n % word

abbrev of_bits : ℕ → ℤ
of_bits x = if ltb x half then pos x else negsuc (word - 1 - x)

-- time.Duration(*idleMin) * time.Minute
unfoldable pub idle_window : ℤ → ℤ
idle_window minutes = of_bits ((to_bits minutes * minute) % word)

pos_part-idle_window :
    (n : ℕ)
    → n ≤ 307445734
    → pos_part (idle_window (pos n)) ≡ (if leb n 153722867 then n * minute else 0)
unfolding idle_window
pos_part-idle_window n h = ground arith

window-All :
    (now n w : ℕ) (times : List ℕ)
    → w ≡ (if leb n 153722867 then n * minute else 0)
    → ((w ≢ 0) × All (λ t. t + w ≤ now) times)
      ↔ ((0 < n) × (n ≤ 153722867) × All (λ t. t + n * minute ≤ now) times)
window-All now n w times e = elim (Bool-cases (leb n 153722867)) [
  | inl t ↦
      let same : w ≡ n * minute = ground arith in
      rw same
        ((λ (on, old). (ground arith, ground arith, old)), (λ (on, few, old). (ground arith, old)))
  | inr f ↦ ((λ (on, old). absurd (ground arith)), (λ (on, few, old). absurd (ground arith)))
]

-- runGUI, with what making the directory reports, the bytes of the launch token, and what the path
-- holds.
unfoldable pub run_gui_app : ℤ → Bool → Bytes → Option Bytes → List Event → Result ServeError App
unfolding idle_window new_app
run_gui_app idle_minutes mkdir_ok drawn disk events = do
  guard mkdir_ok no_directory
  ok (run_app events (new_app drawn (idle_window idle_minutes) disk))

-- What `runServe` meets: the file system, the random bytes, and the time of its start.
pub record Start : Type 0 where
  pub io : Io
  pub salt : Option Bytes
  pub randoms : Randoms
  pub mkdir_ok : Bool
  pub disk : Option Bytes
  pub password : Bytes
  pub use_random : Bytes
  pub control_random : Bytes
  pub now : ℕ

module _ (lib : Library) where
  abbrev pub opened_store : Start → Result ServeError Store
  opened_store w = open_or_create lib w.io w.salt w.randoms w.mkdir_ok w.disk w.password

  unfoldable pub start_serve : ℤ → Bool → Start → Result ServeError Serving
  unfolding idle_window
  start_serve idle_minutes lan w = do
    let idle = idle_window idle_minutes
    st ← opened_store w
    ok (start_serving w.use_random w.control_random idle lan w.now st)

  -- runServe
  unfoldable pub run_serve_command : ℤ → Bool → Start → List Arrival → Result ServeError Serving
  unfolding start_serve
  run_serve_command idle_minutes lan w events = do
    s ← start_serve idle_minutes lan w
    ok (serve_all lib events s)

  -- The headless command with an idle time of n minutes, once its vault is open: the first tick behind
  -- a sequence of requests seals the vault exactly if n is positive and at most 153722867, and the start
  -- and every request lie n minutes back or more, whoever sent the request and whatever it was answered;
  -- where the clock does not run backwards. So the agent's traffic keeps the vault open; and from
  -- 153722868 minutes on, up to 307445734, the product is negative, and the vault is never sealed.
  pub run_serve_command-IsSealed :
      (n : ℕ) (lan : Bool) (w : Start) (st : Store) (calls : List Call) (now : ℕ) (io : Io)
      → n ≤ 307445734
      → opened_store w ≡ ok st
      → InOrder w.now (call_times calls) now
      → (end : Serving) × (run_serve_command (pos n) lan w (arrivals calls ++ ticked now io ∷ [])
          ≡ ok end)
        × (IsSealed end ↔ (
            (0 < n) × (n ≤ 153722867) × All (λ t. t + n * minute ≤ now) (w.now ∷ call_times calls)))
  unfolding run_serve_command start_serve
  run_serve_command-IsSealed n lan w st calls now io small opened order =
      let idle = idle_window (pos n) in
      let begun = start_serving w.use_random w.control_random idle lan w.now st in
      let (to, from) =
        serve_all-IsSealed lib now io w.use_random w.control_random idle lan w.now st calls order in
      let (timed, exact) =
        window-All now n (pos_part idle) (w.now ∷ call_times calls)
          (pos_part-idle_window n small) in
      (
        serve_all lib (arrivals calls ++ ticked now io ∷ []) begun,
        rw (opened, run_serve_command, start_serve) refl,
        ((λ h. timed (to h)), (λ h. from (exact h))),
      )
