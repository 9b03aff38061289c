-- ===== src/Cmd/Idling.antt =====
-- When the idle lock ends the headless server of cmd/vault/main.go.
use joyvend_secretvault.Shared.{
  ℕ, ◌+◌, ◌≤◌, ◌≡◌, ◌≢◌, ◌↔◌, Bool, true, false, none, List, [], ◌∷◌, ◌++◌, All, Bool-cases, inl,
  inr, ℤ, pos_part,
}
use joyvend_secretvault.Text.{Bytes}
use joyvend_secretvault.IdleLock.{
  IdleLock, new_idle_lock, touch, expired, touch_all, InOrder, expired-touch_all,
}
use joyvend_secretvault.Store.{Library, Store, Io}
use joyvend_secretvault.Store.Closing.{close_key}
use joyvend_secretvault.Http.{Request}
use joyvend_secretvault.Server.{Server, Env, store_of, new_server}
use joyvend_secretvault.Server.Planes.{serve}
use joyvend_secretvault.Cmd.Serving.{
  Serving, serving, stopped, Arrival, incoming, ticked, serve_options, start_serving, shutdown,
  on_arrival, touched_serve, serve_all,
}

abbrev pub Call : Type 0
Call = Env × Request

abbrev pub arrivals : List Call → List Arrival
arrivals [] = []
arrivals ((env, r) ∷ calls) = incoming env r ∷ arrivals calls

abbrev pub call_times : List Call → List ℕ
call_times [] = []
call_times ((env, r) ∷ calls) = env.now ∷ call_times calls

-- The loop has ended, and the key is gone.
abbrev pub IsSealed : Serving → Type 0
IsSealed (serving s l) = true ≡ false
IsSealed (stopped st e) = st.key ≡ none

module _ (lib : Library) (now : ℕ) (io : Io) where
  tick-IsSealed :
      (s : Server) (l : IdleLock)
      → IsSealed (on_arrival lib (ticked now io) (serving s l)) ↔ (expired now l ≡ true)
  unfolding on_arrival shutdown
  tick-IsSealed s l = elim (Bool-cases (expired now l)) [
    | inl t ↦ ((λ h. t), (λ h. rw t (close_key lib io (store_of s))))
    | inr f ↦ ((λ h. absurd (cc (rw f at h))), (λ h. absurd (cc (h, f))))
  ]

  tick_behind :
      (calls : List Call) (s : Server) (l : IdleLock)
      → IsSealed (serve_all lib (arrivals calls ++ ticked now io ∷ []) (serving s l))
        ↔ (expired now (touch_all (call_times calls) l) ≡ true)
  unfolding serve_all on_arrival touched_serve touch_all
  tick_behind [] s l = tick-IsSealed s l
  tick_behind ((env, r) ∷ calls) s l = tick_behind calls (serve env r s).0 (touch env.now l)

  -- The first tick behind a sequence of requests seals the vault of the headless server exactly if
  -- there is an idle time, and the start and every request lie at least that long ago, whoever sent
  -- the request and whatever it was answered; where the clock does not run backwards. So the agent's
  -- traffic keeps the vault open.
  pub serve_all-IsSealed :
      (use_random control_random : Bytes) (idle : ℤ) (lan : Bool) (start : ℕ) (st : Store)
      (calls : List Call)
      → InOrder start (call_times calls) now
      → IsSealed (
          serve_all lib
            (arrivals calls ++ ticked now io ∷ [])
            (start_serving use_random control_random idle lan start st))
        ↔ ((pos_part idle ≢ 0) × All (λ t. t + pos_part idle ≤ now) (start ∷ call_times calls))
  unfolding start_serving
  serve_all-IsSealed use_random control_random idle lan start st calls order =
      let (to, from) =
        tick_behind calls (new_server use_random control_random st (serve_options lan))
          (new_idle_lock idle start) in
      let (old, young) = expired-touch_all idle start now (call_times calls) order in
      ((λ h. old (to h)), (λ h. from (young h)))
