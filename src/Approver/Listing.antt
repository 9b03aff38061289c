-- ===== src/Approver/Listing.antt =====
-- Which calls of `Confirm` the map of pending requests holds.
use joyvend_secretvault.Shared.{
  ℕ, ◌≡◌, ◌↔◌, refl, ◌∙◌, ap, Bool, Option, none, some, List, [], ◌∷◌, arith, if◌then◌else◌,
  Option-cases, Bool-cases, inl, inr,
}
use joyvend_secretvault.Text.{Bytes, bytes_eq, bytes_eq_iff}
use joyvend_secretvault.Maps.{lookup, insert, erase, lookup-insert, lookup-erase}
use joyvend_secretvault.Fetch.{ConfirmRequest}
use joyvend_secretvault.Approver.{
  Phase, waiting, chosen, returned, PendingReq, PendingApprover, no_requests, confirm_enter, Wake,
  decision, timer, context_done, wake, confirm_select, confirm_return, leave, send,
}
use joyvend_secretvault.Approver.Steps.{
  Step, enter, select, finish, deliver, target, after, run_step, run_steps, lookup-run_step,
}

-- The ID of a call that has not returned.
abbrev pub live_phase : Phase → Bytes → Option Bytes
live_phase (returned a) id = none
live_phase phase id = some id

abbrev pub live_id : Option PendingReq → Option Bytes
live_id none = none
live_id (some pr) = live_phase pr.phase pr.id

-- The map holds the pointers of exactly the calls that have not returned, each under its ID.
abbrev pub IsListed : PendingApprover → Type 0
IsListed s =
    (id ptr : Bytes) → (lookup id s.pending ≡ some ptr) ↔ (live_id (lookup ptr s.heap) ≡ some id)

abbrev set_at : Bytes → Option Bytes → (Bytes → Option Bytes) → Bytes → Option Bytes
set_at k v f j = if bytes_eq k j then v else f j

abbrev Inverse : (Bytes → Option Bytes) → (Bytes → Option Bytes) → Type 0
Inverse p l = (id ptr : Bytes) → (p id ≡ some ptr) ↔ (l ptr ≡ some id)

module _ (p l : Bytes → Option Bytes) (inverse : Inverse p l) (id ptr : Bytes) where
  set_at-Inverse :
      p id ≡ none → l ptr ≡ none → Inverse (set_at id (some ptr) p) (set_at ptr (some id) l)
  set_at-Inverse no_ptr no_id i q =
      let (to, from) = inverse i q in
      (
        (λ h. ground (arith, to, no_id, bytes_eq_iff id i, bytes_eq_iff ptr q)),
        (λ h. ground (arith, from, no_ptr, bytes_eq_iff id i, bytes_eq_iff ptr q)),
      )

  cleared-Inverse : l ptr ≡ some id → Inverse (set_at id none p) (set_at ptr none l)
  cleared-Inverse there i q =
      let (to, from) = inverse i q in
      let own = (inverse id ptr).1 there in
      (
        (λ h. ground (arith, to, there, bytes_eq_iff id i, bytes_eq_iff ptr q)),
        (λ h. ground (arith, from, own, bytes_eq_iff id i, bytes_eq_iff ptr q)),
      )

same-Inverse :
    (p l p' l' : Bytes → Option Bytes)
    → Inverse p l
    → ((id : Bytes) → p' id ≡ p id)
    → ((ptr : Bytes) → l' ptr ≡ l ptr)
    → Inverse p' l'
same-Inverse p l p' l' inverse ps ls id ptr = rw (ps id, ls ptr) (inverse id ptr)

live_id-wake :
    (w : Wake) (phase : Phase) (c : Option Bool) (id : Bytes)
    → live_phase (wake w phase c).0 id ≡ live_phase phase id
unfolding wake
live_id-wake decision waiting none id = refl
live_id-wake decision waiting (some b) id = refl
live_id-wake timer waiting c id = refl
live_id-wake context_done waiting c id = refl
live_id-wake decision (chosen a) c id = refl
live_id-wake timer (chosen a) c id = refl
live_id-wake context_done (chosen a) c id = refl
live_id-wake decision (returned a) c id = refl
live_id-wake timer (returned a) c id = refl
live_id-wake context_done (returned a) c id = refl

abbrev pending_of : PendingApprover → Bytes → Option Bytes
pending_of s id = lookup id s.pending

abbrev live_of : PendingApprover → Bytes → Option Bytes
live_of s ptr = live_id (lookup ptr s.heap)

live_of-run_step :
    (x : Step) (s : PendingApprover) (ptr : Bytes)
    → live_of (run_step x s) ptr
      ≡ (if bytes_eq (target x) ptr then live_id (after x (lookup ptr s.heap)) else live_of s ptr)
live_of-run_step x s ptr = ground (arith, lookup-run_step x s ptr)

-- A step that leaves the ID of its request live, if it was, and the map as it was.
kept-IsListed :
    (x : Step) (s : PendingApprover)
    → IsListed s
    → (run_step x s).pending ≡ s.pending
    → ((o : Option PendingReq) → live_id (after x o) ≡ live_id o)
    → IsListed (run_step x s)
kept-IsListed x s h same live =
    same-Inverse (pending_of s) (live_of s) (pending_of (run_step x s)) (live_of (run_step x s)) h
      (λ id. ap (λ m. lookup id m) same)
      (λ ptr. ground (arith, live_of-run_step x s ptr, live (lookup ptr s.heap)))

-- A call enters only with an ID that is not pending: `randID` draws 12 random bytes.
abbrev pub HasFreshId : Step → PendingApprover → Type 0
HasFreshId (enter ptr id now r) s = lookup id s.pending ≡ none
HasFreshId _ s = Unit

enter_used :
    (ptr id : Bytes) (now : ℕ) (r : ConfirmRequest) (s : PendingApprover) (pr : PendingReq)
    → lookup ptr s.heap ≡ some pr
    → run_step (enter ptr id now r) s ≡ s
unfolding run_step confirm_enter
enter_used ptr id now r s pr e = rw (e, run_step, confirm_enter) refl

pending_of-enter :
    (ptr id : Bytes) (now : ℕ) (r : ConfirmRequest) (s : PendingApprover) (j : Bytes)
    → lookup ptr s.heap ≡ none
    → pending_of (run_step (enter ptr id now r) s) j ≡ set_at id (some ptr) (pending_of s) j
unfolding run_step confirm_enter
pending_of-enter ptr id now r s j e = ground (arith, lookup-insert id j ptr s.pending)

live_of-enter :
    (ptr id : Bytes) (now : ℕ) (r : ConfirmRequest) (s : PendingApprover) (q : Bytes)
    → lookup ptr s.heap ≡ none
    → live_of (run_step (enter ptr id now r) s) q ≡ set_at ptr (some id) (live_of s) q
live_of-enter ptr id now r s q e = elim (Bool-cases (bytes_eq ptr q)) [
  | inl t ↦
      let same : ptr ≡ q = (bytes_eq_iff ptr q).0 t in
      let empty : lookup q s.heap ≡ none = rw (← same) e in
      live_of-run_step (enter ptr id now r) s q ∙ rw (t, empty) refl
  | inr f ↦ live_of-run_step (enter ptr id now r) s q ∙ rw f refl
]

enter-IsListed :
    (ptr id : Bytes) (now : ℕ) (r : ConfirmRequest) (s : PendingApprover)
    → IsListed s
    → lookup id s.pending ≡ none
    → IsListed (run_step (enter ptr id now r) s)
enter-IsListed ptr id now r s h fresh = elim (Option-cases (lookup ptr s.heap)) [
  | inr (pr, e) ↦ rw (enter_used ptr id now r s pr e) h
  | inl e ↦
      let t = run_step (enter ptr id now r) s in
      same-Inverse (set_at id (some ptr) (pending_of s)) (set_at ptr (some id) (live_of s))
        (pending_of t) (live_of t)
        (set_at-Inverse (pending_of s) (live_of s) h id ptr fresh (ap live_id e))
        (λ j. pending_of-enter ptr id now r s j e) (λ q. live_of-enter ptr id now r s q e)
]

finish_none :
    (ptr : Bytes) (s : PendingApprover) → lookup ptr s.heap ≡ none → run_step (finish ptr) s ≡ s
unfolding run_step confirm_return
finish_none ptr s e = rw (e, run_step, confirm_return) refl

finish_some :
    (ptr : Bytes) (s : PendingApprover) (pr : PendingReq)
    → lookup ptr s.heap ≡ some pr
    → run_step (finish ptr) s ≡ leave ptr pr pr.phase s
unfolding run_step confirm_return
finish_some ptr s pr e = rw (e, run_step, confirm_return) refl

leave-IsListed :
    (ptr : Bytes) (s : PendingApprover) (pr : PendingReq) (phase : Phase)
    → IsListed s
    → lookup ptr s.heap ≡ some pr
    → pr.phase ≡ phase
    → IsListed (leave ptr pr phase s)
unfolding leave
leave-IsListed ptr s pr waiting h e at_phase = h
leave-IsListed ptr s pr (returned a) h e at_phase = h
leave-IsListed ptr s pr (chosen a) h e at_phase =
    let t : PendingApprover = record {
      pending = erase pr.id s.pending;
      heap = insert ptr (record pr { phase = returned a }) s.heap;
    } in
    let live : live_of s ptr ≡ some pr.id = rw e (rw at_phase refl) in
    same-Inverse (set_at pr.id none (pending_of s)) (set_at ptr none (live_of s)) (pending_of t)
      (live_of t) (cleared-Inverse (pending_of s) (live_of s) h pr.id ptr live)
      (λ j. lookup-erase pr.id j s.pending)
      (λ q. ground (arith, lookup-insert ptr q (record pr { phase = returned a }) s.heap))

finish-IsListed :
    (ptr : Bytes) (s : PendingApprover) → IsListed s → IsListed (run_step (finish ptr) s)
finish-IsListed ptr s h = elim (Option-cases (lookup ptr s.heap)) [
  | inl e ↦ rw (finish_none ptr s e) h
  | inr (pr, e) ↦ rw (finish_some ptr s pr e) (leave-IsListed ptr s pr pr.phase h e refl)
]

pub pending-select :
    (w : Wake) (ptr : Bytes) (s : PendingApprover) → (run_step (select w ptr) s).pending ≡ s.pending
unfolding run_step confirm_select
pending-select w ptr s = ground arith

pub pending-deliver :
    (ptr : Bytes) (b : Bool) (s : PendingApprover)
    → (run_step (deliver ptr b) s).pending ≡ s.pending
unfolding run_step send
pending-deliver ptr b s = ground arith

run_step-IsListed :
    (x : Step) (s : PendingApprover) → IsListed s → HasFreshId x s → IsListed (run_step x s)
run_step-IsListed (enter ptr id now r) s h fresh = enter-IsListed ptr id now r s h fresh
run_step-IsListed (finish ptr) s h fresh = finish-IsListed ptr s h
run_step-IsListed (select w ptr) s h fresh =
    kept-IsListed (select w ptr) s h (pending-select w ptr s) (λ o. live o)
  where
    live : (o : Option PendingReq) → live_id (after (select w ptr) o) ≡ live_id o
    live none = refl
    live (some pr) = live_id-wake w pr.phase pr.channel pr.id
run_step-IsListed (deliver ptr b) s h fresh =
    kept-IsListed (deliver ptr b) s h (pending-deliver ptr b s) (λ o. live o)
  where
    live : (o : Option PendingReq) → live_id (after (deliver ptr b) o) ≡ live_id o
    live none = refl
    live (some pr) = refl

abbrev pub HaveFreshIds : List Step → PendingApprover → Type 0
HaveFreshIds [] s = Unit
HaveFreshIds (x ∷ steps) s = HasFreshId x s × HaveFreshIds steps (run_step x s)

run_steps-IsListed_from :
    (steps : List Step) (s : PendingApprover)
    → IsListed s
    → HaveFreshIds steps s
    → IsListed (run_steps steps s)
unfolding run_steps
run_steps-IsListed_from [] s h fresh = h
run_steps-IsListed_from (x ∷ steps) s h (new, fresh) =
    run_steps-IsListed_from steps (run_step x s) (run_step-IsListed x s h new) fresh

-- In every order of the steps of all goroutines, from an approver without requests: the map of
-- pending requests holds exactly the calls of `Confirm` that have not returned, each under its ID; if
-- no call enters with an ID that is pending. So each call that waits can be decided, and none that has
-- returned is listed.
pub run_steps-IsListed :
    (steps : List Step) → HaveFreshIds steps no_requests → IsListed (run_steps steps no_requests)
unfolding lookup
run_steps-IsListed steps fresh =
    run_steps-IsListed_from steps no_requests (λ id ptr. (λ e. cc, λ e. cc)) fresh
