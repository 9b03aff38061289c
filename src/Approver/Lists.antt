-- ===== src/Approver/Lists.antt =====
-- What `list` of internal/server/approver.go shows.
use joyvend_secretvault.Shared.{
  ◌≡◌, ◌↔◌, refl, sym, ap, ◌∙◌, Option, none, some, List, [], ◌∷◌, arith, Option-cases, Bool-cases,
  inl, inr, Any,
}
use joyvend_secretvault.Text.{Bytes, bytes_eq, bytes_eq_iff, bytes_eq_refl}
use joyvend_secretvault.Maps.{Map, lookup, insert, erase, lookup-insert, lookup-erase}
use joyvend_secretvault.Fetch.{ConfirmRequest}
use joyvend_secretvault.Approver.{
  Phase, waiting, chosen, returned, PendingReq, PendingApprover, no_requests, confirm_enter,
  confirm_return, leave, PendingView, view, viewed, list_from, list_pending,
}
use joyvend_secretvault.Approver.Steps.{Step, enter, select, finish, deliver, run_step, run_steps}
use joyvend_secretvault.Approver.Asking.{asked_at, details, details-run_steps}
use joyvend_secretvault.Approver.Listing.{
  live_phase, live_id, IsListed, HaveFreshIds, run_steps-IsListed, pending-select, pending-deliver,
}

-- Each key has one entry.
module _ {V : Type 0} where
  abbrev HasUniqueKeys : Map V → Type 0
  HasUniqueKeys [] = Unit
  HasUniqueKeys ((k, v) ∷ m) = (lookup k m ≡ none) × HasUniqueKeys m

  insert-HasUniqueKeys :
      (k : Bytes) (v : V) (m : Map V) → HasUniqueKeys m → HasUniqueKeys (insert k v m)
  unfolding insert lookup
  insert-HasUniqueKeys k v [] h = (refl, tt)
  insert-HasUniqueKeys k v ((j, w) ∷ m) (new, h) = elim (Bool-cases (bytes_eq j k)) [
    | inl same ↦ let key : j ≡ k = (bytes_eq_iff j k).0 same in rw same (rw key at new, h)
    | inr other ↦ rw other (
      lookup-insert k j v m ∙ ground (arith, bytes_eq_iff j k, bytes_eq_iff k j),
      insert-HasUniqueKeys k v m h,
    )
  ]

  erase-HasUniqueKeys : (k : Bytes) (m : Map V) → HasUniqueKeys m → HasUniqueKeys (erase k m)
  unfolding erase
  erase-HasUniqueKeys k [] h = tt
  erase-HasUniqueKeys k ((j, w) ∷ m) (new, h) = elim (Bool-cases (bytes_eq j k)) [
    | inl same ↦ rw same (erase-HasUniqueKeys k m h)
    | inr other ↦ rw other (lookup-erase k j m ∙ ground (arith, new), erase-HasUniqueKeys k m h)
  ]

  -- What is looked up is an entry, and an entry is what is looked up.
  lookup→Any : (k : Bytes) (v : V) (m : Map V) → lookup k m ≡ some v → Any (λ x. x ≡ (k, v)) m
  unfolding lookup
  lookup→Any k v [] e = cc
  lookup→Any k v ((j, w) ∷ m) e = elim (Bool-cases (bytes_eq j k)) [
    | inl same ↦
        let key : j ≡ k = (bytes_eq_iff j k).0 same in
        let val : w ≡ v = ground arith in inl (rw (key, val) refl)
    | inr other ↦ inr (lookup→Any k v m (rw other at e))
  ]

  Any→lookup :
      (k : Bytes) (v : V) (m : Map V)
      → HasUniqueKeys m
      → Any (λ x. x ≡ (k, v)) m
      → lookup k m ≡ some v
  unfolding lookup
  Any→lookup k v [] h a = absurd a
  Any→lookup k v ((j, w) ∷ m) (new, h) (inl e) =
      rw (ap (λ x. x.0) e, ap (λ x. x.1) e, bytes_eq_refl k) refl
  Any→lookup k v ((j, w) ∷ m) (new, h) (inr a) =
      let there = Any→lookup k v m h a in ground (arith, there, new, bytes_eq_iff j k)

-- An entry of the map from IDs to pointers, and the request behind it.
abbrev Entry : Map PendingReq → Map Bytes → PendingView → Type 0
Entry heap pending v =
    (id : Bytes) × (ptr : Bytes) × (pr : PendingReq) × Any (λ x. x ≡ (id, ptr)) pending
    × (lookup ptr heap ≡ some pr)
    × (view pr ≡ v)

Entry-later :
    (heap : Map PendingReq) (x : Bytes × Bytes) (pending : Map Bytes) (v : PendingView)
    → Entry heap pending v
    → Entry heap (x ∷ pending) v
Entry-later heap x pending v (id, ptr, pr, a, e, same) = (id, ptr, pr, inr a, e, same)

viewed→Entry :
    (heap : Map PendingReq) (id ptr : Bytes) (pending : Map Bytes) (v : PendingView)
    (o : Option PendingReq) (later : List PendingView)
    → lookup ptr heap ≡ o
    → (Any (λ x. x ≡ v) later → Entry heap pending v)
    → Any (λ x. x ≡ v) (viewed o later)
    → Entry heap ((id, ptr) ∷ pending) v
viewed→Entry heap id ptr pending v none later e rest a =
    Entry-later heap (id, ptr) pending v (rest a)
viewed→Entry heap id ptr pending v (some pr) later e rest (inl same) =
    (id, ptr, pr, inl refl, e, same)
viewed→Entry heap id ptr pending v (some pr) later e rest (inr a) =
    Entry-later heap (id, ptr) pending v (rest a)

list_from→Entry :
    (heap : Map PendingReq) (pending : Map Bytes) (v : PendingView)
    → Any (λ x. x ≡ v) (list_from heap pending)
    → Entry heap pending v
unfolding list_from
list_from→Entry heap [] v a = absurd a
list_from→Entry heap ((id, ptr) ∷ pending) v a =
    viewed→Entry heap id ptr pending v (lookup ptr heap) (list_from heap pending) refl
      (list_from→Entry heap pending v) a

Entry→list_from :
    (heap : Map PendingReq) (pending : Map Bytes) (id ptr : Bytes) (pr : PendingReq)
    → Any (λ x. x ≡ (id, ptr)) pending
    → lookup ptr heap ≡ some pr
    → Any (λ x. x ≡ view pr) (list_from heap pending)
unfolding list_from
Entry→list_from heap [] id ptr pr a e = absurd a
Entry→list_from heap ((i, q) ∷ pending) id ptr pr (inl same) e =
    let at : lookup q heap ≡ some pr = rw (ap (λ x. x.1) same) e in rw (at, viewed) (inl refl)
Entry→list_from heap ((i, q) ∷ pending) id ptr pr (inr a) e =
    shown (lookup q heap) (Entry→list_from heap pending id ptr pr a e)
  where
    shown :
        (o : Option PendingReq)
        → Any (λ x. x ≡ view pr) (list_from heap pending)
        → Any (λ x. x ≡ view pr) (viewed o (list_from heap pending))
    shown none b = b
    shown (some other) b = inr b

HasUniqueKeys-leave :
    (ptr : Bytes) (pr : PendingReq) (phase : Phase) (s : PendingApprover)
    → HasUniqueKeys s.pending
    → HasUniqueKeys (leave ptr pr phase s).pending
unfolding leave
HasUniqueKeys-leave ptr pr waiting s h = h
HasUniqueKeys-leave ptr pr (returned a) s h = h
HasUniqueKeys-leave ptr pr (chosen a) s h = erase-HasUniqueKeys pr.id s.pending h

run_step-HasUniqueKeys :
    (x : Step) (s : PendingApprover)
    → HasUniqueKeys s.pending
    → HasUniqueKeys (run_step x s).pending
unfolding run_step confirm_enter confirm_return
run_step-HasUniqueKeys (select w ptr) s h = rw (pending-select w ptr s) h
run_step-HasUniqueKeys (deliver ptr b) s h = rw (pending-deliver ptr b s) h
run_step-HasUniqueKeys (enter ptr id now r) s h = elim (Option-cases (lookup ptr s.heap)) [
  | inr (pr, e) ↦ rw (e, run_step, confirm_enter) h
  | inl e ↦ rw (e, run_step, confirm_enter) (insert-HasUniqueKeys id ptr s.pending h)
]
run_step-HasUniqueKeys (finish ptr) s h = elim (Option-cases (lookup ptr s.heap)) [
  | inl e ↦ rw (e, run_step, confirm_return) h
  | inr (pr, e) ↦ rw (e, run_step, confirm_return) (HasUniqueKeys-leave ptr pr pr.phase s h)
]

run_steps-HasUniqueKeys :
    (steps : List Step) (s : PendingApprover)
    → HasUniqueKeys s.pending
    → HasUniqueKeys (run_steps steps s).pending
unfolding run_steps
run_steps-HasUniqueKeys [] s h = h
run_steps-HasUniqueKeys (x ∷ steps) s h =
    run_steps-HasUniqueKeys steps (run_step x s) (run_step-HasUniqueKeys x s h)

-- The call has not returned.
abbrev pub IsLive : Phase → Type 0
IsLive (returned a) = ⊥
IsLive p = Unit

live_phase_iff :
    (phase : Phase) (own id : Bytes)
    → (live_phase phase own ≡ some id) ↔ (IsLive phase × (own ≡ id))
live_phase_iff waiting own id = ((λ e. (tt, cc)), (λ h. ap some h.1))
live_phase_iff (chosen a) own id = ((λ e. (tt, cc)), (λ h. ap some h.1))
live_phase_iff (returned a) own id = ((λ e. cc), (λ h. absurd h.0))

-- It is the view of a request whose call has not returned.
abbrev IsViewed : PendingApprover → PendingView → Type 0
IsViewed s v =
    (ptr : Bytes) × (pr : PendingReq) × (lookup ptr s.heap ≡ some pr)
    × IsLive pr.phase
    × (view pr ≡ v)

list_pending_iff :
    (s : PendingApprover) (v : PendingView)
    → IsListed s
    → HasUniqueKeys s.pending
    → Any (λ x. x ≡ v) (list_pending s) ↔ IsViewed s v
unfolding list_pending
list_pending_iff s v listed unique = (to, from)
  where
    to : Any (λ x. x ≡ v) (list_from s.heap s.pending) → IsViewed s v
    to a =
        let (id, ptr, pr, there, e, same) = list_from→Entry s.heap s.pending v a in
        let live = (listed id ptr).0 (Any→lookup id ptr s.pending unique there) in
        (ptr, pr, e, ((live_phase_iff pr.phase pr.id id).0 (rw e at live)).0, same)

    from : IsViewed s v → Any (λ x. x ≡ v) (list_from s.heap s.pending)
    from (ptr, pr, e, live, same) =
        let named : live_id (lookup ptr s.heap) ≡ some pr.id =
          rw e ((live_phase_iff pr.phase pr.id pr.id).1 (live, refl)) in
        let there = lookup→Any pr.id ptr s.pending ((listed pr.id ptr).1 named) in
        rw (← same) (Entry→list_from s.heap s.pending pr.id ptr pr there e)

abbrev pub ask_of : PendingView → ConfirmRequest
ask_of v = record { credential = v.credential; method = v.method; host = v.host }

-- It shows the ID, the time and the request of a call of `Confirm` that has not returned, as that
-- call has entered.
abbrev pub Shown : List Step → PendingView → Type 0
Shown steps v =
    (ptr : Bytes) × (pr : PendingReq) × (lookup ptr (run_steps steps no_requests).heap ≡ some pr)
    × IsLive pr.phase
    × (asked_at ptr steps ≡ some (v.id, v.created, ask_of v))

view_iff :
    (pr : PendingReq) (v : PendingView)
    → (view pr ≡ v) ↔ (details (some pr) ≡ some (v.id, v.created, ask_of v))
view_iff pr v = ((λ e. ap (λ w. some (w.id, w.created, ask_of w)) e), (λ e. cc))

IsViewed-Shown :
    (steps : List Step) (v : PendingView) → IsViewed (run_steps steps no_requests) v ↔ Shown steps v
IsViewed-Shown steps v = (to, from)
  where
    brought :
        (ptr : Bytes) (pr : PendingReq)
        → lookup ptr (run_steps steps no_requests).heap ≡ some pr
        → details (some pr) ≡ asked_at ptr steps
    brought ptr pr e = unfold lookup in ap details (sym e) ∙ details-run_steps steps no_requests ptr

    to : IsViewed (run_steps steps no_requests) v → Shown steps v
    to (ptr, pr, e, live, same) =
        (ptr, pr, e, live, sym (brought ptr pr e) ∙ (view_iff pr v).0 same)

    from : Shown steps v → IsViewed (run_steps steps no_requests) v
    from (ptr, pr, e, live, same) = (ptr, pr, e, live, (view_iff pr v).1 (brought ptr pr e ∙ same))

-- In every order of the steps of all goroutines, from an approver without requests, `list` shows exactly
-- the requests of the calls of `Confirm` that have not returned, each with the ID, the time, the
-- credential, the method and the host that its call entered with; if no call enters with an ID that is
-- pending. (Of calls with one pointer only the first enters.)
pub run_steps-list_pending :
    (steps : List Step) (v : PendingView)
    → HaveFreshIds steps no_requests
    → Any (λ x. x ≡ v) (list_pending (run_steps steps no_requests)) ↔ Shown steps v
run_steps-list_pending steps v fresh =
    let (to, from) =
      list_pending_iff (run_steps steps no_requests) v (run_steps-IsListed steps fresh)
        (run_steps-HasUniqueKeys steps no_requests tt) in
    let (on, back) = IsViewed-Shown steps v in ((λ a. on (to a)), (λ h. from (back h)))
