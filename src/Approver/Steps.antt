-- ===== src/Approver/Steps.antt =====
-- The steps of the goroutines at the approver, in any order, and what each makes of one request.
use joyvend_secretvault.Shared.{
  ℕ, ◌≡◌, refl, Bool, Option-cases, Bool-cases, inl, inr, Option, none, some, List, [], ◌∷◌, ◌++◌,
  arith, if◌then◌else◌,
}
use joyvend_secretvault.Text.{Bytes, bytes_eq, bytes_eq_iff}
use joyvend_secretvault.Maps.{lookup, lookup-insert}
use joyvend_secretvault.Fetch.{ConfirmRequest}
use joyvend_secretvault.Approver.{
  Phase, chosen, returned, PendingReq, PendingApprover, new_request, confirm_enter, Wake, wake,
  confirm_select, leave, confirm_return, offer, send,
}

-- The steps of the goroutines: those of a call of `Confirm`, and the send of a `decide` that has
-- found the pointer.
pub data Step : Type 0 where
  enter : Bytes → Bytes → ℕ → ConfirmRequest → Step
  select : Wake → Bytes → Step
  finish : Bytes → Step
  deliver : Bytes → Bool → Step

unfoldable pub run_step : Step → PendingApprover → PendingApprover
run_step (enter ptr id now r) s = confirm_enter ptr id now r s
run_step (select w ptr) s = confirm_select w ptr s
run_step (finish ptr) s = confirm_return ptr s
run_step (deliver ptr approve) s = (send ptr approve s).0

unfoldable pub run_steps : List Step → PendingApprover → PendingApprover
unfolding run_step
run_steps [] s = s
run_steps (x ∷ steps) s = run_steps steps (run_step x s)

-- The pointer that a step is about.
abbrev pub target : Step → Bytes
target (enter ptr id now r) = ptr
target (select w ptr) = ptr
target (finish ptr) = ptr
target (deliver ptr approve) = ptr

abbrev pub finish_phase : Phase → Phase
finish_phase (chosen a) = returned a
finish_phase phase = phase

-- What a step makes of the request that it is about.
abbrev pub after : Step → Option PendingReq → Option PendingReq
after (enter ptr id now r) none = some (new_request id now r)
after (select w ptr) (some pr) =
    let (phase, c) = wake w pr.phase pr.channel in some (record pr { phase = phase; channel = c })
after (finish ptr) (some pr) = some (record pr { phase = finish_phase pr.phase })
after (deliver ptr b) (some pr) = some (record pr { channel = (offer b pr.channel).0 })
after x o = o

pub lookup-run_step :
    (x : Step) (s : PendingApprover) (ptr : Bytes)
    → lookup ptr (run_step x s).heap
      ≡ (if bytes_eq (target x) ptr then after x (lookup ptr s.heap) else lookup ptr s.heap)
unfolding run_step confirm_enter confirm_select confirm_return leave send
lookup-run_step (enter p id now r) s ptr =
    ground (arith, lookup-insert p ptr (new_request id now r) s.heap, bytes_eq_iff p ptr)
lookup-run_step (select w p) s ptr = elim (Option-cases (lookup p s.heap)) [
  | inl e ↦ ground (arith, bytes_eq_iff p ptr)
  | inr (pr, e) ↦ ground (
    arith,
    lookup-insert p ptr
        (record pr {
          phase = (wake w pr.phase pr.channel).0;
          channel = (wake w pr.phase pr.channel).1;
        })
        s.heap,
    bytes_eq_iff p ptr,
  )
]
lookup-run_step (finish p) s ptr = elim (Option-cases (lookup p s.heap)) [
  | inl e ↦ ground (arith, bytes_eq_iff p ptr)
  | inr (pr, e) ↦ ground (
    arith,
    lookup-insert p ptr (record pr { phase = finish_phase pr.phase }) s.heap,
    bytes_eq_iff p ptr,
  )
]
lookup-run_step (deliver p b) s ptr = elim (Option-cases (lookup p s.heap)) [
  | inl e ↦ ground (arith, bytes_eq_iff p ptr)
  | inr (pr, e) ↦ ground (
    arith,
    lookup-insert p ptr (record pr { channel = (offer b pr.channel).0 }) s.heap,
    bytes_eq_iff p ptr,
  )
]

-- What every step keeps of a request, every run keeps.
pub run_steps_keep :
    (Q : Option PendingReq → Type 0)
    → ((x : Step) (o : Option PendingReq) → Q o → Q (after x o))
    → (steps : List Step) (s : PendingApprover) (ptr : Bytes) → Q (lookup ptr s.heap)
    → Q (lookup ptr (run_steps steps s).heap)
unfolding run_steps
run_steps_keep Q keep [] s ptr h = h
run_steps_keep Q keep (x ∷ steps) s ptr h = run_steps_keep Q keep steps (run_step x s) ptr (
    rw (lookup-run_step x s ptr) (elim (Bool-cases (bytes_eq (target x) ptr)) [
      | inl hit ↦ rw hit (keep x (lookup ptr s.heap) h)
      | inr other ↦ rw other h
    ]))

pub run_steps-append :
    (before later : List Step) (s : PendingApprover)
    → run_steps (before ++ later) s ≡ run_steps later (run_steps before s)
unfolding run_steps
run_steps-append [] later s = refl
run_steps-append (x ∷ before) later s = run_steps-append before later (run_step x s)
