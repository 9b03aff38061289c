-- ===== src/Approver/Ending.antt =====
-- How a call of `Confirm` ends, and which decision it takes.
use joyvend_secretvault.Shared.{
  ◌≡◌, refl, Bool, true, false, Option, none, some, List, [], ◌∷◌, ◌++◌, All, arith, if◌then◌else◌,
  ◌∙◌,
}
use mathlib.Core.List.{append_assoc}
use joyvend_secretvault.Text.{Bytes, bytes_eq, bytes_eq_refl}
use joyvend_secretvault.Maps.{lookup, lookup-insert}
use joyvend_secretvault.Fetch.{Approval, refused, failed}
use joyvend_secretvault.Approver.{
  Phase, waiting, chosen, returned, PendingReq, PendingApprover, Wake, decision, timer,
  context_done, wake, offer, answer, send, decide,
}
use joyvend_secretvault.Approver.Steps.{
  Step, enter, select, finish, deliver, run_step, run_steps, target, after, lookup-run_step,
  run_steps-append,
}
use joyvend_secretvault.Approver.Decisions.{HasAnswer}
use joyvend_secretvault.Approver.Diagram.{
  ⟶*-wake, At, run_steps-At, ⟶*-HasAnswer, IsReturnedWith, ⟶*-IsReturnedWith,
  finish_phase-HasAnswer,
}

-- The timer and the end of the context need no decision; a decision has to be in the channel.
abbrev pub IsReady : Wake → Option Bool → Type 0
IsReady decision none = ⊥
IsReady _ _ = Unit

wake-HasAnswer :
    (w : Wake) (p : Phase) (c : Option Bool)
    → IsReady w c
    → (a : Approval) × HasAnswer (wake w p c).0 a
unfolding wake
wake-HasAnswer decision waiting none r = absurd r
wake-HasAnswer decision waiting (some b) r = (answer b, refl)
wake-HasAnswer timer waiting c r = (refused, refl)
wake-HasAnswer context_done waiting c r = (failed, refl)
wake-HasAnswer w (chosen a) c r = (a, ⟶*-HasAnswer a (chosen a) _ (⟶*-wake w (chosen a) c) refl)
wake-HasAnswer w (returned a) c r =
    (a, ⟶*-HasAnswer a (returned a) _ (⟶*-wake w (returned a) c) refl)

-- The step of a request at its own pointer.
lookup-own :
    (x : Step) (s : PendingApprover) (ptr : Bytes)
    → target x ≡ ptr
    → lookup ptr (run_step x s).heap ≡ after x (lookup ptr s.heap)
lookup-own x s ptr e = lookup-run_step x s ptr ∙ rw (e, bytes_eq_refl ptr) refl

finish-At :
    (a : Approval) (ptr : Bytes) (o : Option PendingReq)
    → At (λ p. HasAnswer p a) o
    → At (IsReturnedWith a) (after (finish ptr) o)
finish-At a ptr none h = absurd h
finish-At a ptr (some pr) h = finish_phase-HasAnswer a pr.phase h

-- Behind its `select`, a call returns as soon as it runs again, with the answer that it has.
run_steps_returned :
    (a : Approval) (between later : List Step) (s : PendingApprover) (ptr : Bytes)
    → At (λ p. HasAnswer p a) (lookup ptr s.heap)
    → At (IsReturnedWith a) (lookup ptr (run_steps (between ++ finish ptr ∷ later) s).heap)
unfolding run_steps
run_steps_returned a between later s ptr h =
    let mid = run_steps between s in
    let there = run_steps-At (λ p. HasAnswer p a) (⟶*-HasAnswer a) between s ptr h in
    rw (run_steps-append between (finish ptr ∷ later) s) (
      run_steps-At (IsReturnedWith a) (⟶*-IsReturnedWith a) later (run_step (finish ptr) mid) ptr
        (rw (lookup-own (finish ptr) mid ptr refl) (finish-At a ptr (lookup ptr mid.heap) there)))

-- A call of `Confirm` whose `select` takes a case that is ready (the timer and the end of the context
-- always are, a decision if it was sent) returns as soon as it runs again: whatever the goroutines did
-- before, do between and do after, the call stands there with one answer at the end.
pub run_steps-At_returned :
    (s : PendingApprover) (w : Wake) (ptr : Bytes) (pr : PendingReq) (between later : List Step)
    → lookup ptr s.heap ≡ some pr
    → IsReady w pr.channel
    → (a : Approval) × At
        (IsReturnedWith a)
        (lookup ptr (run_steps (select w ptr ∷ (between ++ finish ptr ∷ later)) s).heap)
unfolding run_steps
run_steps-At_returned s w ptr pr between later e ready =
    let (a, h) = wake-HasAnswer w pr.phase pr.channel ready in
    let t = run_step (select w ptr) s in
    (a, run_steps_returned a between later t ptr (rw (lookup-own (select w ptr) s ptr refl, e) h))

-- A step of the call at the pointer itself.
abbrev pub is_own : Bytes → Step → Bool
is_own ptr (select w q) = bytes_eq q ptr
is_own ptr (finish q) = bytes_eq q ptr
is_own ptr x = false

-- The request waits, and the decision is in its channel.
abbrev HasDecision : Bool → Option PendingReq → Type 0
HasDecision b none = ⊥
HasDecision b (some pr) = (pr.phase ≡ waiting) × (pr.channel ≡ some b)

after-HasDecision :
    (b : Bool) (ptr : Bytes) (x : Step) (o : Option PendingReq) (hit : Bool)
    → bytes_eq (target x) ptr ≡ hit
    → is_own ptr x ≡ false
    → HasDecision b o
    → HasDecision b (if hit then after x o else o)
after-HasDecision b ptr x none hit same own h = absurd h
after-HasDecision b ptr x (some pr) false same own h = h
after-HasDecision b ptr (enter q id now r) (some pr) true same own h = h
after-HasDecision b ptr (select w q) (some pr) true same own h = cc
after-HasDecision b ptr (finish q) (some pr) true same own h = cc
after-HasDecision b ptr (deliver q d) (some pr) true same own (p, c) =
    (p, rw c (unfold offer in refl))

run_steps-HasDecision :
    (b : Bool) (ptr : Bytes) (steps : List Step) (s : PendingApprover)
    → All (λ x. is_own ptr x ≡ false) steps
    → HasDecision b (lookup ptr s.heap)
    → HasDecision b (lookup ptr (run_steps steps s).heap)
unfolding run_steps
run_steps-HasDecision b ptr [] s own h = h
run_steps-HasDecision b ptr (x ∷ steps) s (other, own) h =
    run_steps-HasDecision b ptr steps (run_step x s) own (
      rw (lookup-run_step x s ptr)
        (after-HasDecision b ptr x (lookup ptr s.heap) (bytes_eq (target x) ptr) refl other h))

select-At :
    (b : Bool) (ptr : Bytes) (o : Option PendingReq)
    → HasDecision b o
    → At (λ p. HasAnswer p (answer b)) (after (select decision ptr) o)
unfolding wake
select-At b ptr none h = absurd h
select-At b ptr (some pr) (p, c) = rw (p, c) refl

-- The decision of `decide` is the send at the pointer that it has found.
decide_lem :
    (id : Bytes) (b : Bool) (s : PendingApprover) (ptr : Bytes) (pr : PendingReq)
    → lookup id s.pending ≡ some ptr
    → lookup ptr s.heap ≡ some pr
    → pr.channel ≡ none
    → ((decide id b s).1 ≡ true)
      × (lookup ptr (decide id b s).0.heap ≡ some (record pr { channel = some b }))
unfolding decide send offer
decide_lem id b s ptr pr e f c =
    ground (arith, lookup-insert ptr ptr (record pr { channel = some b }) s.heap, bytes_eq_refl ptr)

-- What a call answers that a decision finds in this phase.
abbrev pub outcome : Phase → Bool → Approval
outcome waiting b = answer b
outcome (chosen a) b = a
outcome (returned a) b = a

module _ (s : PendingApprover) (b : Bool) (ptr : Bytes) (others between later : List Step) where
  abbrev decided_run : List Step
  decided_run = others ++ select decision ptr ∷ (between ++ finish ptr ∷ later)

  decided_in_time :
      HasDecision b (lookup ptr s.heap)
      → All (λ x. is_own ptr x ≡ false) others
      → At (IsReturnedWith (answer b)) (lookup ptr (run_steps decided_run s).heap)
  unfolding run_steps
  decided_in_time sent other =
      let there = run_steps others s in
      let t = run_step (select decision ptr) there in
      rw (run_steps-append others (select decision ptr ∷ (between ++ finish ptr ∷ later)) s) (
        run_steps_returned (answer b) between later t ptr (
          rw (lookup-own (select decision ptr) there ptr refl) (
            select-At b ptr (lookup ptr there.heap)
              (run_steps-HasDecision b ptr others s other sent))))

  decided_late :
      (a : Approval)
      → At (λ p. HasAnswer p a) (lookup ptr s.heap)
      → At (IsReturnedWith a) (lookup ptr (run_steps decided_run s).heap)
  decided_late a h =
      rw (← append_assoc others (select decision ptr ∷ between) (finish ptr ∷ later))
        (run_steps_returned a (others ++ select decision ptr ∷ between) later s ptr h)

  decided :
      (pr : PendingReq) (p : Phase)
      → pr.phase ≡ p
      → lookup ptr s.heap ≡ some (record pr { channel = some b })
      → All (λ x. is_own ptr x ≡ false) others
      → At (IsReturnedWith (outcome p b)) (lookup ptr (run_steps decided_run s).heap)
  decided pr waiting at_phase e other = decided_in_time (rw e (at_phase, refl)) other
  decided pr (chosen a) at_phase e other = decided_late a (rw e (rw at_phase refl))
  decided pr (returned a) at_phase e other = decided_late a (rw e (rw at_phase refl))

-- A human who decides on a pending request, before anyone else has, is told that the decision counts.
-- If its call of `Confirm` still waits, it counts: whatever other goroutines and later decisions do,
-- the call that then takes the decision returns it as soon as it runs again. But if the timeout or the
-- end of the context has been taken before, the human is told the same, and the call returns that.
pub decide-At :
    (s : PendingApprover) (id : Bytes) (b : Bool) (ptr : Bytes) (pr : PendingReq)
    (others between later : List Step)
    → lookup id s.pending ≡ some ptr
    → lookup ptr s.heap ≡ some pr
    → pr.channel ≡ none
    → All (λ x. is_own ptr x ≡ false) others
    → ((decide id b s).1 ≡ true)
      × At (IsReturnedWith (outcome pr.phase b)) (
          lookup ptr
            (run_steps
              (others ++ select decision ptr ∷ (between ++ finish ptr ∷ later))
              (decide id b s).0).heap)
decide-At s id b ptr pr others between later e f c other =
    let (told, sent) = decide_lem id b s ptr pr e f c in
    (told, decided (decide id b s).0 b ptr others between later pr pr.phase refl sent other)
