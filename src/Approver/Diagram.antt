-- ===== src/Approver/Diagram.antt =====
-- The phases of a call of `Confirm` as a diagram.
use joyvend_secretvault.Shared.{◌≡◌, Bool, Option, none, some, List, ap}
use joyvend_secretvault.Text.{Bytes}
use joyvend_secretvault.Maps.{lookup}
use joyvend_secretvault.Fetch.{Approval}
use joyvend_secretvault.Approver.{
  Phase, waiting, chosen, returned, PendingReq, PendingApprover, Wake, decision, timer,
  context_done, wake,
}
use joyvend_secretvault.Approver.Steps.{
  Step, enter, select, finish, deliver, run_steps, after, finish_phase, run_steps_keep,
}
use joyvend_secretvault.Approver.Decisions.{HasAnswer}

-- The diagram of a call.
infix 40 ◌⟶◌ ◌⟶*◌
pub data ◌⟶◌ : Phase → Phase → Type 0 where
  take_case : {a : Approval} → waiting ⟶ chosen a
  give_back : {a : Approval} → chosen a ⟶ returned a

pub data ◌⟶*◌ : Phase → Phase → Type 0 where
  here : {p : Phase} → p ⟶* p
  and_then : {p q r : Phase} → p ⟶ q → q ⟶* r → p ⟶* r

⟶*-trans : {p q r : Phase} → p ⟶* q → q ⟶* r → p ⟶* r
⟶*-trans here t = t
⟶*-trans (and_then e u) t = and_then e (⟶*-trans u t)

pub ⟶*-wake : (w : Wake) (p : Phase) (c : Option Bool) → p ⟶* (wake w p c).0
unfolding wake
⟶*-wake decision waiting none = here
⟶*-wake decision waiting (some b) = and_then take_case here
⟶*-wake timer waiting c = and_then take_case here
⟶*-wake context_done waiting c = and_then take_case here
⟶*-wake decision (chosen a) c = here
⟶*-wake timer (chosen a) c = here
⟶*-wake context_done (chosen a) c = here
⟶*-wake decision (returned a) c = here
⟶*-wake timer (returned a) c = here
⟶*-wake context_done (returned a) c = here

⟶*-finish_phase : (p : Phase) → p ⟶* finish_phase p
⟶*-finish_phase waiting = here
⟶*-finish_phase (chosen a) = and_then give_back here
⟶*-finish_phase (returned a) = here

-- There is a request, and its phase is one of those.
abbrev pub At : (Phase → Type 0) → Option PendingReq → Type 0
At Q none = ⊥
At Q (some pr) = Q pr.phase

module _ (Q : Phase → Type 0) (closed : (p q : Phase) → p ⟶* q → Q p → Q q) where
  after-At : (x : Step) (o : Option PendingReq) → At Q o → At Q (after x o)
  after-At x none h = absurd h
  after-At (enter ptr id now r) (some pr) h = h
  after-At (select w ptr) (some pr) h =
      closed pr.phase (wake w pr.phase pr.channel).0 (⟶*-wake w pr.phase pr.channel) h
  after-At (finish ptr) (some pr) h =
      closed pr.phase (finish_phase pr.phase) (⟶*-finish_phase pr.phase) h
  after-At (deliver ptr b) (some pr) h = h

  -- A call only moves along the diagram, in every run.
  pub run_steps-At :
      (steps : List Step) (s : PendingApprover) (ptr : Bytes)
      → At Q (lookup ptr s.heap)
      → At Q (lookup ptr (run_steps steps s).heap)
  run_steps-At steps s ptr h = run_steps_keep (At Q) after-At steps s ptr h

-- The answer of a call is final.
pub ⟶*-HasAnswer : (a : Approval) (p q : Phase) → p ⟶* q → HasAnswer p a → HasAnswer q a
⟶*-HasAnswer a p q here h = h
⟶*-HasAnswer a p q (and_then take_case t) h = absurd h
⟶*-HasAnswer a p q (and_then (give_back {a = b}) t) h = ⟶*-HasAnswer a (returned b) q t h

abbrev pub IsReturnedWith : Approval → Phase → Type 0
IsReturnedWith a p = p ≡ returned a

pub ⟶*-IsReturnedWith :
    (a : Approval) (p q : Phase) → p ⟶* q → IsReturnedWith a p → IsReturnedWith a q
⟶*-IsReturnedWith a p q here e = e
⟶*-IsReturnedWith a p q (and_then take_case t) e = cc
⟶*-IsReturnedWith a p q (and_then give_back t) e = cc

pub finish_phase-HasAnswer :
    (a : Approval) (p : Phase) → HasAnswer p a → finish_phase p ≡ returned a
finish_phase-HasAnswer a waiting h = absurd h
finish_phase-HasAnswer a (chosen b) h = ap returned h
finish_phase-HasAnswer a (returned b) h = ap returned h
