-- ===== src/Approver/Decisions.antt =====
-- Which decision a call of `Confirm` gives back, in every order of the steps of all goroutines.
use joyvend_secretvault.Shared.{
  ◌≡◌, refl, Bool, true, false, ◌&&◌, ◌||◌, Option, none, some, List, [], ◌∷◌, arith, if◌then◌else◌,
}
use joyvend_secretvault.Text.{Bytes, bytes_eq}
use joyvend_secretvault.Maps.{lookup}
use joyvend_secretvault.Fetch.{Approval, approved}
use joyvend_secretvault.Approver.Steps.{
  Step, enter, select, finish, deliver, run_step, run_steps, target, finish_phase, after,
  lookup-run_step,
}
use joyvend_secretvault.Approver.{
  Phase, waiting, chosen, returned, PendingReq, PendingApprover, no_requests, Wake, decision, timer,
  context_done, wake, offer,
}

abbrev or_later : Option Bool → Bool → Option Bool
or_later none b = some b
or_later (some a) b = some a

abbrev asked_after : Step → Bool → Bool → Bool
asked_after (enter p id now r) hit asked = hit || asked
asked_after x hit asked = asked

abbrev first_after : Step → Bool → Bool → Option Bool → Option Bool
first_after (deliver p b) hit asked first = if hit && asked then or_later first b else first
first_after x hit asked first = first

-- The first decision on a request, of those after it was entered.
abbrev first_from : Bytes → Bool → Option Bool → List Step → Option Bool
first_from ptr asked first [] = first
first_from ptr asked first (x ∷ steps) =
    let hit = bytes_eq (target x) ptr in
    first_from ptr (asked_after x hit asked) (first_after x hit asked first) steps

abbrev pub first_decision : Bytes → List Step → Option Bool
first_decision ptr steps = first_from ptr false none steps

-- The answer that a call has, if it is behind its `select`.
abbrev pub HasAnswer : Phase → Approval → Type 0
HasAnswer waiting a = ⊥
HasAnswer (chosen b) a = b ≡ a
HasAnswer (returned b) a = b ≡ a

abbrev Fits : Phase → Option Bool → Option Bool → Type 0
Fits waiting c first = c ≡ first
Fits (chosen a) c first = a ≡ approved → first ≡ some true
Fits (returned a) c first = a ≡ approved → first ≡ some true

abbrev Tracks : Option PendingReq → Bool → Option Bool → Type 0
Tracks none asked first = (asked ≡ false) × (first ≡ none)
Tracks (some pr) asked first = (asked ≡ true) × Fits pr.phase pr.channel first

wake-Fits :
    (w : Wake) (p : Phase) (c first : Option Bool)
    → Fits p c first
    → Fits (wake w p c).0 (wake w p c).1 first
unfolding wake
wake-Fits decision waiting none first h = h
wake-Fits decision waiting (some true) first h = λ e. h' h
  where
    h' : some true ≡ first → first ≡ some true
    h' q = cc
wake-Fits decision waiting (some false) first h = λ e. cc
wake-Fits timer waiting c first h = λ e. cc
wake-Fits context_done waiting c first h = λ e. cc
wake-Fits decision (chosen a) c first h = h
wake-Fits timer (chosen a) c first h = h
wake-Fits context_done (chosen a) c first h = h
wake-Fits decision (returned a) c first h = h
wake-Fits timer (returned a) c first h = h
wake-Fits context_done (returned a) c first h = h

finish-Fits : (p : Phase) (c first : Option Bool) → Fits p c first → Fits (finish_phase p) c first
finish-Fits waiting c first h = h
finish-Fits (chosen a) c first h = h
finish-Fits (returned a) c first h = h

offer-Fits :
    (b : Bool) (p : Phase) (c first : Option Bool)
    → Fits p c first
    → Fits p (offer b c).0 (or_later first b)
unfolding offer
offer-Fits b waiting none first h = cc
offer-Fits b waiting (some a) first h = cc
offer-Fits b (chosen a) c first h = λ e. cc (h e)
offer-Fits b (returned a) c first h = λ e. cc (h e)

after-Tracks :
    (x : Step) (o : Option PendingReq) (hit asked : Bool) (first : Option Bool)
    → Tracks o asked first
    → Tracks
        (if hit then after x o else o)
        (asked_after x hit asked)
        (first_after x hit asked first)
after-Tracks (enter p id now r) none true asked first h = (refl, ground arith)
after-Tracks (enter p id now r) none false asked first h = h
after-Tracks (enter p id now r) (some pr) true asked first h = (refl, h.1)
after-Tracks (enter p id now r) (some pr) false asked first h = h
after-Tracks (select w p) none true asked first h = h
after-Tracks (select w p) none false asked first h = h
after-Tracks (select w p) (some pr) true asked first h =
    (h.0, wake-Fits w pr.phase pr.channel first h.1)
after-Tracks (select w p) (some pr) false asked first h = h
after-Tracks (finish p) none true asked first h = h
after-Tracks (finish p) none false asked first h = h
after-Tracks (finish p) (some pr) true asked first h =
    (h.0, finish-Fits pr.phase pr.channel first h.1)
after-Tracks (finish p) (some pr) false asked first h = h
after-Tracks (deliver p b) none true asked first h = rw h.0 (refl, h.1)
after-Tracks (deliver p b) none false asked first h = h
after-Tracks (deliver p b) (some pr) true asked first h =
    rw h.0 (refl, offer-Fits b pr.phase pr.channel first h.1)
after-Tracks (deliver p b) (some pr) false asked first h = h

run_steps-Tracks :
    (steps : List Step) (s : PendingApprover) (ptr : Bytes) (asked : Bool) (first : Option Bool)
    → Tracks (lookup ptr s.heap) asked first
    → (later : Bool) × Tracks
        (lookup ptr (run_steps steps s).heap)
        later
        (first_from ptr asked first steps)
unfolding run_steps
run_steps-Tracks [] s ptr asked first h = (asked, h)
run_steps-Tracks (x ∷ steps) s ptr asked first h =
    let hit = bytes_eq (target x) ptr in
    run_steps-Tracks steps (run_step x s) ptr (asked_after x hit asked)
      (first_after x hit asked first)
      (rw (lookup-run_step x s ptr) (after-Tracks x (lookup ptr s.heap) hit asked first h))

approved-Fits :
    (p : Phase) (c first : Option Bool) → Fits p c first → HasAnswer p approved → first ≡ some true
approved-Fits waiting c first h a = absurd a
approved-Fits (chosen b) c first h a = h a
approved-Fits (returned b) c first h a = h a

-- The same from any state in which the pointer is not in use.
pub run_steps-first_decision_fresh :
    (s : PendingApprover) (steps : List Step) (ptr : Bytes) (pr : PendingReq)
    → lookup ptr s.heap ≡ none
    → lookup ptr (run_steps steps s).heap ≡ some pr
    → HasAnswer pr.phase approved
    → first_decision ptr steps ≡ some true
run_steps-first_decision_fresh s steps ptr pr fresh e a =
    let (later, t) = run_steps-Tracks steps s ptr false none (rw fresh (refl, refl)) in
    approved-Fits pr.phase pr.channel (first_decision ptr steps) (rw e at t).1 a

-- In every order of the steps of all goroutines, a call of `Confirm` answers that the request is
-- approved only if the first decision that was sent to it, after it was entered, approved it. So
-- without a decision, after a timeout, or when the context ends, it is not approved.
pub run_steps-first_decision :
    (steps : List Step) (ptr : Bytes) (pr : PendingReq)
    → lookup ptr (run_steps steps no_requests).heap ≡ some pr
    → HasAnswer pr.phase approved
    → first_decision ptr steps ≡ some true
run_steps-first_decision steps ptr pr e a =
    run_steps-first_decision_fresh no_requests steps ptr pr (unfold lookup in refl) e a
