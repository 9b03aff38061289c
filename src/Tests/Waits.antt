-- ===== src/Tests/Waits.antt =====
-- The theorems on approvals and on the idle lock, at concrete inputs.
use joyvend_secretvault.Shared.{◌≡◌, refl, true, false, some, List, [], ◌∷◌, ◌++◌, All}
use joyvend_secretvault.Text.{text, bytes_eq}
use joyvend_secretvault.Maps.{lookup, insert}
use joyvend_secretvault.Fetch.{ConfirmRequest, Approval, approved}
use joyvend_secretvault.Approver.{
  PendingReq, PendingApprover, new_request, decide, no_requests, confirm_enter, decision, timer,
}
use joyvend_secretvault.Approver.Steps.{Step, enter, select, finish, deliver, run_steps}
use joyvend_secretvault.Approver.Listing.{IsListed, HaveFreshIds, run_steps-IsListed}
use joyvend_secretvault.Shared.{Any, ◌↔◌}
use joyvend_secretvault.Approver.{view, list_pending}
use joyvend_secretvault.Approver.Lists.{Shown, run_steps-list_pending}
use joyvend_secretvault.Approver.Diagram.{At, IsReturnedWith}
use joyvend_secretvault.Approver.Ending.{is_own, run_steps-At_returned, decide-At}
use joyvend_secretvault.Tests.Fixtures.{key_name, api_host}

abbrev asked : ConfirmRequest
asked = record { credential = key_name; method = text "POST"; host = api_host }

-- A second decision comes too late, and so does the timer.
abbrev pub answering : List Step
answering =
    deliver (text "p") true
    ∷ deliver (text "p") false
    ∷ select decision (text "p")
    ∷ select timer (text "p")
    ∷ finish (text "p")
    ∷ []

abbrev approval : List Step
approval = enter (text "p") (text "id") 7 asked ∷ answering

approval_fresh : HaveFreshIds approval no_requests
unfolding lookup
approval_fresh = (refl, (tt, (tt, (tt, (tt, (tt, tt))))))

run_steps-IsListed_example : IsListed (run_steps approval no_requests)
run_steps-IsListed_example = run_steps-IsListed approval approval_fresh

-- The request that waits, and what happens to another while it does.
abbrev asking : PendingApprover
asking = run_steps (enter (text "p") (text "id") 7 asked ∷ []) no_requests

abbrev asking_entry : PendingReq
asking_entry = new_request (text "id") 7 asked

abbrev elsewhere : List Step
elsewhere =
    enter (text "q") (text "other") 8 asked
    ∷ select timer (text "q")
    ∷ deliver (text "p") false
    ∷ finish (text "q")
    ∷ []

asking_some : lookup (text "p") asking.heap ≡ some asking_entry
unfolding run_steps confirm_enter lookup insert bytes_eq
asking_some = refl

asking_pending : lookup (text "id") asking.pending ≡ some (text "p")
unfolding run_steps confirm_enter lookup insert bytes_eq
asking_pending = refl

run_steps-At_returned_example :
    (a : Approval) × At (IsReturnedWith a) (
      lookup
        (text "p")
        (run_steps
          (select timer (text "p") ∷ (elsewhere ++ finish (text "p") ∷ elsewhere))
          asking).heap)
run_steps-At_returned_example =
    run_steps-At_returned asking timer (text "p") asking_entry elsewhere elsewhere asking_some tt

elsewhere_other : All (λ x. is_own (text "p") x ≡ false) elsewhere
unfolding bytes_eq
elsewhere_other = (refl, (refl, (refl, (refl, tt))))

decide-At_example :
    ((decide (text "id") true asking).1 ≡ true)
    × At (IsReturnedWith approved) (
        lookup
          (text "p")
          (run_steps
            (elsewhere ++ select decision (text "p") ∷ (answering ++ finish (text "p") ∷ elsewhere))
            (decide (text "id") true asking).0).heap)
decide-At_example =
    decide-At asking (text "id") true (text "p") asking_entry elsewhere answering elsewhere
      asking_pending asking_some refl elsewhere_other

run_steps-list_pending_example :
    Any (λ x. x ≡ view asking_entry) (list_pending (run_steps approval no_requests))
    ↔ Shown approval (view asking_entry)
run_steps-list_pending_example = run_steps-list_pending approval (view asking_entry) approval_fresh
