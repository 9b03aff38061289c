-- ===== src/Approver/Showing.antt =====
-- What the entry of a request at the approver shows: all that its call of `Confirm` asked, as long as
-- it is there.
use joyvend_secretvault.Shared.{ℕ, ◌≡◌, refl, true, false, Option, none, some, List}
use joyvend_secretvault.Text.{Bytes, bytes_eq_refl}
use joyvend_secretvault.Maps.{lookup}
use joyvend_secretvault.Fetch.{ConfirmRequest}
use joyvend_secretvault.Approver.{PendingReq, PendingApprover, confirm_enter}
use joyvend_secretvault.Approver.Steps.{
  Step, enter, select, finish, deliver, after, run_step, run_steps, run_steps_keep, lookup-run_step,
}

-- There is an entry, and it shows the credential, the method and the host that were asked.
abbrev pub Shows : Option PendingReq → ConfirmRequest → Type 0
Shows none asked = true ≡ false
Shows (some pr) asked =
    (pr.credential ≡ asked.credential) × (pr.method ≡ asked.method) × (pr.host ≡ asked.host)

after-Shows :
    (asked : ConfirmRequest) (x : Step) (o : Option PendingReq)
    → Shows o asked
    → Shows (after x o) asked
after-Shows asked x none h = cc
after-Shows asked (enter p id now r) (some pr) h = h
after-Shows asked (select w p) (some pr) h = h
after-Shows asked (finish p) (some pr) h = h
after-Shows asked (deliver p b) (some pr) h = h

pub run_steps-Shows :
    (steps : List Step) (s : PendingApprover) (ptr : Bytes) (asked : ConfirmRequest)
    → Shows (lookup ptr s.heap) asked
    → Shows (lookup ptr (run_steps steps s).heap) asked
run_steps-Shows steps s ptr asked h =
    run_steps_keep (λ o. Shows o asked) (after-Shows asked) steps s ptr h

pub confirm_enter-Shows :
    (ptr id : Bytes) (now : ℕ) (asked : ConfirmRequest) (s : PendingApprover)
    → lookup ptr s.heap ≡ none
    → Shows (lookup ptr (confirm_enter ptr id now asked s).heap) asked
unfolding run_step
confirm_enter-Shows ptr id now asked s fresh =
    rw (lookup-run_step (enter ptr id now asked) s ptr, bytes_eq_refl ptr, fresh) (refl, refl, refl)
