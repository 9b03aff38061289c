-- ===== src/Server/Approvals.antt =====
-- The pipeline behind the server's own approver: what a human has decided of a request that is sent.
use joyvend_secretvault.Shared.{◌≡◌, refl, Bool, true, Option, List, ◌∷◌, none, some}
use joyvend_secretvault.Text.{Bytes}
use joyvend_secretvault.Maps.{lookup}
use joyvend_secretvault.Net.{Url}
use joyvend_secretvault.Model.{Credential, confirm}
use joyvend_secretvault.Store.{lookup_credential}
use joyvend_secretvault.Fetch.{
  FetchRequest, ConfirmRequest, approved, Outgoing, classify_tier, request_method,
}
use joyvend_secretvault.Fetch.Pipeline.{fetch}
use joyvend_secretvault.Fetch.Sending.{IsAcceptable, fetch-IsAuthorised}
use joyvend_secretvault.Approver.{Phase, waiting, chosen, returned, PendingReq, confirm_enter}
use joyvend_secretvault.Approver.Steps.{Step, enter, run_step, run_steps}
use joyvend_secretvault.Approver.Decisions.{
  HasAnswer, first_decision, run_steps-first_decision_fresh,
}
use joyvend_secretvault.Approver.Showing.{Shows, run_steps-Shows, confirm_enter-Shows}
use joyvend_secretvault.Server.{Server, Env, store_of}
use joyvend_secretvault.Server.Handlers.{
  phase_answer, answer_at, confirm_answer, approver_after, server_world,
}

HasAnswer-phase_answer : (p : Phase) → phase_answer p ≡ approved → HasAnswer p approved
HasAnswer-phase_answer waiting e = cc
HasAnswer-phase_answer (chosen a) e = e
HasAnswer-phase_answer (returned a) e = e

answer_at_approved :
    (o : Option PendingReq)
    → answer_at o ≡ approved
    → (pr : PendingReq) × (o ≡ some pr) × HasAnswer pr.phase approved
answer_at_approved none e = cc
answer_at_approved (some pr) e = (pr, refl, HasAnswer-phase_answer pr.phase e)

-- The steps from the entering of the request on.
abbrev pub own_steps : Env → ConfirmRequest → List Step
own_steps env asked = enter env.pointer env.request_id env.asked_at asked ∷ env.steps

-- What a human was shown and decided first.
pub record WasApproved (env : Env) (s : Server) (asked : ConfirmRequest) : Type 0 where
  pub entry : PendingReq
  pub listed : lookup env.pointer (approver_after env (some asked) s.approver).heap ≡ some entry
  pub shown : Shows (some entry) asked
  pub decided : first_decision env.pointer (own_steps env asked) ≡ some true

confirm_answer-WasApproved :
    (env : Env) (s : Server) (asked : ConfirmRequest)
    → lookup env.pointer (run_steps env.before s.approver).heap ≡ none
    → confirm_answer env s.approver asked ≡ approved
    → WasApproved env s asked
unfolding confirm_answer run_steps run_step
confirm_answer-WasApproved env s asked fresh said =
    let start = run_steps env.before s.approver in
    let first = confirm_enter env.pointer env.request_id env.asked_at asked start in
    let (pr, listed, answered) =
      answer_at_approved (lookup env.pointer (run_steps env.steps first).heap) said in
    let shown =
      run_steps-Shows env.steps first env.pointer asked
        (confirm_enter-Shows env.pointer env.request_id env.asked_at asked start fresh) in
    record {
      entry = pr;
      listed = listed;
      shown = rw listed at shown;
      decided =
          run_steps-first_decision_fresh start (own_steps env asked) env.pointer pr fresh listed
            answered;
    }

-- A request with a stored credential that reaches the transport under a tier that asks: the credential
-- is enabled, the URL is acceptable for it, the entry
-- that the call has made at the approver shows the credential, the method and the canonical host of
-- the URL, and the first decision that was sent to that entry approved it; in every order of the steps
-- that others make at the approver. The pointer of the entry is a fresh one.
pub fetch-WasApproved :
    (env : Env) (s : Server) (fr : FetchRequest) (source : Bytes) (out : Outgoing) (c : Credential)
    (on : Bool)
    → lookup env.pointer (run_steps env.before s.approver).heap ≡ none
    → (fetch env.lib (server_world env s) fr source s.engine).sent ≡ some out
    → lookup_credential fr.credential (store_of s) ≡ some (c, on)
    → classify_tier c (request_method env.lib.parsers fr.method) ≡ confirm
    → (on ≡ true)
      × (target : Url) × (host : Bytes) × IsAcceptable env.lib.parsers c fr.url target host
      × WasApproved env s (record {
        credential = fr.credential;
        method = request_method env.lib.parsers fr.method;
        host = host;
      })
fetch-WasApproved env s fr source out c on fresh sent stored asks =
    let auth = fetch-IsAuthorised env.lib (server_world env s) fr source s.engine out sent in
    let same : auth.cred ≡ c = cc (auth.enabled, stored) in
    let said = auth.approved_if_asked (rw same asks) in
    (
      cc (auth.enabled, stored),
      auth.target,
      auth.host,
      rw (← same) auth.acceptable,
      confirm_answer-WasApproved env s _ fresh said,
    )
