-- ===== src/Server/Handlers.antt =====
-- The handlers of internal/server/server.go.
use joyvend_secretvault.Shared.{
  ℕ, Bool, true, false, Option, none, some, [], take, if◌then◌else◌, Result, ok, err,
}
use joyvend_secretvault.Text.{Bytes, text}
use joyvend_secretvault.Maps.{lookup}
use joyvend_secretvault.Model.{
  CredentialMeta, Credential, Tier, unset, confirm, unknown, FetchError, error_code, error_status,
}
use joyvend_secretvault.Fetch.{
  FetchRequest, FetchResponse, ConfirmRequest, Approval, approved, failed, Stop, request_method,
}
use joyvend_secretvault.Fetch.Pipeline.{World, Admitted, admit, fetch}
use joyvend_secretvault.Store.{Store, StoreError, put, delete, enable, meta, list_meta}
use joyvend_secretvault.Store.Audit.{audit_log, verify_audit, AuditBreak}
use joyvend_secretvault.Approver.{
  Phase, waiting, chosen, returned, PendingReq, PendingApprover, confirm_enter, list_pending,
  decide,
}
use joyvend_secretvault.Approver.Steps.{run_steps}
use joyvend_secretvault.Http.{Request}
use joyvend_secretvault.Server.{
  Server, Response, Reply, fetch_failure, fetched, credentials, stored, deleted, audit_ok, decided,
  enabled, audit, audit_broken, pending, health, root_page, guide, Env, Handler, store_of,
  with_store, write_err, write_json,
}

abbrev pub phase_answer : Phase → Approval
phase_answer waiting = failed
phase_answer (chosen a) = a
phase_answer (returned a) = a

abbrev pub answer_at : Option PendingReq → Approval
answer_at none = failed
answer_at (some pr) = phase_answer pr.phase

abbrev is_confirm : Tier → Bool
is_confirm confirm = true
is_confirm _ = false

module _ (env : Env) where
  -- The approver with the request of the call, if it asks for an approval.
  abbrev pub entered : Option ConfirmRequest → PendingApprover → PendingApprover
  entered none a = a
  entered (some asked) a = confirm_enter env.pointer env.request_id env.asked_at asked a

  abbrev pub approver_after : Option ConfirmRequest → PendingApprover → PendingApprover
  approver_after asked a = run_steps env.steps (entered asked (run_steps env.before a))

  -- What `Confirm` gives back to this call. The steps reach to the end of the call; with steps that do
  -- not, it fails.
  unfoldable pub confirm_answer : PendingApprover → ConfirmRequest → Approval
  unfolding lookup
  confirm_answer a asked = answer_at (lookup env.pointer (approver_after (some asked) a).heap)

  -- The world of the server's engine: its approver is the server's.
  abbrev pub server_world : Server → World
  server_world s = record (env.world) { confirm_with = confirm_answer s.approver }

  abbrev asked_of : FetchRequest → Result Stop Admitted → Option ConfirmRequest
  asked_of fr (err stop) = none
  asked_of fr (ok a) =
      if is_confirm a.tier
      then some (record {
        credential = fr.credential;
        method = request_method env.lib.parsers fr.method;
        host = a.host;
      })
      else none

  -- What the call asks for, if it comes so far: what it would ask if every approval were given.
  unfoldable pub asked_by : FetchRequest → Server → Option ConfirmRequest
  unfolding admit request_method
  asked_by fr s = asked_of fr (
      admit env.lib (record (env.world) { confirm_with = λ asked. approved }) fr (store_of s)
        (request_method env.lib.parsers fr.method))

  unfoldable pub write_outcome : Option FetchError → FetchResponse → Response
  write_outcome (some e) resp =
      write_json (error_status e) (fetch_failure (error_code e) resp.audit_id)
  write_outcome none resp = write_json 200 (fetched resp)

  -- 8 << 20 and 1 << 20
  abbrev pub max_fetch_body : ℕ
  max_fetch_body = 8_388_608

  abbrev pub max_put_body : ℕ
  max_put_body = 1_048_576

  unfoldable pub run_fetch : Request → FetchRequest → Handler
  unfolding write_outcome asked_by
  run_fetch r fr s =
      let o = fetch env.lib (server_world s) fr r.remote_addr s.engine in
      (
        record s { engine = o.engine; approver = approver_after (asked_by fr s) s.approver },
        write_outcome o.error o.response,
      )

  -- A body that is too long ends in an error of the reader, so the decoder sees its beginning.
  unfoldable pub handle_fetch : Request → Handler
  unfolding run_fetch
  handle_fetch r s = elim (env.decode_fetch (take max_fetch_body r.body)) [
    | none ↦ (s, write_err 400 (text "bad_request"))
    | some fr ↦ run_fetch r fr s
  ]

  unfoldable pub handle_list : Handler
  handle_list s = (s, write_json 200 (credentials (list_meta env.lib (store_of s))))

  -- The metadata of a name that is not there.
  abbrev pub zero_meta : CredentialMeta
  zero_meta = record {
    name = [];
    auth_type = unknown [];
    allow_hosts = [];
    read_tier = unset;
    write_tier = unset;
    enabled = false;
    expires_at = none;
    fingerprint = [];
    created_at = 0;
  }

  abbrev meta_or_zero : Result StoreError CredentialMeta → CredentialMeta
  meta_or_zero (ok m) = m
  meta_or_zero (err e) = zero_meta

  unfoldable pub stored_reply : Bytes → Store → Option StoreError → Response
  stored_reply name st (some e) = write_err 400 (env.describe e)
  stored_reply name st none = write_json 200 (stored (meta_or_zero (meta env.lib name st)))

  unfoldable pub run_put : Bytes → Credential → Handler
  unfolding stored_reply
  run_put name c s =
      let (st, e) = put env.lib env.io env.now name (some c) (store_of s) in
      (with_store st s, stored_reply name st e)

  unfoldable pub handle_put : Request → Handler
  unfolding run_put
  handle_put r s = elim (env.decode_put (take max_put_body r.body)) [
    | none ↦ (s, write_err 400 (text "bad_request"))
    | some (name, c) ↦ run_put name c s
  ]

  -- Any error of the store is a 404 here.
  abbrev or_not_found : Option StoreError → Reply → Response
  or_not_found (some e) done = write_err 404 (text "not_found")
  or_not_found none done = write_json 200 done

  unfoldable pub handle_delete : Bytes → Handler
  handle_delete name s =
      let (st, e) = delete env.lib env.io name (store_of s) in
      (with_store st s, or_not_found e deleted)

  unfoldable pub handle_enable : Request → Bytes → Handler
  handle_enable r name s =
      let on = env.decode_on r.body in
      let (st, e) = enable name on (store_of s) in (with_store st s, or_not_found e (enabled on))

  unfoldable pub handle_audit : Handler
  handle_audit s = (s, write_json 200 (audit (audit_log (store_of s))))

  abbrev verify_reply : Option AuditBreak → Reply
  verify_reply none = audit_ok
  verify_reply (some b) = audit_broken b

  unfoldable pub handle_audit_verify : Handler
  handle_audit_verify s = (s, write_json 200 (verify_reply (verify_audit env.lib (store_of s))))

  unfoldable pub handle_pending : Handler
  handle_pending s = (s, write_json 200 (pending (list_pending s.approver)))

  -- `decide` in one step; what can happen inside it is in Approver/Ending.
  unfoldable pub handle_decide : Request → Bytes → Handler
  handle_decide r id s =
      let (a, sent) = decide id (env.decode_approve r.body) s.approver in
      (
        record s { approver = a },
        if sent then write_json 200 decided else write_err 404 (text "no_such_pending"),
      )

  unfoldable pub handle_health : Handler
  handle_health s = (s, write_json 200 (health s.opt.enable_lan))

  unfoldable pub handle_root : Handler
  handle_root s = (s, write_json 200 root_page)

  -- internal/server/guide.go
  unfoldable pub handle_guide : Handler
  handle_guide s = (s, write_json 200 guide)
