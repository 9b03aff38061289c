-- ===== src/Approver.antt =====
-- internal/server/approver.go: the requests that wait for a human, each a blocked call of `Confirm`,
-- and the decisions. A *pendingReq is known by its pointer, so that a decision can still reach a
-- request that has left the map. A channel of one place is an `Option`.
pub mod Steps
pub mod Decisions
pub mod Showing
pub mod Listing
pub mod Diagram
pub mod Ending
pub mod Asking
pub mod Lists
use joyvend_secretvault.Shared.{
  ℕ, Bool, true, false, Option, none, some, List, [], ◌∷◌, if◌then◌else◌,
}
use joyvend_secretvault.Text.{Bytes, bytes_eq}
use joyvend_secretvault.Maps.{Map, lookup, insert, erase}
use joyvend_secretvault.Fetch.{ConfirmRequest, Approval, approved, refused, failed}

-- Where a call of `Confirm` stands: in the `select`, behind it, or returned.
pub data Phase : Type 0 where
  waiting : Phase
  chosen returned : Approval → Phase

pub record PendingReq : Type 0 where
  pub id : Bytes
  pub credential : Bytes
  pub method : Bytes
  pub host : Bytes
  pub created : ℕ
  pub channel : Option Bool
  pub phase : Phase

-- The map from IDs to pointers, and what stands at the pointers.
pub record PendingApprover : Type 0 where
  pub pending : Map Bytes
  pub heap : Map PendingReq

-- newPendingApprover
abbrev pub no_requests : PendingApprover
no_requests = record { pending = []; heap = [] }

abbrev pub new_request : Bytes → ℕ → ConfirmRequest → PendingReq
new_request id now r = record {
  id = id;
  credential = r.credential;
  method = r.method;
  host = r.host;
  created = now;
  channel = none;
  phase = waiting;
}

-- `Confirm` up to the `select`, with the pointer that the allocation gives and the ID of `randID`.
-- A pointer that is in use is never given.
unfoldable pub confirm_enter :
    Bytes → Bytes → ℕ → ConfirmRequest → PendingApprover → PendingApprover
unfolding lookup insert
confirm_enter ptr id now r s = elim (lookup ptr s.heap) [
  | some used ↦ s
  | none ↦ record {
    pending = insert id ptr s.pending;
    heap = insert ptr (new_request id now r) s.heap;
  }
]

-- The cases of the `select`.
pub data Wake : Type 0 where
  decision timer context_done : Wake

abbrev pub answer : Bool → Approval
answer true = approved
answer false = refused

-- What a ready case makes of the request. A case that is not ready changes nothing.
unfoldable pub wake : Wake → Phase → Option Bool → Phase × Option Bool
wake decision waiting (some ok) = (chosen (answer ok), none)
wake timer waiting c = (chosen refused, c)
wake context_done waiting c = (chosen failed, c)
wake w phase c = (phase, c)

unfoldable pub confirm_select : Wake → Bytes → PendingApprover → PendingApprover
unfolding lookup insert wake
confirm_select w ptr s = elim (lookup ptr s.heap) [
  | none ↦ s
  | some pr ↦
      let (phase, c) = wake w pr.phase pr.channel in
      record s { heap = insert ptr (record pr { phase = phase; channel = c }) s.heap }
]

-- Behind the `select`: the deferred delete, and the return.
unfoldable pub leave : Bytes → PendingReq → Phase → PendingApprover → PendingApprover
unfolding insert erase
leave ptr pr (chosen a) s = record {
  pending = erase pr.id s.pending;
  heap = insert ptr (record pr { phase = returned a }) s.heap;
}
leave ptr pr phase s = s

unfoldable pub confirm_return : Bytes → PendingApprover → PendingApprover
unfolding lookup leave
confirm_return ptr s = elim (lookup ptr s.heap) [ none ↦ s | some pr ↦ leave ptr pr pr.phase s ]

-- The `select` of `decide`: a send that does not block.
unfoldable pub offer : Bool → Option Bool → Option Bool × Bool
offer approve none = (some approve, true)
offer approve (some earlier) = (some earlier, false)

-- `decide` behind its lookup, which has found the pointer.
unfoldable pub send : Bytes → Bool → PendingApprover → PendingApprover × Bool
unfolding lookup insert offer
send ptr approve s = elim (lookup ptr s.heap) [
  | none ↦ (s, false)
  | some pr ↦
      let (c, sent) = offer approve pr.channel in
      (record s { heap = insert ptr (record pr { channel = c }) s.heap }, sent)
]

-- decide, where nothing happens between its lookup and its send.
unfoldable pub decide : Bytes → Bool → PendingApprover → PendingApprover × Bool
unfolding lookup send
decide id approve s = elim (lookup id s.pending) [
  | none ↦ (s, false)
  | some ptr ↦ send ptr approve s
]

-- What `list` copies of a request: all but the channel.
pub record PendingView : Type 0 where
  pub id : Bytes
  pub credential : Bytes
  pub method : Bytes
  pub host : Bytes
  pub created : ℕ

abbrev pub view : PendingReq → PendingView
view pr = record {
  id = pr.id;
  credential = pr.credential;
  method = pr.method;
  host = pr.host;
  created = pr.created;
}

abbrev pub viewed : Option PendingReq → List PendingView → List PendingView
viewed none later = later
viewed (some pr) later = view pr ∷ later

-- The loop of `list` over the map.
unfoldable pub list_from : Map PendingReq → Map Bytes → List PendingView
unfolding lookup
list_from heap [] = []
list_from heap ((id, ptr) ∷ pending) = viewed (lookup ptr heap) (list_from heap pending)

unfoldable pub list_pending : PendingApprover → List PendingView
unfolding list_from
list_pending s = list_from s.heap s.pending
