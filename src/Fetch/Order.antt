-- ===== src/Fetch/Order.antt =====
-- A fetch under another order in which Go's loops range over the agent's headers.
use mathlib.Core.Logic.{∥∥₁_elim}
use mathlib.Core.List.{Perm, Permᴰ}
use joyvend_secretvault.Shared.{◌≡◌, refl, ◌∙◌, Bool, true, false, ◌||◌, some, List, ◌++◌, any}
use joyvend_secretvault.Text.{Bytes, text, contains}
use joyvend_secretvault.Codec.{replace_all}
use joyvend_secretvault.Maps.{Map}
use joyvend_secretvault.Model.{AuthType, bearer, header, basic, custom, unknown, Credential}
use joyvend_secretvault.Auth.{
  Header, authorization, placeholder, basic_token, inject_as, inject_auth, inject_header_name,
}
use joyvend_secretvault.Auth.Order.{
  SameHeaders, Consistent, as_set-exact, set_header-SameHeaders, build_headers-Perm,
}
use joyvend_secretvault.Store.{Library}
use joyvend_secretvault.Fetch.{FetchRequest, Outgoing, request_body, outbound_contains_secret}
use joyvend_secretvault.Fetch.Pipeline.{Engine, World, fetch}
use joyvend_secretvault.Fetch.Sending.{IsAuthorised}
use joyvend_secretvault.Fetch.Authorising.{fetch-IsAuthorised_iff}

inject_as-SameHeaders :
    (t : AuthType) (c : Credential) (h h' : Header)
    → SameHeaders h h'
    → SameHeaders (inject_as t c h).0 (inject_as t c h').0
unfolding inject_as
inject_as-SameHeaders bearer c h h' same =
    set_header-SameHeaders authorization (text "Bearer " ++ c.secret) h h' same
inject_as-SameHeaders header c h h' same = set_header-SameHeaders c.header_name c.secret h h' same
inject_as-SameHeaders basic c h h' same =
    set_header-SameHeaders authorization (text "Basic " ++ basic_token c) h h' same
inject_as-SameHeaders custom c h h' same =
    set_header-SameHeaders authorization (replace_all c.template placeholder c.secret) h h' same
inject_as-SameHeaders (unknown t) c h h' same = same

inject_auth-SameHeaders :
    (c : Credential) (h h' : Header)
    → SameHeaders h h'
    → SameHeaders (inject_auth c h).0 (inject_auth c h').0
unfolding inject_auth
inject_auth-SameHeaders c h h' same = inject_as-SameHeaders c.auth_type c h h' same

any-Permᴰ : {A : Type 0} (p : A → Bool) {xs ys : List A} → Permᴰ xs ys → any p xs ≡ any p ys
any-Permᴰ p Permᴰ.nil = refl
any-Permᴰ p (Permᴰ.cons e d) = rw (e, any-Permᴰ p d) refl
any-Permᴰ p (Permᴰ.swap {a = a} {b = b} {l = l} e f) = rw (← e, ← f) (swapped (p a) (p b) (any p l))
  where
    swapped : (x y z : Bool) → (x || (y || z)) ≡ (y || (x || z))
    swapped true true z = refl
    swapped true false z = refl
    swapped false y z = refl
any-Permᴰ p (Permᴰ.trans d e) = any-Permᴰ p d ∙ any-Permᴰ p e

any-Perm : {A : Type 0} (p : A → Bool) {xs ys : List A} → Perm xs ys → any p xs ≡ any p ys
any-Perm p d = let set : IsSet Bool = hlevel in ∥∥₁_elim d (set _ _) (any-Permᴰ p)

-- The request with its headers in another order.
abbrev pub with_headers : Map Bytes → FetchRequest → FetchRequest
with_headers hs fr = record fr { headers = hs }

outbound-Perm :
    (c : Credential) (fr : FetchRequest) (hs : Map Bytes) (body : Bytes)
    → Perm fr.headers hs
    → outbound_contains_secret c (with_headers hs fr) body ≡ outbound_contains_secret c fr body
unfolding outbound_contains_secret
outbound-Perm c fr hs body d = rw (any-Perm (λ (kv : Bytes × Bytes). contains kv.1 c.secret) d) refl

-- The same request up to the order of its headers.
abbrev pub SameRequest : Outgoing → Outgoing → Type 0
SameRequest out out' =
    (out'.method ≡ out.method)
    × (out'.address ≡ out.address)
    × (out'.body ≡ out.body)
    × (out'.pinned ≡ out.pinned)
    × SameHeaders out.header out'.header

module _ (lib : Library) (w : World) (fr : FetchRequest) (source : Bytes) (e : Engine)
    (hs : Map Bytes) (turned : Perm fr.headers hs) (consistent : Consistent fr.headers) where
  IsAuthorised-Perm :
      (out : Outgoing)
      → IsAuthorised lib w fr source e out
      → (out' : Outgoing) × IsAuthorised lib w (with_headers hs fr) source e out'
        × SameRequest out out'
  unfolding request_body
  IsAuthorised-Perm out h =
      let built =
        build_headers-Perm lib.parsers.unicode (inject_header_name h.cred) fr.headers hs turned
          consistent in
      let (left, filtered, same) = as_set-exact _ _ h.agent_headers built h.filtered in
      let out' : Outgoing = record out { header = (inject_auth h.cred left).0 } in
      (
        out',
        record {
          cred = h.cred;
          enabled = h.enabled;
          not_expired = h.not_expired;
          target = h.target;
          host = h.host;
          acceptable = h.acceptable;
          same_method = h.same_method;
          same_address = h.same_address;
          well_formed = h.well_formed;
          on_list = h.on_list;
          pinned = h.pinned;
          not_denied = h.not_denied;
          approved_if_asked = h.approved_if_asked;
          within_rate = h.within_rate;
          same_body = h.same_body;
          keeps_secret = outbound-Perm h.cred fr hs out.body turned ∙ h.keeps_secret;
          agent_headers = left;
          filtered = filtered;
          authenticated = refl;
        },
        (
          refl,
          refl,
          refl,
          refl,
          rw h.authenticated (inject_auth-SameHeaders h.cred h.agent_headers left same),
        ),
      )

  -- Whatever order Go ranges over the agent's headers in: a request that is sent in one order is sent
  -- in the other, the same but for the order of its headers; provided that no two of the agent's names
  -- that stand for the same header, as X-A and x-a do, come with different values.
  pub fetch-Perm :
      (out : Outgoing)
      → (fetch lib w fr source e).sent ≡ some out
      → (out' : Outgoing) × ((fetch lib w (with_headers hs fr) source e).sent ≡ some out')
        × SameRequest out out'
  fetch-Perm out sent =
      let (out', h, same) =
        IsAuthorised-Perm out ((fetch-IsAuthorised_iff lib w fr source e out).0 sent) in
      (out', (fetch-IsAuthorised_iff lib w (with_headers hs fr) source e out').1 h, same)
