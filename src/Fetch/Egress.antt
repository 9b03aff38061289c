-- ===== src/Fetch/Egress.antt =====
-- Which addresses a fetch can reach.
use joyvend_secretvault.Shared.{
  ◌≡◌, ap, ◌∙◌, sym, ◌⊎◌, inl, inr, Bool, true, false, not, ◌&&◌, ◌||◌, some, arith, any, length,
}
use joyvend_secretvault.Text.{Bytes}
use joyvend_secretvault.Net.{Ip, Parsers}
use joyvend_secretvault.Host.{host_allowed}
use joyvend_secretvault.Dial.{Deny, Resolver, is_denied_ip}
use joyvend_secretvault.Dial.Pinning.{IsPinned, resolve_and_pin-ok_iff}
use joyvend_secretvault.Dial.Ranges.{
  in_range, unmapped, always_denied, denied_unless_private, is_denied_ip_ranges,
}
use joyvend_secretvault.Model.{Credential}
use joyvend_secretvault.Store.{Library, lookup_credential}
use joyvend_secretvault.Fetch.{FetchRequest, Outgoing}
use joyvend_secretvault.Fetch.Pipeline.{Engine, World, fetch}
use joyvend_secretvault.Fetch.Sending.{fetch-IsAuthorised}

-- The address lies in no network that is closed to the credential.
abbrev pub IsOpen : Bool → Ip → Type 0
IsOpen private_too ip =
    (any (in_range (unmapped ip)) always_denied ≡ false)
    × ((not private_too && any (in_range (unmapped ip)) denied_unless_private) ≡ false)

IsPinned-admitted :
    (p : Parsers) (resolve : Resolver) (deny : Deny) (host : Bytes) (priv : Bool) (ip : Ip)
    → IsPinned p resolve deny host priv ip
    → deny (some ip) priv ≡ false
IsPinned-admitted p resolve deny host priv ip (inl (e, h)) = h
IsPinned-admitted p resolve deny host priv ip (inr (e, (rest, f, (h, hs)))) = h

is_denied_ip-IsOpen :
    (ip : Ip) (priv : Bool)
    → (length ip ≡ 4) ⊎ (length ip ≡ 16)
    → is_denied_ip (some ip) priv ≡ false
    → IsOpen priv ip
is_denied_ip-IsOpen ip priv size h = neither _ _ (sym (is_denied_ip_ranges ip priv size) ∙ h)
  where
    neither : (a b : Bool) → (a || b) ≡ false → (a ≡ false) × (b ≡ false)
    neither a b none = (ground arith, ground arith)

module _ (lib : Library) (w : World) (fr : FetchRequest) (source : Bytes) (e : Engine) where
  -- Where a request goes: for an enabled credential, to a host on its allowlist.
  pub record Reaches (out : Outgoing) : Type 0 where
    pub cred : Credential
    pub enabled : lookup_credential fr.credential e.store ≡ some (cred, true)
    pub host : Bytes
    pub on_list : host_allowed lib.parsers host cred.allow_hosts ≡ true
    pub from_host : IsPinned lib.parsers w.resolve w.deny_ip host cred.allow_priv out.pinned
    pub is_open : IsOpen cred.allow_priv out.pinned

  -- With the address policy of production, whatever the resolver answers and at whatever time: the
  -- address that a request is sent to is the one that its host is, or the first one that its host, which
  -- is on the allowlist of the enabled credential, resolves to where none of them is denied; and it
  -- lies neither in a loopback, link-local, multicast, unspecified or NAT64 network, nor in a private one
  -- unless the credential allows those.
  pub fetch-Reaches :
      (out : Outgoing)
      → w.deny_ip ≡ is_denied_ip
      → (length out.pinned ≡ 4) ⊎ (length out.pinned ≡ 16)
      → (fetch lib w fr source e).sent ≡ some out
      → Reaches out
  fetch-Reaches out production size sent =
      let h = fetch-IsAuthorised lib w fr source e out sent in
      let pinned =
        (resolve_and_pin-ok_iff lib.parsers w.resolve w.deny_ip h.host h.cred.allow_priv
            out.pinned).0
          h.pinned in
      let admitted =
        IsPinned-admitted lib.parsers w.resolve w.deny_ip h.host h.cred.allow_priv out.pinned
          pinned in
      record {
        cred = h.cred;
        enabled = h.enabled;
        host = h.host;
        on_list = h.on_list;
        from_host = pinned;
        is_open =
            is_denied_ip-IsOpen out.pinned h.cred.allow_priv size (
              sym (ap (λ (d : Deny). d (some out.pinned) h.cred.allow_priv) production) ∙ admitted);
      }
