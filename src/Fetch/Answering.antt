-- ===== src/Fetch/Answering.antt =====
-- What the agent gets of an upstream that answers in the open.
use joyvend_secretvault.Shared.{
  ℕ, zero, suc, ◌+◌, ◌≤◌, ◌≡◌, refl, ap, inl, inr, true, false, none, some, List, [], ◌∷◌, arith,
  ltb, length, take, take_of_le, length-take, Bool-cases,
}
use joyvend_secretvault.Text.{Bytes}
use joyvend_secretvault.Auth.{inject_auth}
use joyvend_secretvault.Reflect.{secret_needles, contains_any}
use joyvend_secretvault.Store.{Library}
use joyvend_secretvault.Fetch.{
  FetchRequest, Upstream, Outgoing, is_opaque, response_cap, read_capped,
}
use joyvend_secretvault.Fetch.Pipeline.{
  Engine, World, Outcome, Admitted, receive, forward, proceed, fetch, conclude_ok,
}
use joyvend_secretvault.Fetch.Sending.{IsAuthorised, the_method}
use joyvend_secretvault.Fetch.Authorising.{admitted, admit_complete, prepare_complete}

take-take_le {ℓ} : {A : Type ℓ} (n m : ℕ) (xs : List A) → n ≤ m → take n (take m xs) ≡ take n xs
take-take_le zero m xs h = refl
take-take_le (suc n) zero xs h = absurd (omega arith)
take-take_le (suc n) (suc m) [] h = refl
take-take_le (suc n) (suc m) (x ∷ xs) h = ap (λ l. x ∷ l) (take-take_le n m xs (omega arith))

pub read_capped_lem :
    (body : Bytes) (max : ℕ) → read_capped body max ≡ (take max body, ltb max (length body))
unfolding read_capped
read_capped_lem body max =
    let size = length-take (max + 1) body in
    elim (Bool-cases (ltb max (length body))) [
      | inl long ↦
          let cut : ltb max (length (take (max + 1) body)) ≡ true = ground arith in
          rw (cut, long, take-take_le max (max + 1) body (omega arith)) refl
      | inr short ↦
          let whole : take (max + 1) body ≡ body = take_of_le (max + 1) body (ground arith) in
          let kept : take max body ≡ body = take_of_le max body (ground arith) in
          rw (whole, short, kept) refl
    ]

module _ (lib : Library) (w : World) (fr : FetchRequest) (source : Bytes) (e : Engine) where
  -- The answer, cut at the limit, in a successful outcome.
  abbrev pub Answers : Upstream → Outcome → Type 0
  Answers resp o =
      let cap = response_cap fr.max_response_bytes in
      (o.error ≡ none)
      × (o.response.status ≡ resp.status)
      × (o.response.body ≡ take cap resp.body)
      × (o.response.truncated ≡ ltb cap (length resp.body))

  forward-Answers :
      (a : Admitted) (out : Outgoing) (injected : List Bytes) (resp : Upstream) (e' : Engine)
      → w.round_trip out ≡ some resp
      → is_opaque resp.headers ≡ false
      → contains_any (take (response_cap fr.max_response_bytes) resp.body) (secret_needles injected)
        ≡ false
      → Answers resp (forward lib w fr source (the_method lib w fr source e) a (out, injected) e')
  unfolding forward receive conclude_ok
  forward-Answers a out injected resp e' answer plain clean =
      rw
        (
          answer,
          plain,
          read_capped_lem resp.body (response_cap fr.max_response_bytes),
          clean,
          forward,
          receive,
        )
        (refl, refl, refl, refl)

  -- An authorised request that is answered gives the agent that answer: no error, the upstream's
  -- status, its body up to the limit of the request or of the engine, and whether that has cut it;
  -- if the body comes in a coding that the scan can read and the scan finds no needle in what is left
  -- of it.
  pub fetch-Answers :
      (out : Outgoing) (resp : Upstream) (h : IsAuthorised lib w fr source e out)
      → w.round_trip out ≡ some resp
      → is_opaque resp.headers ≡ false
      → contains_any
          (take (response_cap fr.max_response_bytes) resp.body)
          (secret_needles (inject_auth h.cred h.agent_headers).1)
        ≡ false
      → Answers resp (fetch lib w fr source e)
  unfolding fetch proceed
  fetch-Answers out resp h answer plain clean =
      let (d, a) = admit_complete lib w fr source e out h in
      let p = prepare_complete lib w fr source e out h d in
      rw (a, h.within_rate, p, fetch, proceed)
        (forward-Answers (admitted lib w fr source e out h d) out _ resp _ answer plain clean)
