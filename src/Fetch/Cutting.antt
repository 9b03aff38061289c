-- ===== src/Fetch/Cutting.antt =====
-- `Fetch` behind the round trip: the scan of a response, and the limit on its size before it.
use joyvend_secretvault.Shared.{
  ℕ, ◌+◌, ◌≤◌, ◌<◌, ◌≡◌, refl, true, false, some, List, ◌++◌, arith, length, take, take_of_le,
  length-take, is_empty, pos, Any, All, ok, err,
}
use joyvend_secretvault.Text.{Bytes}
use joyvend_secretvault.Model.{err_reflect}
use joyvend_secretvault.Reflect.{secret_needles, contains_any}
use joyvend_secretvault.Reflect.Guarding.{plain, contains_any-secret_needles}
use joyvend_secretvault.Reflect.Short.{IsLong, contains_any_short}
use joyvend_secretvault.Store.{Library}
use joyvend_secretvault.Fetch.{
  FetchRequest, FetchResponse, Upstream, fail, is_opaque, response_cap, engine_max_bytes,
}
use joyvend_secretvault.Fetch.Pipeline.{World, Admitted, receive}
use joyvend_secretvault.Fetch.Answering.{read_capped_lem}

-- The request with this limit on the body.
abbrev pub limited_to : ℕ → FetchRequest → FetchRequest
limited_to n fr = record fr { max_response_bytes = pos n }

module _ (lib : Library) (w : World) (fr : FetchRequest) (a : Admitted)
    (injected : List Bytes) where
  receive_clean :
      (resp : Upstream) (n : ℕ)
      → is_opaque resp.headers ≡ false
      → response_cap fr.max_response_bytes ≡ n
      → contains_any (take n resp.body) (secret_needles injected) ≡ false
      → (answer : FetchResponse) × (receive lib w fr a injected (some resp) ≡ ok answer)
        × (answer.body ≡ take n resp.body)
  unfolding receive
  receive_clean resp n readable cap clean =
      rw (readable, cap, read_capped_lem resp.body n, clean, receive) (_, refl, refl)

  receive_caught :
      (resp : Upstream)
      → is_opaque resp.headers ≡ false
      → contains_any (take (response_cap fr.max_response_bytes) resp.body) (secret_needles injected)
        ≡ true
      → receive lib w fr a injected (some resp) ≡ err (fail a.host err_reflect)
  unfolding receive
  receive_caught resp readable caught =
      rw (readable, read_capped_lem resp.body (response_cap fr.max_response_bytes), caught, receive)
        refl

-- A response whose body holds an injected value of at least six bytes, and fits the limit, is refused
-- by the reflect-guard. But if the agent asks for the same response with a limit below the length of
-- every injected value, the agent gets the body cut at that limit, with whatever part of the value is
-- in it.
pub receive-limited_to :
    (lib : Library) (w : World) (fr : FetchRequest) (a : Admitted) (injected : List Bytes)
    (resp : Upstream) (v pre post : Bytes) (n : ℕ)
    → is_opaque resp.headers ≡ false
    → resp.body ≡ pre ++ (v ++ post)
    → Any (λ x. x ≡ v) injected
    → 6 ≤ length v
    → length resp.body ≤ response_cap fr.max_response_bytes
    → All (IsLong (n + 1)) injected
    → 0 < n
    → n < engine_max_bytes
    → (receive lib w fr a injected (some resp) ≡ err (fail a.host err_reflect))
      × ((answer : FetchResponse) × (receive lib w (limited_to n fr) a injected (some resp)
            ≡ ok answer)
          × (answer.body ≡ take n resp.body))
receive-limited_to lib w fr a injected resp v pre post n readable body there size fits long
      some_byte small =
    let whole : take (response_cap fr.max_response_bytes) resp.body ≡ resp.body =
      take_of_le (response_cap fr.max_response_bytes) resp.body fits in
    let full : is_empty v ≡ false = ground arith in
    let caught = contains_any-secret_needles plain v pre post injected there full size in
    let cap : response_cap (pos n) ≡ n = ground arith in
    let clean : contains_any (take n resp.body) (secret_needles injected) ≡ false =
      contains_any_short (n + 1) (take n resp.body) injected
        (omega (arith, length-take n resp.body)) long in
    (
      receive_caught lib w fr a injected resp readable (rw whole (rw body caught)),
      receive_clean lib w (limited_to n fr) a injected resp n readable cap clean,
    )
