-- ===== src/Http.antt =====
-- What the handlers use of Go's package `net/http`: requests, and the multiplexer with its patterns.
-- A path is the list of its segments, after unescaping; `ServeMux` sends a client whose path is not
-- clean elsewhere before it matches anything, so paths are clean here.
use joyvend_secretvault.Shared.{
  ℕ, ◌≡◌, refl, Bool, true, ◌&&◌, ◌||◌, Bool-cases, inl, inr, Option, none, some, List, [], ◌∷◌,
  ◌++◌, if◌then◌else◌, any, is_empty, is_some, All,
}
use joyvend_secretvault.Text.{Bytes, text, bytes_eq}
use joyvend_secretvault.Maps.{Map}
use joyvend_secretvault.Auth.{Header}

pub record Request : Type 0 where
  pub method : Bytes
  pub path : List Bytes
  pub headers : Header
  pub cookies : Map Bytes
  pub remote_addr : Bytes
  pub body : Bytes

abbrev pub get : Bytes
get = text "GET"

abbrev pub post : Bytes
post = text "POST"

-- A part of a pattern; `below` is the slash at the end, which matches whatever follows it.
pub data Segment : Type 0 where
  lit : Bytes → Segment
  wild below : Segment

-- The values of the wildcards, if the pattern matches.
unfoldable pub match_path : List Segment → List Bytes → Option (List Bytes)
unfolding bytes_eq
match_path [] [] = some []
match_path [] (x ∷ path) = none
match_path (seg ∷ segs) [] = none
match_path (lit s ∷ segs) (x ∷ path) = if bytes_eq s x then match_path segs path else none
match_path (wild ∷ segs) (x ∷ path) =
    if is_empty x
    then none
    else (elim (match_path segs path) [ none ↦ none | some vs ↦ some (x ∷ vs) ])
match_path (below ∷ segs) (x ∷ path) = some []

-- A pattern with a method, or with none, and its handler, which is given the wildcards' values.
pub record Route (A : Type 0) : Type 0 where
  pub method : Option Bytes
  pub pattern : List Segment
  pub handler : List Bytes → A

-- GET also admits HEAD.
abbrev pub admits : Option Bytes → Bytes → Bool
admits none m = true
admits (some want) m = bytes_eq want m || (bytes_eq want get && bytes_eq m (text "HEAD"))

abbrev pub method_allows : {A : Type 0} → Route A → Bytes → Bool
method_allows rt m = admits rt.method m

module _ {A : Type 0} where
  abbrev or_next : Route A → Bool → Option (List Bytes) → Option A → Option A
  or_next rt true (some vs) later = some (rt.handler vs)
  or_next rt allowed found later = later

  -- The handler of the route that matches. No two routes of one multiplexer match the same request.
  unfoldable pub find_route : List (Route A) → Bytes → List Bytes → Option A
  unfolding bytes_eq match_path
  find_route [] m path = none
  find_route (rt ∷ routes) m path =
      or_next rt (method_allows rt m) (match_path rt.pattern path) (find_route routes m path)

  abbrev pub has_path : List (Route A) → List Bytes → Bool
  has_path routes path = any (λ rt. is_some (match_path rt.pattern path)) routes

  -- Without a route: 405 if only the method is wrong, a redirect if a slash is missing, or 404.
  unfoldable pub miss_status : List (Route A) → List Bytes → ℕ
  unfolding match_path
  miss_status routes path =
      if has_path routes path then 405 else if has_path routes (path ++ [] ∷ []) then 301 else 404

  unfoldable pub serve_mux : List (Route A) → (ℕ → A) → Bytes → List Bytes → A
  unfolding find_route miss_status
  serve_mux routes miss m path = elim (find_route routes m path) [
    | some h ↦ h
    | none ↦ miss (miss_status routes path)
  ]

  -- What holds of every handler that the method allows, and of every miss, holds of what is served.
  module _ (P : A → Type 0) where
    abbrev pub Allowed : Bytes → Route A → Type 0
    Allowed m rt = method_allows rt m ≡ true → (vs : List Bytes) → P (rt.handler vs)

    find_route-All :
        (routes : List (Route A)) (m : Bytes) (path : List Bytes) (h : A)
        → All (Allowed m) routes
        → find_route routes m path ≡ some h
        → P h
    unfolding find_route
    find_route-All [] m path h p e = cc
    find_route-All (rt ∷ routes) m path h (p, ps) e = elim (Bool-cases (method_allows rt m)) [
      | inr f ↦ find_route-All routes m path h ps (rw f at e)
      | inl t ↦
          found (match_path rt.pattern path) (p t) (find_route-All routes m path h ps) (rw t at e)
    ]
      where
        found :
            (o : Option (List Bytes))
            → ((vs : List Bytes) → P (rt.handler vs))
            → (find_route routes m path ≡ some h → P h)
            → or_next rt true o (find_route routes m path) ≡ some h
            → P h
        found (some vs) here later q = let same : rt.handler vs ≡ h = cc in rw (← same) (here vs)
        found none here later q = later q

    pub serve_mux-All :
        (routes : List (Route A)) (miss : ℕ → A) (m : Bytes) (path : List Bytes)
        → All (Allowed m) routes
        → ((code : ℕ) → P (miss code))
        → P (serve_mux routes miss m path)
    unfolding serve_mux
    serve_mux-All routes miss m path ps missed =
        served (find_route routes m path) (find_route-All routes m path)
      where
        served :
            (o : Option A)
            → ((h : A) → All (Allowed m) routes → o ≡ some h → P h)
            → P (elim o [ some h ↦ h | none ↦ miss (miss_status routes path) ])
        served (some h) find = find h ps refl
        served none find = missed (miss_status routes path)
