-- ===== src/Routing.antt =====
-- internal/proxy/gateway.go: which route a request's path selects, and the URL that the request has
-- when it leaves for a backend. `escaped_path` stands for `(*url.URL).EscapedPath` of net/url.
pub mod Prefixes
pub mod Matching
pub mod Joining
mod Tests
use gatex.Prelude.{
  ℕ, ◌+◌, Bool, true, false, ◌||◌, List, [], ◌∷◌, ◌++◌, Option, none, some, ltb, if◌then◌else◌,
  length,
}
use gatex.Prelude.Text.{Text, bytes, text_eq, has_prefix, trim_left, trim_right}
use gatex.Prelude.Int.{ℤ, is_neg, is_zero}

-- The byte `/`, and the texts `/` and `&`.
abbrev pub slash : ℕ
slash = 47

abbrev pub root : Text
root = bytes "/"

abbrev pub ampersand : Text
ampersand = bytes "&"

-- What the choice of a route reads, and the pool that the route leads to.
pub record Route : Type 0 where
  pub path_prefix : Text
  pub pool : Text

pub prefix_matches : Text → Text → Bool
prefix_matches prefix path =
    text_eq prefix root || text_eq path prefix || has_prefix path (trim_right slash prefix ++ root)

-- The loop of `matchRoute`, with the route matched so far.
pub match_from : Option Route → Text → List Route → Option Route
unfolding prefix_matches
match_from matched path [] = matched
match_from none path (r ∷ rs) =
    match_from (if prefix_matches r.path_prefix path then some r else none) path rs
match_from (some m) path (r ∷ rs) =
    match_from
      (if prefix_matches r.path_prefix path
        then if ltb (length m.path_prefix) (length r.path_prefix) then some r else some m
        else some m)
      path rs

pub match_route : List Route → Text → Option Route
unfolding match_from
match_route routes path = match_from none path routes

pub join_path : Text → Text → Text
join_path base path =
    if text_eq base [] || text_eq base root
    then path
    else if text_eq path [] || text_eq path root
    then base
    else trim_right slash base ++ (root ++ trim_left slash path)

-- The fields of `url.URL` that the gateway reads or writes.
pub record Url : Type 0 where
  pub scheme : Text
  pub host : Text
  pub path : Text
  pub raw_path : Text
  pub raw_query : Text

-- The end of `rewriteRequestURL`, from the target's query and the request's.
rewritten_query : Text → Text → Text
rewritten_query target request =
    if text_eq target []
    then request
    else if text_eq request []
    then target
    else target ++ ampersand ++ request

-- The request's URL after the first three assignments of `rewriteRequestURL`.
pub moved : Url → Url → Url
unfolding join_path
moved request target = record request {
  scheme = target.scheme;
  host = target.host;
  path = join_path target.path request.path;
}

-- `rewriteRequestURL`; it sets the path before it asks for the escaped one.
pub rewrite_request_url : (Url → Text) → Url → Url → Url
unfolding moved rewritten_query
rewrite_request_url escaped_path request target =
    let out = moved request target in
    let raw_path = join_path (escaped_path target) (escaped_path out) in
    record out {
      raw_path = if text_eq raw_path out.path then [] else raw_path;
      raw_query = rewritten_query target.raw_query request.raw_query;
    }

backend_log_value : (Url → Text) → Url → Text
backend_log_value escaped_path target =
    target.scheme ++ bytes "://" ++ target.host ++ escaped_path target

-- `withDefault`: a duration that is not positive is replaced.
pub with_default : ℤ → ℤ → ℤ
with_default value fallback = if is_neg value || is_zero value then fallback else value
