-- ===== src/Routing/Tests.antt =====
-- Runs of the routing definitions on concrete requests.
use gatex.Prelude.{ℕ, ◌≡◌, ◌⊎◌, refl, false, List, [], ◌∷◌, none, some, arith, All}
use gatex.Prelude.Text.{
  Text, bytes, text_eq, has_prefix, strip_prefix, ends_with, trim_left, trim_right,
}
use gatex.Routing.Matching.{IsBest, match_route-IsBest}
use gatex.Routing.Joining.{IsTrivial, rewrite_request_url-raw_path}
use gatex.Routing.{
  Route, prefix_matches, match_route, join_path, Url, rewrite_request_url, backend_log_value,
}

abbrev routes : List Route
routes =
    record { path_prefix = bytes "/"; pool = bytes "web" }
    ∷ record { path_prefix = bytes "/api"; pool = bytes "api" }
    ∷ record { path_prefix = bytes "/api/v2/"; pool = bytes "v2" }
    ∷ []

abbrev api : Route
api = record { path_prefix = bytes "/api"; pool = bytes "api" }

program : Unit {0}
unfolding text_eq has_prefix trim_left trim_right strip_prefix match_route join_path
    rewrite_request_url backend_log_value
program = tt

api_users : match_route routes (bytes "/api/users") ≡ some api
unfolding program
api_users = refl

other_segment :
    match_route routes (bytes "/apix")
    ≡ some (record { path_prefix = bytes "/"; pool = bytes "web" })
unfolding program
other_segment = refl

nested :
    match_route routes (bytes "/api/v2/x")
    ≡ some (record { path_prefix = bytes "/api/v2/"; pool = bytes "v2" })
unfolding program
nested = refl

joined : join_path (bytes "/base/") (bytes "/users") ≡ bytes "/base/users"
unfolding program
joined = refl

abbrev target : Url
target = record {
  scheme = bytes "http";
  host = bytes "b:80";
  path = bytes "/v1";
  raw_path = [];
  raw_query = bytes "k=1";
}

abbrev request : Url
request = record {
  scheme = [];
  host = [];
  path = bytes "/users";
  raw_path = [];
  raw_query = bytes "q=2";
}

-- Paths that hold nothing to escape.
abbrev plain_path : Url → Text
plain_path u = u.path

rewritten : rewrite_request_url plain_path request target ≡ record target {
  path = bytes "/v1/users";
  raw_path = bytes "/v1/v1/users";
  raw_query = bytes "k=1&q=2";
}
unfolding program
rewritten = refl

logged : backend_log_value plain_path target ≡ bytes "http://b:80/v1"
unfolding program
logged = refl

match_route-IsBest_example :
    ((match_route routes (bytes "/api/users") ≡ none)
      × All (λ r. prefix_matches r.path_prefix (bytes "/api/users") ≡ false) routes)
    ⊎ ((i : ℕ) × (r : Route) × (match_route routes (bytes "/api/users") ≡ some r)
        × IsBest routes (bytes "/api/users") i r)
match_route-IsBest_example = match_route-IsBest routes (bytes "/api/users")

base-not-IsTrivial : ¬ IsTrivial (bytes "/v1")
base-not-IsTrivial = λ h. ground arith

path-not-IsTrivial : ¬ IsTrivial (bytes "/users")
path-not-IsTrivial = λ h. ground arith

rewrite_request_url-raw_path_example :
    ((rewrite_request_url plain_path request target).path ≡ join_path target.path request.path)
    × ((rewrite_request_url plain_path request target).raw_path
        ≡ join_path target.path (join_path target.path request.path))
unfolding ends_with
rewrite_request_url-raw_path_example =
    rewrite_request_url-raw_path plain_path request target base-not-IsTrivial refl
      path-not-IsTrivial refl refl
