-- ===== src/Routing/Joining.antt =====
-- The URLs that `joinPath` and `rewriteRequestURL` of internal/proxy/gateway.go build.
use gatex.Prelude.{
  ℕ, ◌≡◌, ◌≢◌, ◌⊎◌, inl, inr, refl, false, ◌||◌, if◌then◌else◌, List, [], ◌∷◌, ◌++◌, arith,
  Bool-cases, ◌<◌, length, length-append, List-cases,
}
use gatex.Prelude.Text.{
  Text, text_eq, text_eq_iff, trim_left, trim_right, repeated, StartsWith, ends_with,
  trim_left-StartsWith, ends_with-trim_right, trim_right-append, trim_left-append,
  trim_right-ends_with,
}
use gatex.Routing.{
  slash, root, ampersand, join_path, Url, rewritten_query, moved, rewrite_request_url,
}

-- A text that is empty or `/` adds nothing to a path.
abbrev pub IsTrivial : Text → Type 0
IsTrivial s = (s ≡ []) ⊎ (s ≡ root)

-- Two texts with exactly one `/` at the seam: neither part brings one, and each part is its text
-- but for slashes at the seam.
pub record IsJoined (base path joined : Text) : Type 0 where
  front : Text
  back : Text
  dropped : ℕ
  skipped : ℕ
  base_is : base ≡ front ++ repeated slash dropped
  path_is : path ≡ repeated slash skipped ++ back
  joined_is : joined ≡ front ++ (root ++ back)
  front_ends : ends_with slash front ≡ false
  back_starts : ¬ StartsWith slash back

not_trivial : (s : Text) → ¬ IsTrivial s → (text_eq s [] || text_eq s root) ≡ false
not_trivial s h = ground (arith, text_eq_iff s [], text_eq_iff s root)

-- Where neither path is empty or `/`, joining them leaves exactly one `/` at the seam and drops
-- nothing else.
pub join_path-IsJoined :
    (base path : Text)
    → ¬ IsTrivial base
    → ¬ IsTrivial path
    → IsJoined base path (join_path base path)
unfolding join_path
join_path-IsJoined base path hb hp =
    let (n, base_is) = trim_right-append slash base in
    let (m, path_is) = trim_left-append slash path in
    record {
      front = trim_right slash base;
      back = trim_left slash path;
      dropped = n;
      skipped = m;
      base_is = base_is;
      path_is = path_is;
      joined_is = rw (not_trivial base hb, not_trivial path hp, join_path) refl;
      front_ends = ends_with-trim_right slash base;
      back_starts = trim_left-StartsWith slash path;
    }

-- The non-empty texts of a list, with the separator between them.
unfoldable pub joined_by : Text → List Text → Text
joined_by sep [] = []
joined_by sep (t ∷ ts) =
    let rest = joined_by sep ts in
    if text_eq t [] then rest else if text_eq rest [] then t else t ++ sep ++ rest

rewritten_query-joined_by :
    (target request : Text)
    → rewritten_query target request ≡ joined_by ampersand (target ∷ request ∷ [])
unfolding rewritten_query joined_by
rewritten_query-joined_by target request = elim (Bool-cases (text_eq target [])) [
  | inl bare ↦ ground (arith, text_eq_iff request [], text_eq_iff [] [])
  | inr own ↦ ground (arith, text_eq_iff request [], text_eq_iff [] [])
]

raw_path-shown :
    (raw path : Text)
    → ((if text_eq raw path then [] else raw) ≡ [])
      ⊎ ((if text_eq raw path then [] else raw) ≢ path)
raw_path-shown raw path = ground (arith, text_eq_iff raw path)

-- The rewritten URL has the target's scheme and host and the target's path joined with the
-- request's; its query is the target's and then the request's, joined by `&` where neither is
-- empty; and its raw path is empty or differs from its path.
pub rewrite_request_url-joined :
    (escaped_path : Url → Text) (request target : Url)
    → ((rewrite_request_url escaped_path request target).scheme ≡ target.scheme)
      × ((rewrite_request_url escaped_path request target).host ≡ target.host)
      × ((rewrite_request_url escaped_path request target).path
          ≡ join_path target.path request.path)
      × ((rewrite_request_url escaped_path request target).raw_query
          ≡ joined_by ampersand (target.raw_query ∷ request.raw_query ∷ []))
      × (((rewrite_request_url escaped_path request target).raw_path ≡ [])
          ⊎ ((rewrite_request_url escaped_path request target).raw_path
              ≢ (rewrite_request_url escaped_path request target).path))
unfolding rewrite_request_url moved
rewrite_request_url-joined escaped_path request target =
    let out = moved request target in
    (
      refl,
      refl,
      refl,
      rewritten_query-joined_by target.raw_query request.raw_query,
      raw_path-shown (join_path (escaped_path target) (escaped_path out)) out.path,
    )

length-trim_left :
    (base s : Text)
    → base ≢ []
    → ends_with slash base ≡ false
    → length s < length (trim_left slash (base ++ s))
unfolding trim_left ends_with
length-trim_left [] s h e = absurd (h refl)
length-trim_left (b ∷ []) s h e = ground arith
length-trim_left (b ∷ d ∷ base) s h e =
    let rest = length-trim_left (d ∷ base) s (λ e. cc) e in ground (arith, length-append base s)

join_path-proper :
    (base path : Text)
    → ¬ IsTrivial base
    → ends_with slash base ≡ false
    → ¬ IsTrivial path
    → join_path base path ≡ base ++ (root ++ trim_left slash path)
unfolding join_path
join_path-proper base path hb end hp =
    rw (not_trivial base hb, not_trivial path hp, join_path, trim_right-ends_with slash base end)
      refl

long-not-IsTrivial : (s : Text) → 1 < length s → ¬ IsTrivial s
long-not-IsTrivial s long = λ h. ground arith

joins_again :
    (base path : Text)
    → ¬ IsTrivial base
    → ends_with slash base ≡ false
    → ¬ IsTrivial path
    → join_path base (join_path base path) ≢ join_path base path
joins_again base path hb end hp = λ same.
    let nonempty : base ≢ [] = λ e. hb (inl e) in
    let p = join_path-proper base path hb end hp in
    let grown = length-trim_left base (root ++ trim_left slash path) nonempty end in
    let size = length-append base (root ++ trim_left slash path) in
    let long : 1 < length (join_path base path) = ground (arith, nonempty, List-cases base) in
    let q =
      join_path-proper base (join_path base path) hb end
        (long-not-IsTrivial (join_path base path) long) in
    let size' = length-append base (root ++ trim_left slash (join_path base path)) in
    let again : length (trim_left slash (join_path base path))
        ≡ length (trim_left slash (base ++ (root ++ trim_left slash path))) =
      rw p refl in
    ground arith

-- Where the target has a base path that does not end with `/`, the request's path is not empty or
-- `/`, and the escaped paths of the target and of the moved request are their paths, the rewritten
-- raw path is kept and holds the base path twice.
pub rewrite_request_url-raw_path :
    (escaped_path : Url → Text) (request target : Url)
    → ¬ IsTrivial target.path
    → ends_with slash target.path ≡ false
    → ¬ IsTrivial request.path
    → escaped_path target ≡ target.path
    → escaped_path (moved request target) ≡ (moved request target).path
    → ((rewrite_request_url escaped_path request target).path ≡ join_path target.path request.path)
      × ((rewrite_request_url escaped_path request target).raw_path
          ≡ join_path target.path (join_path target.path request.path))
unfolding rewrite_request_url moved
rewrite_request_url-raw_path escaped_path request target hb end hp et em =
    let again = joins_again target.path request.path hb end hp in
    (refl, rw (et, em) (differs again))
  where
    differs :
        join_path target.path (join_path target.path request.path)
          ≢ join_path target.path request.path
        → (if text_eq
              (join_path target.path (join_path target.path request.path))
              (join_path target.path request.path)
            then []
            else join_path target.path (join_path target.path request.path))
          ≡ join_path target.path (join_path target.path request.path)
    differs ne = ground (
      arith,
      text_eq_iff (join_path target.path (join_path target.path request.path))
          (join_path target.path request.path),
    )
