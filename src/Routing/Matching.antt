-- ===== src/Routing/Matching.antt =====
-- Which route a path selects in `matchRoute` of internal/proxy/gateway.go.
use gatex.Prelude.{
  ℕ, zero, suc, ◌≤◌, ◌<◌, ◌≡◌, ◌↔◌, ◌⊎◌, inl, inr, refl, true, false, List, [], ◌∷◌, none, some,
  arith, ltb→lt, All-get_elem?, Bool-cases, length, get_elem?, All, ltb,
}
use mathlib.Core.Option.{some-injective}
use gatex.Prelude.Text.{Text}
use gatex.Routing.{Route, prefix_matches, match_from, match_route}

abbrev pub Matches : Text → Route → Type 0
Matches path r = prefix_matches r.path_prefix path ≡ true

-- At the index stands a matching route whose prefix is as long as that of any matching route, and
-- longer than that of any earlier one.
pub record IsBest (routes : List Route) (path : Text) (i : ℕ) (r : Route) : Type 0 where
  at : get_elem? routes i ≡ some r
  fits : Matches path r
  longest :
      (j : ℕ) (q : Route)
      → get_elem? routes j ≡ some q
      → Matches path q
      → length q.path_prefix ≤ length r.path_prefix
  first :
      (j : ℕ) (q : Route)
      → get_elem? routes j ≡ some q
      → Matches path q
      → j < i
      → length q.path_prefix < length r.path_prefix

-- No matching route of the list has a prefix longer than this.
abbrev pub IsBounded : List Route → Text → ℕ → Type 0
IsBounded routes path n =
    (j : ℕ) (q : Route) → get_elem? routes j ≡ some q → Matches path q → length q.path_prefix ≤ n

IsBounded-cons :
    (r : Route) (rs : List Route) (path : Text) (n : ℕ)
    → IsBounded rs path n
    → (Matches path r → length r.path_prefix ≤ n)
    → IsBounded (r ∷ rs) path n
IsBounded-cons r rs path n b h zero q e fits = ground (arith, some-injective r q e)
IsBounded-cons r rs path n b h (suc j) q e fits = b j q e fits

IsBest-here :
    (r : Route) (rs : List Route) (path : Text)
    → Matches path r
    → IsBounded rs path (length r.path_prefix)
    → IsBest (r ∷ rs) path 0 r
IsBest-here r rs path fits b = record {
  at = refl;
  fits = fits;
  longest = IsBounded-cons r rs path (length r.path_prefix) b (λ _. omega arith);
  first = λ j q e fits early. absurd (omega arith);
}

IsBest-later :
    (r : Route) (rs : List Route) (path : Text) (i : ℕ) (q : Route)
    → IsBest rs path i q
    → (Matches path r → length r.path_prefix < length q.path_prefix)
    → IsBest (r ∷ rs) path (suc i) q
IsBest-later r rs path i q best h = record {
  at = best.at;
  fits = best.fits;
  longest =
      IsBounded-cons r rs path (length q.path_prefix) best.longest (λ fits. omega (arith, h fits));
  first = later;
}
  where
    later :
        (j : ℕ) (t : Route)
        → get_elem? (r ∷ rs) j ≡ some t
        → Matches path t
        → j < suc i
        → length t.path_prefix < length q.path_prefix
    later zero t e fits early = ground (arith, some-injective r t e)
    later (suc j) t e fits early = best.first j t e fits (omega arith)

-- With a route matched so far, the loop returns it where no route of the list has a longer matching
-- prefix, and else the best of the list.
match_from-some :
    (m : Route) (path : Text) (routes : List Route)
    → ((match_from (some m) path routes ≡ some m) × IsBounded routes path (length m.path_prefix))
      ⊎ ((i : ℕ) × (r : Route) × (match_from (some m) path routes ≡ some r)
          × IsBest routes path i r
          × (length m.path_prefix < length r.path_prefix))
unfolding match_from
match_from-some m path [] = inl (refl, λ j q e. absurd (cc))
match_from-some m path (r ∷ rs) = elim (Bool-cases (prefix_matches r.path_prefix path)) [
  | inr other ↦ elim (match_from-some m path rs) [
    | inl (e, b) ↦
        inl (rw other e, IsBounded-cons r rs path (length m.path_prefix) b (λ fits. absurd (cc)))
    | inr (i, q, e, best, long) ↦
        inr (suc i, q, rw other e, IsBest-later r rs path i q best (λ fits. absurd (cc)), long)
  ]
  | inl fits ↦ elim (Bool-cases (ltb (length m.path_prefix) (length r.path_prefix))) [
    | inr other ↦ elim (match_from-some m path rs) [
      | inl (e, b) ↦ inl (
        rw (fits, other) e,
        IsBounded-cons r rs path (length m.path_prefix) b (λ _. ground arith),
      )
      | inr (i, q, e, best, long) ↦
          inr (
            suc i,
            q,
            rw (fits, other) e,
            IsBest-later r rs path i q best (λ _. ground arith),
            long,
          )
    ]
    | inl longer ↦ elim (match_from-some r path rs) [
      | inl (e, b) ↦ inr (
        0,
        r,
        rw (fits, longer) e,
        IsBest-here r rs path fits b,
        ltb→lt (length m.path_prefix) (length r.path_prefix) longer,
      )
      | inr (i, q, e, best, long) ↦
          inr (
            suc i,
            q,
            rw (fits, longer) e,
            IsBest-later r rs path i q best (λ _. long),
            ground arith,
          )
    ]
  ]
]

match_from-none :
    (path : Text) (routes : List Route)
    → ((match_from none path routes ≡ none)
        × All (λ r. prefix_matches r.path_prefix path ≡ false) routes)
      ⊎ ((i : ℕ) × (r : Route) × (match_from none path routes ≡ some r) × IsBest routes path i r)
unfolding match_from
match_from-none path [] = inl (refl, tt)
match_from-none path (r ∷ rs) = elim (Bool-cases (prefix_matches r.path_prefix path)) [
  | inr other ↦ elim (match_from-none path rs) [
    | inl (e, none_fits) ↦ inl (rw other e, (other, none_fits))
    | inr (i, q, e, best) ↦
        inr (suc i, q, rw other e, IsBest-later r rs path i q best (λ fits. absurd (cc)))
  ]
  | inl fits ↦ elim (match_from-some r path rs) [
    | inl (e, b) ↦ inr (0, r, rw fits e, IsBest-here r rs path fits b)
    | inr (i, q, e, best, long) ↦
        inr (suc i, q, rw fits e, IsBest-later r rs path i q best (λ _. long))
  ]
]

-- `matchRoute` returns nothing exactly when no route's prefix matches the path; the route that it
-- returns stands in the list, matches the path, has a prefix as long as any matching route's, and
-- comes first among those of its length.
pub match_route-IsBest :
    (routes : List Route) (path : Text)
    → ((match_route routes path ≡ none)
        × All (λ r. prefix_matches r.path_prefix path ≡ false) routes)
      ⊎ ((i : ℕ) × (r : Route) × (match_route routes path ≡ some r) × IsBest routes path i r)
unfolding match_route
match_route-IsBest routes path = match_from-none path routes

-- Both outcomes cannot be mixed up: a route is found exactly when some route matches.
pub match_route-some_iff :
    (routes : List Route) (path : Text)
    → (match_route routes path ≡ none) ↔ All (λ r. prefix_matches r.path_prefix path ≡ false) routes
match_route-some_iff routes path = elim (match_route-IsBest routes path) [
  | inl (e, misses) ↦ (λ _. misses, λ _. e)
  | inr (i, r, e, best) ↦ (
    λ e'. absurd (cc),
    λ misses. absurd (
        ground (
          arith,
          best.fits,
          All-get_elem? (λ r. prefix_matches r.path_prefix path ≡ false) routes i r misses best.at,
        )),
  )
]
