-- ===== src/Routing/Prefixes.antt =====
-- What `prefixMatches` of internal/proxy/gateway.go accepts.
use gatex.Prelude.{
  ℕ, ◌≡◌, ◌≢◌, ◌↔◌, ◌⊎◌, inl, inr, refl, true, false, [], ◌∷◌, ◌++◌, arith, Option-cases,
}
use gatex.Prelude.Text.{
  Text, text_eq, text_eq_iff, has_prefix, strip_prefix, strip_prefix_iff, trim_right, ends_with,
  trim_right-ends_with,
}
use gatex.Routing.{slash, root, prefix_matches}

pub has_prefix_iff : (s p : Text) → (has_prefix s p ≡ true) ↔ ((r : Text) × (s ≡ p ++ r))
unfolding has_prefix
has_prefix_iff s p = elim (Option-cases (strip_prefix p s)) [
  | inl e ↦
      (λ h. absurd (ground arith), λ (r, same). absurd (ground (arith, strip_prefix_iff p s r)))
  | inr (r, e) ↦ (λ _. (r, (strip_prefix_iff p s r).0 e), λ _. ground arith)
]

-- A prefix matches a path exactly when it is `/`, or the path itself, or the path goes on with a
-- `/` after the prefix without the prefix's own trailing slashes.
pub prefix_matches_iff :
    (prefix path : Text)
    → (prefix_matches prefix path ≡ true) ↔ (
        (prefix ≡ root)
        ⊎ (path ≡ prefix)
        ⊎ ((rest : Text) × (path ≡ (trim_right slash prefix ++ root) ++ rest)))
unfolding prefix_matches
prefix_matches_iff prefix path = ground (
  arith,
  text_eq_iff prefix root,
  text_eq_iff path prefix,
  has_prefix_iff path (trim_right slash prefix ++ root),
)

has_prefix-append : (p s t : Text) → has_prefix (p ++ s) (p ++ t) ≡ has_prefix s t
unfolding has_prefix strip_prefix
has_prefix-append [] s t = refl
has_prefix-append (a ∷ p) s t = ground (arith, has_prefix-append p s t)

longer-ne : (p : Text) (c : ℕ) (rest : Text) → text_eq (p ++ (c ∷ rest)) p ≡ false
unfolding text_eq
longer-ne [] c rest = refl
longer-ne (b ∷ p) c rest = ground (arith, longer-ne p c rest)

ends_with-ne_root : (p : Text) → ends_with slash p ≡ false → text_eq p root ≡ false
unfolding ends_with text_eq
ends_with-ne_root [] h = refl
ends_with-ne_root (b ∷ []) h = ground arith
ends_with-ne_root (b ∷ d ∷ p) h = ground arith

other_byte : (c : ℕ) (rest : Text) → c ≢ slash → has_prefix (c ∷ rest) root ≡ false
unfolding has_prefix strip_prefix
other_byte c rest ne = ground arith

-- A prefix that does not end with `/` does not match a path that goes on after it in the same
-- segment, with another byte than `/`.
pub prefix_matches-same_segment :
    (prefix : Text) (c : ℕ) (rest : Text)
    → ends_with slash prefix ≡ false
    → c ≢ slash
    → prefix_matches prefix (prefix ++ (c ∷ rest)) ≡ false
unfolding prefix_matches
prefix_matches-same_segment prefix c rest h ne = ground (
  arith,
  ends_with-ne_root prefix h,
  longer-ne prefix c rest,
  trim_right-ends_with slash prefix h,
  has_prefix-append prefix (c ∷ rest) root,
  other_byte c rest ne,
)
