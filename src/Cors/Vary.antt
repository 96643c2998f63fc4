-- ===== src/Cors/Vary.antt =====
-- The `Vary` header under internal/middleware/cors.go.
use gatex.Prelude.{
  ◌≡◌, refl, ◌∙◌, Bool, true, false, ◌||◌, List, [], ◌∷◌, ◌++◌, if◌then◌else◌, arith, Bool-cases,
  inl, inr,
}
use gatex.Prelude.Text.{Text, text_eq, text_eq_iff, any}
use gatex.Http.{Header, values}
use gatex.Http.Headers.{values-add}
use gatex.Cors.{vary, varies_on, add_vary}

any-append {ℓ} :
    {A : Type ℓ} (test : A → Bool) (xs ys : List A)
    → any test (xs ++ ys) ≡ any test xs || any test ys
any-append test [] ys = refl
any-append test (x ∷ xs) ys = ground (arith, any-append test xs ys)

varies_on-append :
    (value : Text) (xs ys : List Text)
    → varies_on value (xs ++ ys) ≡ varies_on value xs || varies_on value ys
unfolding varies_on
varies_on-append value = any-append _

-- The values of `Vary` afterwards.
vary-add_vary :
    (value : Text) (h : Header)
    → values vary (add_vary value h)
      ≡ (if varies_on value (values vary h) then values vary h else values vary h ++ (value ∷ []))
unfolding add_vary
vary-add_vary value h = elim (Bool-cases (varies_on value (values vary h))) [
  | inl e ↦ rw e refl
  | inr e ↦ rw e (values-add vary vary value h ∙ rw ((text_eq_iff vary vary).1 refl) refl)
]

add_vary_listed :
    (value : Text) (h : Header) → varies_on value (values vary h) ≡ true → add_vary value h ≡ h
unfolding add_vary
add_vary_listed value h e = rw e refl

pub values-add_vary :
    (q value : Text) (h : Header)
    → text_eq vary q ≡ false
    → values q (add_vary value h) ≡ values q h
unfolding add_vary
values-add_vary q value h e = ground (arith, values-add vary q value h)

-- For a value that is one name: it is among those of `Vary` afterwards, what was among them stays, no
-- other header changes, and adding it again changes nothing.
pub add_vary_lem :
    (value : Text) (h : Header)
    → varies_on value (value ∷ []) ≡ true
    → let after = add_vary value h in
      (varies_on value (values vary after) ≡ true)
      × ((q : Text) → varies_on q (values vary h) ≡ true → varies_on q (values vary after) ≡ true)
      × ((q : Text) → text_eq vary q ≡ false → values q after ≡ values q h)
      × (add_vary value after ≡ after)
add_vary_lem value h one = (listed, kept, others, again listed)
  where
    listed : varies_on value (values vary (add_vary value h)) ≡ true
    listed =
        ground (arith, vary-add_vary value h, varies_on-append value (values vary h) (value ∷ []))

    kept :
        (q : Text)
        → varies_on q (values vary h) ≡ true
        → varies_on q (values vary (add_vary value h)) ≡ true
    kept q e =
        ground (arith, vary-add_vary value h, varies_on-append q (values vary h) (value ∷ []))

    others : (q : Text) → text_eq vary q ≡ false → values q (add_vary value h) ≡ values q h
    others q e = values-add_vary q value h e

    again :
        varies_on value (values vary (add_vary value h)) ≡ true
        → add_vary value (add_vary value h) ≡ add_vary value h
    again e = add_vary_listed value (add_vary value h) e
