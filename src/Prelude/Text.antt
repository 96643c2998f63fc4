-- ===== src/Prelude/Text.antt =====
-- Texts as Go has them: sequences of bytes.
use Prim.Native.Char.{code}
use Prim.Native.Nat.{ℕ, zero, suc, ◌+◌, ◌/◌, ◌%◌}
use Prim.Native.String.{String}
use mathlib.Core.Path.{◌≡◌, refl, ap}
use mathlib.Core.Logic.{◌↔◌, inl, inr}
use mathlib.Core.Bool.{Bool, true, false, ◌&&◌}
use mathlib.Core.List.{List, [], ◌∷◌, ◌++◌, map, reverse}
use mathlib.Core.Option.{Option, none, some, some-injective}
use native.Mathlib.Omega.{arith}
use gatex.Prelude.Tests.{◌==◌, leb, ltb, if◌then◌else◌, Bool-cases}
use gatex.Prelude.Lists.{length, List-cases}

abbrev pub Text : Type 0
Text = List ℕ

-- The bytes of an ASCII literal.
abbrev pub bytes : String → Text
bytes String.[] = []
bytes (String.◌∷◌ c s) = code c ∷ bytes s

unfoldable pub text_eq : Text → Text → Bool
text_eq [] [] = true
text_eq [] (b ∷ t) = false
text_eq (a ∷ s) [] = false
text_eq (a ∷ s) (b ∷ t) = (a == b) && text_eq s t

pub text_eq_iff : (s t : Text) → (text_eq s t ≡ true) ↔ (s ≡ t)
unfolding text_eq
text_eq_iff [] [] = (λ _. refl, λ _. refl)
text_eq_iff [] (b ∷ t) = (λ h. cc, λ h. cc)
text_eq_iff (a ∷ s) [] = (λ h. cc, λ h. cc)
text_eq_iff (a ∷ s) (b ∷ t) = ground (arith, text_eq_iff s t)

-- What follows the prefix, if the text has it.
unfoldable pub strip_prefix : Text → Text → Option Text
strip_prefix [] s = some s
strip_prefix (a ∷ p) [] = none
strip_prefix (a ∷ p) (b ∷ s) = if a == b then strip_prefix p s else none

-- The encodings of the characters that `unicode.IsSpace` accepts.
abbrev pub spaces : List Text
spaces =
    (0x09 ∷ [])
    ∷ (0x0a ∷ [])
    ∷ (0x0b ∷ [])
    ∷ (0x0c ∷ [])
    ∷ (0x0d ∷ [])
    ∷ (0x20 ∷ [])
    ∷ (0xc2 ∷ 0x85 ∷ [])
    ∷ (0xc2 ∷ 0xa0 ∷ [])
    ∷ (0xe1 ∷ 0x9a ∷ 0x80 ∷ [])
    ∷ (0xe2 ∷ 0x80 ∷ 0x80 ∷ [])
    ∷ (0xe2 ∷ 0x80 ∷ 0x81 ∷ [])
    ∷ (0xe2 ∷ 0x80 ∷ 0x82 ∷ [])
    ∷ (0xe2 ∷ 0x80 ∷ 0x83 ∷ [])
    ∷ (0xe2 ∷ 0x80 ∷ 0x84 ∷ [])
    ∷ (0xe2 ∷ 0x80 ∷ 0x85 ∷ [])
    ∷ (0xe2 ∷ 0x80 ∷ 0x86 ∷ [])
    ∷ (0xe2 ∷ 0x80 ∷ 0x87 ∷ [])
    ∷ (0xe2 ∷ 0x80 ∷ 0x88 ∷ [])
    ∷ (0xe2 ∷ 0x80 ∷ 0x89 ∷ [])
    ∷ (0xe2 ∷ 0x80 ∷ 0x8a ∷ [])
    ∷ (0xe2 ∷ 0x80 ∷ 0xa8 ∷ [])
    ∷ (0xe2 ∷ 0x80 ∷ 0xa9 ∷ [])
    ∷ (0xe2 ∷ 0x80 ∷ 0xaf ∷ [])
    ∷ (0xe2 ∷ 0x81 ∷ 0x9f ∷ [])
    ∷ (0xe3 ∷ 0x80 ∷ 0x80 ∷ [])
    ∷ []

-- What follows the first of the prefixes that the text has.
strip_any : List Text → Text → Option Text
unfolding strip_prefix
strip_any [] s = none
strip_any (p ∷ ps) s = elim (strip_prefix p s) [ none ↦ strip_any ps s | some rest ↦ some rest ]

-- Each round takes a byte at least, so the text's length is fuel enough.
trim_from : List Text → ℕ → Text → Text
unfolding strip_any
trim_from ps zero s = s
trim_from ps (suc n) s = elim (strip_any ps s) [ none ↦ s | some rest ↦ trim_from ps n rest ]

-- `strings.TrimSpace`. At the end the encodings are read backwards.
unfoldable pub trim_space : Text → Text
unfolding trim_from
trim_space s =
    let t = trim_from spaces (length s) s in
    reverse (trim_from (map reverse spaces) (length t) (reverse t))

-- `strings.HasPrefix`.
unfoldable pub has_prefix : Text → Text → Bool
has_prefix s p = elim (strip_prefix p s) [ none ↦ false | some _ ↦ true ]

-- `strings.Split` at one byte.
unfoldable pub split : ℕ → Text → List Text
split c [] = [] ∷ []
split c (b ∷ s) =
    let rest = split c s in
    if b == c then [] ∷ rest else elim rest [ [] ↦ (b ∷ []) ∷ [] | t ∷ ts ↦ (b ∷ t) ∷ ts ]

-- `strings.Cut` at one byte: what stands before it, and what after it if it is there.
unfoldable pub cut : ℕ → Text → Text × Option Text
cut c [] = ([], none)
cut c (b ∷ s) = let rest = cut c s in if b == c then ([], some s) else (b ∷ rest.0, rest.1)

-- `strings.ToLower` of ASCII text, which hosts and directives are; other letters are not changed.
unfoldable pub to_lower : Text → Text
to_lower [] = []
to_lower (b ∷ s) = (if leb 65 b && leb b 90 then b + 32 else b) ∷ to_lower s

abbrev pub comma : ℕ
comma = 44

abbrev pub any {ℓ} : {A : Type ℓ} → (A → Bool) → List A → Bool
any test [] = false
any test (x ∷ xs) = if test x then true else any test xs

-- The decimal digits of a number before those in `out`; each round of the fuel writes one.
unfoldable pub decimal_digits : ℕ → ℕ → Text → Text
decimal_digits zero n out = out
decimal_digits (suc fuel) n out =
    let more = decimal_digits fuel (n / 10) ((48 + n % 10) ∷ out) in
    if ltb n 10 then (48 + n) ∷ out else more

-- `strconv.Itoa` of a number that is not negative.
unfoldable pub decimal : ℕ → Text
unfolding decimal_digits
decimal n = decimal_digits (suc n) n []

pub strip_prefix_iff : (p s r : Text) → (strip_prefix p s ≡ some r) ↔ (s ≡ p ++ r)
unfolding strip_prefix
strip_prefix_iff [] s r = ((λ e. some-injective s r e), λ e. ap some e)
strip_prefix_iff (a ∷ p) [] r = ((λ e. cc), λ e. cc)
strip_prefix_iff (a ∷ p) (b ∷ s) r = ground (arith, strip_prefix_iff p s r)

-- `strings.TrimLeft` and `strings.TrimRight` of one byte.
unfoldable pub trim_left : ℕ → Text → Text
trim_left c [] = []
trim_left c (b ∷ s) = let rest = trim_left c s in if b == c then rest else b ∷ s

unfoldable pub trim_right : ℕ → Text → Text
trim_right c [] = []
trim_right c (b ∷ s) =
    let rest = trim_right c s in
    if b == c then elim rest [ [] ↦ [] | d ∷ ds ↦ b ∷ d ∷ ds ] else b ∷ rest

-- What is trimmed at the end is a run of the byte.
unfoldable pub repeated : ℕ → ℕ → Text
repeated c zero = []
repeated c (suc n) = c ∷ repeated c n

abbrev pub StartsWith : ℕ → Text → Type 0
StartsWith c [] = ⊥
StartsWith c (b ∷ s) = b ≡ c

unfoldable pub ends_with : ℕ → Text → Bool
ends_with c [] = false
ends_with c (b ∷ []) = b == c
ends_with c (b ∷ d ∷ s) = ends_with c (d ∷ s)

pub trim_left-StartsWith : (c : ℕ) (s : Text) → ¬ StartsWith c (trim_left c s)
unfolding trim_left
trim_left-StartsWith c [] = λ h. h
trim_left-StartsWith c (b ∷ s) = elim (Bool-cases (b == c)) [
  | inl same ↦ rw same (trim_left-StartsWith c s)
  | inr other ↦ rw other (λ e. ground arith)
]

pub ends_with-trim_right : (c : ℕ) (s : Text) → ends_with c (trim_right c s) ≡ false
unfolding trim_right ends_with
ends_with-trim_right c [] = refl
ends_with-trim_right c (b ∷ s) = ground (arith, ends_with-trim_right c s)

pub trim_right-append : (c : ℕ) (s : Text) → (n : ℕ) × (s ≡ trim_right c s ++ repeated c n)
unfolding trim_right repeated
trim_right-append c [] = (0, refl)
trim_right-append c (b ∷ s) =
    let (n, e) = trim_right-append c s in
    elim (Bool-cases (b == c)) [
      | inr other ↦ (n, rw other (ap (◌∷◌ b) e))
      | inl same ↦ elim (List-cases (trim_right c s)) [
        | inl empty ↦ (suc n, ground arith)
        | inr (d, ds, full) ↦ (n, ground arith)
      ]
    ]

pub trim_left-append : (c : ℕ) (s : Text) → (n : ℕ) × (s ≡ repeated c n ++ trim_left c s)
unfolding trim_left repeated
trim_left-append c [] = (0, refl)
trim_left-append c (b ∷ s) = elim (Bool-cases (b == c)) [
  | inr other ↦ (0, rw other refl)
  | inl same ↦ let (n, e) = trim_left-append c s in (suc n, ground arith)
]

pub trim_right-ends_with : (c : ℕ) (s : Text) → ends_with c s ≡ false → trim_right c s ≡ s
unfolding trim_right ends_with
trim_right-ends_with c [] h = refl
trim_right-ends_with c (b ∷ []) h = ground arith
trim_right-ends_with c (b ∷ d ∷ s) h = let e = trim_right-ends_with c (d ∷ s) h in ground arith
