-- ===== src/RequestMeta/Ids.antt =====
-- The identifiers of internal/requestmeta/metadata.go.
use gatex.Prelude.{
  ℕ, zero, suc, ◌+◌, ◌-◌, ◌*◌, ◌/◌, ◌%◌, ◌^◌, ◌<◌, ◌≤◌, ◌≡◌, ◌↔◌, ◌∙◌, inl, inr, refl, true, false,
  List, [], ◌∷◌, Option, none, some, ltb, if◌then◌else◌, length, All, arith, Bool-cases,
}
use gatex.Prelude.Text.{Text, text_eq_iff}
use gatex.RequestMeta.{
  visible_bytes, is_safe_id, hex_digit, encode_hex, hex_digits, format_hex, incoming_or_new_id,
}

-- The value of a lower-case hexadecimal digit.
abbrev pub digit_value : ℕ → ℕ
digit_value c = if ltb c 87 then c - 48 else c - 87

-- The inverse of `hex.EncodeToString`.
pub decode_hex : Text → Option (List ℕ)
decode_hex [] = some []
decode_hex (a ∷ []) = none
decode_hex (a ∷ b ∷ s) = elim (decode_hex s) [
  | none ↦ none
  | some bs ↦ some ((16 * digit_value a + digit_value b) ∷ bs)
]

-- The number that hexadecimal digits stand for, after those read before.
pub read_hex : Text → ℕ → ℕ
read_hex [] n = n
read_hex (c ∷ s) n = read_hex s (16 * n + digit_value c)

abbrev pub AreBytes : List ℕ → Type 0
AreBytes = All (λ b. b < 256)

pub decode_hex-encode_hex : (bs : List ℕ) → AreBytes bs → decode_hex (encode_hex bs) ≡ some bs
unfolding decode_hex encode_hex
decode_hex-encode_hex [] h = refl
decode_hex-encode_hex (b ∷ bs) h = ground (arith, decode_hex-encode_hex bs h.1)

length-encode_hex : (bs : List ℕ) → length (encode_hex bs) ≡ 2 * length bs
unfolding encode_hex
length-encode_hex [] = refl
length-encode_hex (b ∷ bs) = omega (arith, length-encode_hex bs)

visible-encode_hex : (bs : List ℕ) → AreBytes bs → visible_bytes (encode_hex bs) ≡ true
unfolding visible_bytes encode_hex
visible-encode_hex [] h = refl
visible-encode_hex (b ∷ bs) h = ground (arith, visible-encode_hex bs h.1)

visible-hex_digits :
    (fuel n : ℕ) (out : Text)
    → visible_bytes out ≡ true
    → visible_bytes (hex_digits fuel n out) ≡ true
unfolding visible_bytes hex_digits
visible-hex_digits zero n out h = h
visible-hex_digits (suc fuel) n out h =
    let one : visible_bytes (hex_digit (n % 16) ∷ out) ≡ true = ground arith in
    ground (arith, visible-hex_digits fuel (n / 16) (hex_digit (n % 16) ∷ out) one)

length-hex_digits : (fuel n : ℕ) (out : Text) → length (hex_digits fuel n out) ≤ fuel + length out
unfolding hex_digits
length-hex_digits zero n out = omega arith
length-hex_digits (suc fuel) n out =
    ground (arith, length-hex_digits fuel (n / 16) (hex_digit (n % 16) ∷ out))

nonempty-hex_digits :
    (fuel n : ℕ) (out : Text) → 0 < fuel + length out → 0 < length (hex_digits fuel n out)
unfolding hex_digits
nonempty-hex_digits zero n out h = omega arith
nonempty-hex_digits (suc fuel) n out h =
    ground (arith, nonempty-hex_digits fuel (n / 16) (hex_digit (n % 16) ∷ out))

-- The digits that the fuel allows are all of the number's.
read_hex-hex_digits :
    (fuel n : ℕ) (out : Text)
    → n < 16 ^ fuel
    → 0 < fuel
    → read_hex (hex_digits fuel n out) 0 ≡ read_hex out n
unfolding read_hex hex_digits
read_hex-hex_digits zero n out h p = absurd (omega arith)
read_hex-hex_digits (suc zero) n out h p = ground arith
read_hex-hex_digits (suc (suc fuel)) n out h p =
    let less : n / 16 < 16 ^ suc fuel = grind arith in
    ground
      (arith, read_hex-hex_digits (suc fuel) (n / 16) (hex_digit (n % 16) ∷ out) less (omega arith))

pub read_hex-format_hex : (n : ℕ) → n < 16 ^ 16 → read_hex (format_hex n) 0 ≡ n
unfolding format_hex read_hex
read_hex-format_hex n h = read_hex-hex_digits 16 n [] h (omega arith)

-- What the source of randomness may give: nothing, or 16 bytes.
abbrev pub IsRandom : Option (List ℕ) → Type 0
IsRandom none = Unit
IsRandom (some bs) = (length bs ≡ 16) × AreBytes bs

-- An identifier that the gateway passes on: at most 128 characters, at least one, all of them visible
-- ASCII characters, from 0x21 to 0x7e.
abbrev pub IsSafe : Text → Type 0
IsSafe id = (1 ≤ length id) × (length id ≤ 128) × All (λ b. (33 ≤ b) × (b ≤ 126)) id

visible_bytes_iff : (s : Text) → (visible_bytes s ≡ true) ↔ All (λ b. (33 ≤ b) × (b ≤ 126)) s
unfolding visible_bytes
visible_bytes_iff [] = ((λ _. tt), λ _. refl)
visible_bytes_iff (b ∷ s) = ground (arith, visible_bytes_iff s)

is_safe_id_iff : (s : Text) → (is_safe_id s ≡ true) ↔ IsSafe s
unfolding is_safe_id
is_safe_id_iff [] = ground (arith, text_eq_iff [] [])
is_safe_id_iff (b ∷ s) = ground (arith, text_eq_iff (b ∷ s) [], visible_bytes_iff (b ∷ s))

visible_bytes-IsSafe :
    (s : Text) → 0 < length s → length s ≤ 128 → visible_bytes s ≡ true → IsSafe s
visible_bytes-IsSafe s p q v = (p, q, (visible_bytes_iff s).0 v)

format_hex-IsSafe : (n : ℕ) → IsSafe (format_hex n)
unfolding format_hex visible_bytes
format_hex-IsSafe n =
    visible_bytes-IsSafe (hex_digits 16 n []) (nonempty-hex_digits 16 n [] (omega arith))
      (omega (arith, length-hex_digits 16 n [])) (visible-hex_digits 16 n [] refl)

encode_hex-IsSafe : (bs : List ℕ) → length bs ≡ 16 → AreBytes bs → IsSafe (encode_hex bs)
encode_hex-IsSafe bs size h =
    let twice = length-encode_hex bs in
    visible_bytes-IsSafe (encode_hex bs) (omega arith) (omega arith) (visible-encode_hex bs h)

-- The identifier in place of an unsafe one.
abbrev new_id : Option (List ℕ) → ℕ → Text
new_id none now = format_hex now
new_id (some filled) now = encode_hex filled

id_kept :
    (random : Option (List ℕ)) (now : ℕ) (incoming : Text)
    → is_safe_id incoming ≡ true
    → incoming_or_new_id random now incoming ≡ incoming
unfolding incoming_or_new_id
id_kept random now incoming e = rw (e, incoming_or_new_id) refl

id_replaced :
    (random : Option (List ℕ)) (now : ℕ) (incoming : Text)
    → is_safe_id incoming ≡ false
    → incoming_or_new_id random now incoming ≡ new_id random now
unfolding incoming_or_new_id
id_replaced none now incoming e = rw (e, incoming_or_new_id) refl
id_replaced (some filled) now incoming e = rw (e, incoming_or_new_id) refl

unsafe-IsSafe : (s : Text) → is_safe_id s ≡ false → ¬ IsSafe s
unsafe-IsSafe s e good = let safe = (is_safe_id_iff s).1 good in absurd (cc)

-- Whatever a client sends, the identifier of its request is safe: at most 128 visible ASCII
-- characters, at least one. A safe identifier is kept as it is. In place of another one comes the
-- hexadecimal code of 16 random bytes, from which the bytes are read back, or, without random bytes,
-- the hexadecimal digits of the clock's reading below 16 ^ 16, from which the reading is read back.
pub incoming_or_new_id_lem :
    (random : Option (List ℕ)) (now : ℕ) (incoming : Text)
    → IsRandom random
    → now < 16 ^ 16
    → let id = incoming_or_new_id random now incoming in
      IsSafe id
      × (IsSafe incoming → id ≡ incoming)
      × (¬ IsSafe incoming → (bs : List ℕ) → random ≡ some bs → decode_hex id ≡ some bs)
      × (¬ IsSafe incoming → random ≡ none → read_hex id 0 ≡ now)
incoming_or_new_id_lem random now incoming h below = elim (Bool-cases (is_safe_id incoming)) [
  | inl safe ↦
      let same = id_kept random now incoming safe in
      let good = (is_safe_id_iff incoming).0 safe in
      (rw same good, (λ _. same), (λ bad. absurd (bad good)), λ bad. absurd (bad good))
  | inr unsafe ↦
      rw (id_replaced random now incoming unsafe)
        (replaced random h (unsafe-IsSafe incoming unsafe))
]
  where
    replaced :
        (random : Option (List ℕ))
        → IsRandom random
        → ¬ IsSafe incoming
        → let id = new_id random now in
          IsSafe id
          × (IsSafe incoming → id ≡ incoming)
          × (¬ IsSafe incoming → (bs : List ℕ) → random ≡ some bs → decode_hex id ≡ some bs)
          × (¬ IsSafe incoming → random ≡ none → read_hex id 0 ≡ now)
    replaced none h bad = (
      format_hex-IsSafe now,
      (λ good. absurd (bad good)),
      (λ _ bs e. absurd (cc)),
      λ _ _. read_hex-format_hex now below,
    )
    replaced (some filled) h bad = (
      encode_hex-IsSafe filled h.0 h.1,
      (λ good. absurd (bad good)),
      (λ _ bs e. decode_hex-encode_hex filled h.1 ∙ e),
      λ _ e. absurd (cc),
    )
