-- ===== src/Http/Headers.antt =====
-- What is read of a header map after a change.
use gatex.Prelude.{◌≡◌, refl, ◌∙◌, List, [], ◌∷◌, ◌++◌, Bool, true, false, if◌then◌else◌, arith}
use gatex.Prelude.Text.{Text, bytes, text_eq, text_eq_iff}
use gatex.Http.{Header, values, get, put_values, set, add, del, error_header}

pub values-put_values :
    (name q : Text) (vs : List Text) (h : Header)
    → values q (put_values name vs h) ≡ (if text_eq name q then vs else values q h)
unfolding values put_values
values-put_values name q vs [] = refl
values-put_values name q vs ((n, ws) ∷ h) =
    ground (
      arith,
      text_eq_iff n name,
      text_eq_iff n q,
      text_eq_iff name q,
      values-put_values name q vs h,
    )

pub values-set :
    (name q v : Text) (h : Header)
    → values q (set name v h) ≡ (if text_eq name q then v ∷ [] else values q h)
unfolding set
values-set name q v h = values-put_values name q (v ∷ []) h

pub values-add :
    (name q v : Text) (h : Header)
    → values q (add name v h) ≡ (if text_eq name q then values name h ++ (v ∷ []) else values q h)
unfolding add
values-add name q v h = values-put_values name q (values name h ++ (v ∷ [])) h

pub values-del :
    (name q : Text) (h : Header)
    → values q (del name h) ≡ (if text_eq name q then [] else values q h)
unfolding values del
values-del name q [] = ground arith
values-del name q ((n, ws) ∷ h) =
    ground (arith, text_eq_iff n name, text_eq_iff n q, text_eq_iff name q, values-del name q h)

pub get-set : (name v : Text) (h : Header) → get name (set name v h) ≡ v
unfolding get
get-set name v h =
    let e = values-set name name v h in
    let same = (text_eq_iff name name).1 refl in
    let one : values name (set name v h) ≡ v ∷ [] = ground arith in rw (one, get) refl

pub get-values :
    (name : Text) (g h : Header) → values name g ≡ values name h → get name g ≡ get name h
unfolding get
get-values name g h e = rw (e, get) refl

-- The names of the headers that `http.Error` changes.
abbrev pub IsOther : Text → Type 0
IsOther q =
    (text_eq (bytes "X-Content-Type-Options") q ≡ false)
    × (text_eq (bytes "Content-Type") q ≡ false)
    × (text_eq (bytes "Content-Length") q ≡ false)

pub values-error_header :
    (q : Text) (h : Header) → IsOther q → values q (error_header h) ≡ values q h
unfolding error_header
values-error_header q h (a, b, e) =
    let cleared = del (bytes "Content-Length") h in
    let typed = set (bytes "Content-Type") (bytes "text/plain; charset=utf-8") cleared in
    ground (
      arith,
      values-del (bytes "Content-Length") q h,
      values-set (bytes "Content-Type") q (bytes "text/plain; charset=utf-8") cleared,
      values-set (bytes "X-Content-Type-Options") q (bytes "nosniff") typed,
    )

pub values-set_other :
    (q name v : Text) (h : Header) → text_eq name q ≡ false → values q (set name v h) ≡ values q h
values-set_other q name v h e = values-set name q v h ∙ rw e refl

pub values-set_self : (name v : Text) (h : Header) → values name (set name v h) ≡ v ∷ []
values-set_self name v h = values-set name name v h ∙ rw ((text_eq_iff name name).1 refl) refl

-- A change under a condition that leaves the field.
pub values-if :
    (q : Text) (b : Bool) (g h : Header)
    → values q g ≡ values q h
    → values q (if b then g else h) ≡ values q h
values-if q true g h e = e
values-if q false g h e = refl
