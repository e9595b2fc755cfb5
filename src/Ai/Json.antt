-- ===== src/Ai/Json.antt =====
-- The answers of the model as JavaScript values: what JSON.parse gives.
use critiq_be.Prelude.{
  ℕ, zero, suc, ◌≡◌, refl, Bool, false, Option, none, some, Text, text_eq, text_eq_iff,
  if◌then◌else◌, Bool-cases, inl, inr,
}

mutual
  pub data Json : Type 0 where
    null : Json
    boolean : Bool → Json
    number : (digits : Text) → Json
    string : Text → Json
    array : Items → Json
    object : Fields → Json

  pub data Items : Type 0 where
    nil : Items
    cons : Json → Items → Items

  pub data Fields : Type 0 where
    done : Fields
    field : (key : Text) → Json → Fields → Fields

-- `record[key]`, where none is undefined.
unfoldable pub get_field : Text → Fields → Option Json
get_field key done = none
get_field key (field k v rest) =
    let later = get_field key rest in if text_eq k key then some v else later

-- `record[key] = value`
unfoldable pub set_field : Text → Json → Fields → Fields
set_field key value done = field key value done
set_field key value (field k v rest) =
    let later = set_field key value rest in
    if text_eq k key then field k value rest else field k v later

-- The elements of an array.
unfoldable pub count_items : Items → ℕ
count_items nil = 0
count_items (cons x xs) = suc (count_items xs)

unfoldable pub take_items : ℕ → Items → Items
take_items zero xs = nil
take_items (suc n) nil = nil
take_items (suc n) (cons x xs) = cons x (take_items n xs)

pub get_field-set_field :
    (key : Text) (value : Json) (fs : Fields) → get_field key (set_field key value fs) ≡ some value
unfolding get_field set_field
get_field-set_field key value done = rw ((text_eq_iff key key).1 refl) refl
get_field-set_field key value (field k v rest) = elim (Bool-cases (text_eq k key)) [
  | inl e ↦ rw (e, e) refl
  | inr e ↦ rw (e, e) (get_field-set_field key value rest)
]

-- Another field is as it was.
pub get_field-set_field-other :
    (key other : Text) (value : Json) (fs : Fields)
    → text_eq key other ≡ false
    → get_field other (set_field key value fs) ≡ get_field other fs
unfolding get_field set_field
get_field-set_field-other key other value done apart = rw apart refl
get_field-set_field-other key other value (field k v rest) apart =
    elim (Bool-cases (text_eq k key)) [
      | inl e ↦ rw (e, (text_eq_iff k key).0 e, apart) refl
      | inr e ↦ rw (e, get_field-set_field-other key other value rest apart) refl
    ]
