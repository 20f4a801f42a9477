-- ===== src/Configuration/Values.antt =====
-- The values that a derived `Serialize` gives and a derived `Deserialize` takes, whatever the format.
use vestirust.Prelude.{
  ℕ, ◌<◌, Bool, Option, none, some, String, List, [], ◌∷◌, map, ◌≡◌, refl, All, str_eq, ltb,
  ltb-true, if◌then◌else◌,
}

mutual
  pub data Value : Type 0 where
    text : String → Value
    number : ℕ → Value
    boolean : Bool → Value
    sequence : Items → Value
    struct : Fields → Value

  pub data Items : Type 0 where
    no_items : Items
    item : Value → Items → Items

  pub data Fields : Type 0 where
    no_fields : Fields
    field : String → Value → Fields → Fields

infixl 5 ◌>>=◌
abbrev pub ◌>>=◌ : {A B : Type 0} → Option A → (A → Option B) → Option B
none >>= k = none
some a >>= k = k a

-- What a struct has of a field; a field that it has twice is an error.
pub data Got : Type 0 where
  missing repeated : Got
  given : Value → Got

unfoldable pub get : String → Fields → Got
get name no_fields = missing
get name (field k v rest) =
    let later = get name rest in
    if str_eq k name
    then (elim later [ missing ↦ given v | repeated ↦ repeated | given u ↦ repeated ])
    else later

module _ {A : Type 0} where
  unfoldable pub required : (Value → Option A) → Got → Option A
  required read missing = none
  required read repeated = none
  required read (given v) = read v

  -- `#[serde(default)]`
  unfoldable pub or_default : A → (Value → Option A) → Got → Option A
  or_default default read missing = some default
  or_default default read repeated = none
  or_default default read (given v) = read v

  unfoldable pub write_items : (A → Value) → List A → Items
  write_items write [] = no_items
  write_items write (a ∷ l) = item (write a) (write_items write l)

  unfoldable pub read_items : (Value → Option A) → Items → Option (List A)
  read_items read no_items = some []
  read_items read (item v rest) = do a ← read v; l ← read_items read rest; some (a ∷ l)

  unfoldable pub write_list : (A → Value) → List A → Value
  unfolding write_items
  write_list write l = sequence (write_items write l)

  unfoldable pub read_list : (Value → Option A) → Value → Option (List A)
  unfolding read_items
  read_list read (sequence l) = read_items read l
  read_list read _ = none

unfoldable pub read_text : Value → Option String
read_text (text s) = some s
read_text _ = none

unfoldable pub read_boolean : Value → Option Bool
read_boolean (boolean b) = some b
read_boolean _ = none

-- a number of an unsigned type, which has a greatest value
unfoldable pub read_number : ℕ → Value → Option ℕ
read_number bound (number n) = if ltb n bound then some n else none
read_number bound _ = none

pub read_number-number : (bound n : ℕ) → n < bound → read_number bound (number n) ≡ some n
unfolding read_number
read_number-number bound n h = rw (ltb-true n bound h)

module _ {A : Type 0} (write : A → Value) (read : Value → Option A) (f : A → A) where
  -- Each element that was written reads back, as `f` of it.
  abbrev pub ReadsBack : List A → Type 0
  ReadsBack l = All (λ a. read (write a) ≡ some (f a)) l

  read_items-write_items :
      (l : List A) → ReadsBack l → read_items read (write_items write l) ≡ some (map f l)
  unfolding read_items write_items
  read_items-write_items [] h = refl
  read_items-write_items (a ∷ l) (e, h) = rw (read_items, e) (rw (read_items-write_items l h) refl)

  pub read_list-write_list :
      (l : List A) → ReadsBack l → read_list read (write_list write l) ≡ some (map f l)
  unfolding read_list write_list
  read_list-write_list l h = read_items-write_items l h
