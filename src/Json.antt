-- ===== src/Json.antt =====
-- JSON values as the program passes them around in dictionaries, and what it does to an object.
use aiops_research.Base.{
  ℤ, ◌≡◌, refl, Bool, Option, none, some, List, [], ◌∷◌, arith, Text, text_eq, text_eq_iff,
  if◌then◌else◌,
}

-- A `real` is kept as its numeral.
mutual
  pub data Json : Type 0 where
    null : Json
    bool : Bool → Json
    number : ℤ → Json
    real : Text → Json
    string : Text → Json
    array : Items → Json
    object : Fields → Json

  pub data Items : Type 0 where
    nil : Items
    cons : Json → Items → Items

  pub data Fields : Type 0 where
    end : Fields
    field : Text → Json → Fields → Fields

abbrev pub items : List Json → Items
items [] = nil
items (j ∷ js) = cons j (items js)

abbrev pub fields : List (Text × Json) → Fields
fields [] = end
fields ((k, j) ∷ fs) = field k j (fields fs)

-- `d.get(key)`
unfoldable pub get_field : Text → Fields → Option Json
get_field k end = none
get_field k (field i j fs) = if text_eq i k then some j else get_field k fs

-- `d[key] = value`
unfoldable pub set_field : Text → Json → Fields → Fields
set_field k v end = field k v end
set_field k v (field i j fs) = if text_eq i k then field i v fs else field i j (set_field k v fs)

pub get_field-set_field :
    (k i : Text) (v : Json) (fs : Fields)
    → get_field i (set_field k v fs) ≡ (if text_eq k i then some v else get_field i fs)
unfolding get_field set_field
get_field-set_field k i v end = refl
get_field-set_field k i v (field l j fs) =
    ground (arith, text_eq_iff l k, text_eq_iff l i, text_eq_iff k i, get_field-set_field k i v fs)
