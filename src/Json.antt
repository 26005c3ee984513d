-- ===== src/Json.antt =====
-- src/wire.rs: JSON values as serde_json holds them, and the helpers that take fields out or put
-- them in. An object is the list of its entries; serde_json's `Map` keeps them sorted by key.
pub mod Unique
pub mod Fields
use onym_recovery_trustee.Prelude.{
  Bool, List, Option, Text, [], false, if◌then◌else◌, ltb, negsuc, none, pos, some, text_eq, true,
  ℕ, ℤ, ◌+◌, ◌==◌, ◌∷◌,
}

-- `serde_json::Number`: a `u64`, a negative `i64` (its absolute value here), or a float's text.
pub data Number : Type 0 where
  pos_int : ℕ → Number
  neg_int : ℕ → Number
  float : Text → Number

mutual
  pub data Json : Type 0 where
    null : Json
    boolean : Bool → Json
    number : Number → Json
    string : Text → Json
    array : Items → Json
    object : Entries → Json

  pub data Items : Type 0 where
    nil : Items
    cons : Json → Items → Items

  pub data Entries : Type 0 where
    end : Entries
    entry : Text → Json → Entries → Entries

-- `Value::is_object`
unfoldable pub is_object : Json → Bool
is_object (object fields) = true
is_object _ = false

-- `Map::get`
unfoldable pub get_field : Text → Entries → Option Json
get_field key end = none
get_field key (entry k v rest) = if text_eq k key then some v else get_field key rest

-- `Map::remove`, the map that is left.
unfoldable pub without_field : Text → Entries → Entries
without_field key end = end
without_field key (entry k v rest) =
    let kept = without_field key rest in if text_eq k key then kept else entry k v kept

-- The byte order of keys.
unfoldable pub text_lt : Text → Text → Bool
text_lt xs [] = false
text_lt [] (y ∷ ys) = true
text_lt (x ∷ xs) (y ∷ ys) = let later = text_lt xs ys in if x == y then later else ltb x y

-- `Map::insert`: the value replaces one under the same key, or stands in the order of keys.
unfoldable pub insert_field : Text → Json → Entries → Entries
insert_field key value end = entry key value end
insert_field key value (entry k v rest) =
    let later = insert_field key value rest in
    if text_eq k key
    then entry key value rest
    else if text_lt key k
    then entry key value (entry k v rest)
    else entry k v later

-- `wire::take`: the field, and the value without it.
unfoldable pub take_field : Json → Text → Option (Json × Json)
take_field (object fields) field = elim (get_field field fields) [
  | none ↦ none
  | some found ↦ some (found, object (without_field field fields))
]
take_field _ field = none

abbrev as_string : Json × Json → Option (Text × Json)
as_string (string text, rest) = some (text, rest)
as_string (_, rest) = none

-- `wire::take_string`
unfoldable pub take_string : Json → Text → Option (Text × Json)
unfolding take_field
take_string value field = elim (take_field value field) [
  | none ↦ none
  | some found ↦ as_string found
]

-- `value["…"].as_str().unwrap_or_default()`
abbrev string_or_empty : Option Json → Text
string_or_empty (some (string text)) = text
string_or_empty _ = []

unfoldable pub str_field : Json → Text → Text
str_field (object fields) field = string_or_empty (get_field field fields)
str_field _ field = []

-- `value["…"]`, by `Index`: `null` where there is none.
unfoldable pub index_field : Json → Text → Json
index_field (object fields) field = elim (get_field field fields) [ none ↦ null | some v ↦ v ]
index_field _ field = null

-- The items of a `json!([…])` tuple of strings.
abbrev pub strings : List Text → Items
strings [] = nil
strings (text ∷ rest) = cons (string text) (strings rest)

-- `json!({…})`: the entries are inserted in the order of the text.
abbrev pub inserted : Entries → List (Text × Json) → Entries
inserted fields [] = fields
inserted fields ((key, value) ∷ rest) = inserted (insert_field key value fields) rest

abbrev pub object_of : List (Text × Json) → Json
object_of entries = object (inserted end entries)

-- An `i64` as a number.
abbrev pub of_i64 : ℤ → Json
of_i64 (pos n) = number (pos_int n)
of_i64 (negsuc n) = number (neg_int (n + 1))
