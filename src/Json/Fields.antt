-- ===== src/Json/Fields.antt =====
-- Laws of an object's entries.
use onym_recovery_trustee.Prelude.{
  Text, arith, if◌then◌else◌, none, refl, some, text_eq, text_eq_iff, text_eq_refl, ◌≡◌,
}
use onym_recovery_trustee.Json.{
  Entries, Json, end, entry, get_field, insert_field, object, string, take_field, take_string,
  without_field,
}
use onym_recovery_trustee.Json.Unique.{Absent}

pub get-without :
    (key j : Text) (fields : Entries)
    → get_field j (without_field key fields) ≡ (if text_eq key j then none else get_field j fields)
unfolding get_field without_field
get-without key j end = ground arith
get-without key j (entry k v rest) =
    ground (arith, get-without key j rest, text_eq_iff k key, text_eq_iff k j, text_eq_iff key j)

pub get-insert :
    (key j : Text) (value : Json) (fields : Entries)
    → get_field j (insert_field key value fields)
      ≡ (if text_eq key j then some value else get_field j fields)
unfolding get_field insert_field
get-insert key j value end = refl
get-insert key j value (entry k v rest) =
    ground
      (arith, get-insert key j value rest, text_eq_iff k key, text_eq_iff k j, text_eq_iff key j)

pub without-Absent :
    (key : Text) (fields : Entries) → Absent key fields → without_field key fields ≡ fields
unfolding without_field
without-Absent key end a = refl
without-Absent key (entry k v rest) a =
    ground (arith, without-Absent key rest a.1, text_eq_iff k key)

pub get-Absent : (key : Text) (fields : Entries) → Absent key fields → get_field key fields ≡ none
unfolding get_field
get-Absent key end a = refl
get-Absent key (entry k v rest) a = ground (arith, get-Absent key rest a.1, text_eq_iff k key)

-- Removing a field that was inserted where it was absent gives the object back.
pub without-insert :
    (key : Text) (value : Json) (fields : Entries)
    → Absent key fields
    → without_field key (insert_field key value fields) ≡ fields
unfolding without_field insert_field
without-insert key value end a = ground (arith, text_eq_iff key key)
without-insert key value (entry k v rest) a = ground (
  arith,
  without-insert key value rest a.1,
  without-Absent key rest a.1,
  text_eq_iff k key,
  text_eq_iff key key,
)

-- A string that was inserted where no field of its key was is taken out again, and leaves the object
-- as it was.
pub take_string-insert_field :
    (key text : Text) (fields : Entries)
    → Absent key fields
    → take_string (object (insert_field key (string text) fields)) key ≡ some (text, object fields)
unfolding take_string take_field
take_string-insert_field key text fields absent =
    let found = get-insert key key (string text) fields in
    let left = without-insert key (string text) fields absent in
    ground (arith, found, left, text_eq_refl key)
