-- ===== src/Json/Unique.antt =====
-- src/wire.rs: `reject_duplicate_keys`, over a document as the deserializer presents it: the entries
-- of an object in the order of the text, repeated keys included.
use onym_recovery_trustee.Prelude.{
  Bool, Bool-cases, List, Text, [], arith, false, inl, inr, not, refl, sym, text_eq, text_eq_iff,
  true, ◌&&◌, ◌||◌, ◌↔◌, ◌∷◌, ◌≡◌, ◌≢◌,
}
use onym_recovery_trustee.Json.{
  Entries, Items, Json, array, boolean, cons, end, entry, nil, null, number, object, string,
}

abbrev pub contains : List Text → Text → Bool
contains [] key = false
contains (k ∷ ks) key = text_eq k key || contains ks key

unfoldable mutual
  -- The visitor `Unique`.
  pub visit : Json → Bool
  visit null = true
  visit (boolean b) = true
  visit (number n) = true
  visit (string text) = true
  visit (array items) = visit_seq items
  visit (object fields) = visit_map fields []

  -- `visit_seq`
  pub visit_seq : Items → Bool
  visit_seq nil = true
  visit_seq (cons value rest) = visit value && visit_seq rest

  -- `visit_map`, with the keys seen so far.
  pub visit_map : Entries → List Text → Bool
  visit_map end seen = true
  visit_map (entry key value rest) seen =
      not (contains seen key) && visit value && visit_map rest (key ∷ seen)

-- No key of the entries is `key`.
abbrev pub Absent : Text → Entries → Type 0
Absent key end = Unit {0}
Absent key (entry k v rest) = (k ≢ key) × Absent key rest

-- At every depth, no object repeats a key.
abbrev mutual
  pub HasUniqueKeys : Json → Type 0
  HasUniqueKeys null = Unit {0}
  HasUniqueKeys (boolean b) = Unit {0}
  HasUniqueKeys (number n) = Unit {0}
  HasUniqueKeys (string text) = Unit {0}
  HasUniqueKeys (array items) = AllUnique items
  HasUniqueKeys (object fields) = UniqueFields fields

  pub AllUnique : Items → Type 0
  AllUnique nil = Unit {0}
  AllUnique (cons value rest) = HasUniqueKeys value × AllUnique rest

  pub UniqueFields : Entries → Type 0
  UniqueFields end = Unit {0}
  UniqueFields (entry key value rest) = Absent key rest × HasUniqueKeys value × UniqueFields rest

-- No key in `seen` is a key of the entries.
abbrev AllAbsent : List Text → Entries → Type 0
AllAbsent [] fields = Unit {0}
AllAbsent (key ∷ seen) fields = Absent key fields × AllAbsent seen fields

AllAbsent-entry :
    (seen : List Text) (key : Text) (value : Json) (rest : Entries)
    → contains seen key ≡ false
    → AllAbsent seen rest
    → AllAbsent seen (entry key value rest)
AllAbsent-entry [] key value rest h a = tt
AllAbsent-entry (k ∷ ks) key value rest h a = (
  (λ e. ground (arith, (text_eq_iff k key).1 (sym e)), a.0),
  AllAbsent-entry ks key value rest (ground arith) a.1,
)

contains-AllAbsent :
    (seen : List Text) (key : Text) (value : Json) (rest : Entries)
    → AllAbsent seen (entry key value rest)
    → contains seen key ≡ false
contains-AllAbsent [] key value rest a = refl
contains-AllAbsent (k ∷ ks) key value rest a = elim (Bool-cases (text_eq k key)) [
  | inl hit ↦ absurd (a.0.0 (sym ((text_eq_iff k key).0 hit)))
  | inr miss ↦ ground (arith, contains-AllAbsent ks key value rest a.1)
]

AllAbsent-rest :
    (seen : List Text) (key : Text) (value : Json) (rest : Entries)
    → AllAbsent seen (entry key value rest)
    → AllAbsent seen rest
AllAbsent-rest [] key value rest a = tt
AllAbsent-rest (k ∷ ks) key value rest a = (a.0.1, AllAbsent-rest ks key value rest a.1)

AllAbsent-end : (seen : List Text) → AllAbsent seen end
AllAbsent-end [] = tt
AllAbsent-end (k ∷ ks) = (tt, AllAbsent-end ks)

mutual
  unfolding visit

  visit_sound : (doc : Json) → visit doc ≡ true → HasUniqueKeys doc
  visit_sound null h = tt
  visit_sound (boolean b) h = tt
  visit_sound (number n) h = tt
  visit_sound (string text) h = tt
  visit_sound (array items) h = visit_seq_sound items h
  visit_sound (object fields) h = (visit_map_sound fields [] h).1

  visit_seq_sound : (items : Items) → visit_seq items ≡ true → AllUnique items
  visit_seq_sound nil h = tt
  visit_seq_sound (cons value rest) h =
      (visit_sound value (ground arith), visit_seq_sound rest (ground arith))

  visit_map_sound :
      (fields : Entries) (seen : List Text)
      → visit_map fields seen ≡ true
      → AllAbsent seen fields × UniqueFields fields
  visit_map_sound end seen h = (AllAbsent-end seen, tt)
  visit_map_sound (entry key value rest) seen h =
      let (absent, unique) = visit_map_sound rest (key ∷ seen) (ground arith) in
      (
        AllAbsent-entry seen key value rest (ground arith) absent.1,
        (absent.0, visit_sound value (ground arith), unique),
      )

mutual
  unfolding visit

  visit_complete : (doc : Json) → HasUniqueKeys doc → visit doc ≡ true
  visit_complete null h = refl
  visit_complete (boolean b) h = refl
  visit_complete (number n) h = refl
  visit_complete (string text) h = refl
  visit_complete (array items) h = visit_seq_complete items h
  visit_complete (object fields) h = visit_map_complete fields [] tt h

  visit_seq_complete : (items : Items) → AllUnique items → visit_seq items ≡ true
  visit_seq_complete nil h = refl
  visit_seq_complete (cons value rest) h =
      ground (arith, visit_complete value h.0, visit_seq_complete rest h.1)

  visit_map_complete :
      (fields : Entries) (seen : List Text)
      → AllAbsent seen fields
      → UniqueFields fields
      → visit_map fields seen ≡ true
  visit_map_complete end seen a h = refl
  visit_map_complete (entry key value rest) seen a h = ground (
    arith,
    contains-AllAbsent seen key value rest a,
    visit_complete value h.1,
    visit_map_complete rest (key ∷ seen) (h.0, AllAbsent-rest seen key value rest a) h.2,
  )

-- The visitor accepts a document exactly when no object in it, at any depth, repeats a key.
pub visit_iff : (doc : Json) → (visit doc ≡ true) ↔ HasUniqueKeys doc
visit_iff doc = (visit_sound doc, visit_complete doc)
