-- ===== src/Store/Operations.antt =====
-- src/store.rs: the operations that `handle` serves, `OPERATIONS`, and those that it declines, `REFUSED`.
use onym_recovery_trustee.Prelude.{
  Bool, Bytes, List, Text, [], arith, codes, false, none, refl, some, text_eq, ℤ, ◌||◌, ◌∷◌, ◌≡◌,
  ◌⊎◌,
}
use onym_recovery_trustee.Code.{
  Code, as_str, bootstrap_unavailable, err, export_unavailable, invalid_request,
}
use onym_recovery_trustee.External.{External}
use onym_recovery_trustee.Json.{
  Entries, Json, end, entry, get_field, insert_field, inserted, str_field, string, text_lt,
}
use onym_recovery_trustee.Store.{Db, settle}
use onym_recovery_trustee.Store.Serving.{Draws, dispatch, handle, handle_step, refusal}
use onym_recovery_trustee.Trustee.{Trustee}
use onym_recovery_trustee.Trustee.Manifest.{refusals, refused_operations, served_operations}
use onym_recovery_trustee.Wire.Documents.{parse}

-- An operation is among some names.
unfoldable pub is_listed : List Text → Text → Bool
is_listed [] operation = false
is_listed (name ∷ names) operation = text_eq operation name || is_listed names operation

-- `unsupportedOperations` of the manifest.
abbrev unsupported : Entries
unsupported = inserted end (refusals refused_operations)

unsupported_entries :
    unsupported
    ≡ entry (codes "bootstrap-recovery") (string (as_str bootstrap_unavailable)) (
        entry (codes "export-enrollment") (string (as_str export_unavailable)) (
          entry
            (codes "finalize-recovery")
            (string (as_str invalid_request))
            (entry (codes "rotate-enrollment") (string (as_str invalid_request)) end)))
unfolding refusals insert_field text_eq text_lt
unsupported_entries = refl

-- The code that the manifest declares for an operation, and invalid_request where it declares none.
abbrev pub IsDeclared : Text → Code → Type 0
IsDeclared operation code =
    (get_field operation unsupported ≡ some (string (as_str code)))
    ⊎ (get_field operation unsupported ≡ none) × (code ≡ invalid_request)

refusal-IsDeclared :
    (operation : Text) → IsDeclared operation (refusal refused_operations operation)
unfolding refusal get_field
refusal-IsDeclared operation = rw unsupported_entries (ground arith)

module _ (x : External) (t : Trustee) where
  dispatch-unserved :
      (operation : Text) (doc : Json) (draws : Draws) (now : ℤ) (db : Db)
      → is_listed served_operations operation ≡ false
      → dispatch x t operation doc draws now db ≡ err (refusal refused_operations operation)
  unfolding dispatch is_listed
  dispatch-unserved operation doc draws now db h = ground (arith, h)

  -- A request whose operation the manifest does not list as served changes nothing, and its error is the
  -- code that the manifest declares for the operation, or invalid_request where it declares none.
  pub handle-unserved :
      (body : Bytes) (doc : Json) (draws : Draws) (now : ℤ) (db : Db)
      → parse x body ≡ some doc
      → is_listed served_operations (str_field doc (codes "operation")) ≡ false
      → (code : Code) × (handle x t body draws now db ≡ (err code, db))
        × IsDeclared (str_field doc (codes "operation")) code
  unfolding handle handle_step settle
  handle-unserved body doc draws now db p h =
      let operation = str_field doc (codes "operation") in
      let e = dispatch-unserved operation doc draws now db h in
      (refusal refused_operations operation, rw (p, e) refl, refusal-IsDeclared operation)
