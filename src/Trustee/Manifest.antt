-- ===== src/Trustee/Manifest.antt =====
-- src/lib.rs: the signed service manifest. `REFUSED` and `OPERATIONS` of src/store.rs, which it
-- declares, stand here for it and for src/store.rs alike.
use onym_recovery_trustee.Prelude.{
  Bytes, List, Text, [], arith, codes, div_euclid, if◌then◌else◌, neg_part, negsuc, pos, pos_part,
  refl, scale_ℤ, ℕ, ℤ, ◌*◌, ◌++◌, ◌+ℤ◌, ◌<ℤ◌, ◌==◌, ◌∷◌, ◌≡◌, ◌≤ℤ◌,
}
use onym_recovery_trustee.Code.{
  Code, Result, as_str, bootstrap_unavailable, export_unavailable, invalid_request, ok, ok_or,
  temporarily_unavailable, ◌>>=◌,
}
use onym_recovery_trustee.External.{External}
use onym_recovery_trustee.Json.{
  Entries, Json, array, cons, end, inserted, nil, number, object_of, of_i64, pos_int, string,
  strings,
}
use onym_recovery_trustee.Trustee.{
  Limits, Trustee, hpke_public_key, key_id, max_request_bytes, operator,
}
use onym_recovery_trustee.Wire.{
  binding_version, encryption_suite_hpke, factor_ed25519_session, implementation_profile,
  notice_holder_poll, recovery_profile, seat, storage_class_sqlite,
}
use onym_recovery_trustee.Wire.Documents.{sign_object}
use onym_recovery_trustee.Wire.Encoding.{format_timestamp}

-- `Service`
pub record Service : Type 0 where
  pub endpoint : Text
  pub trust_domain : Text
  pub jurisdiction : Text
  pub contact : Text

-- `MANIFEST_PERIOD_SECS`
abbrev pub manifest_period_secs : ℕ
manifest_period_secs = 30 * 86400

abbrev retention : Text
retention =
    codes "The sealed share and artifact are kept until the holder revokes or "
    ++ codes
        "closes the enrollment. That removes them from the live database at once; copies in freed "
    ++ codes "disk blocks, snapshots or backups are not erased. A tombstone keeps the non-secret "
    ++ codes "bindings, and released contributions stay as ciphertext only the candidate can open. "
    ++ codes "Expired enrollments are not swept yet."

-- `OPERATIONS`
abbrev pub served_operations : List Text
served_operations =
    codes "issue-challenge"
    ∷ codes "enroll"
    ∷ codes "read-enrollment"
    ∷ codes "begin-recovery"
    ∷ codes "read-recovery"
    ∷ codes "cancel-recovery"
    ∷ codes "revoke-enrollment"
    ∷ codes "close-enrollment"
    ∷ []

-- `REFUSED`
abbrev pub refused_operations : List (Text × Code)
refused_operations =
    (codes "bootstrap-recovery", bootstrap_unavailable)
    ∷ (codes "export-enrollment", export_unavailable)
    ∷ (codes "finalize-recovery", invalid_request)
    ∷ (codes "rotate-enrollment", invalid_request)
    ∷ []

-- The map of refused operations to their codes.
unfoldable pub refusals : List (Text × Code) → List (Text × Json)
refusals [] = []
refusals ((operation, code) ∷ rest) = (operation, string (as_str code)) ∷ refusals rest

-- `trim_end_matches` of a character.
unfoldable pub trim_end_matches : ℕ → Text → Text
trim_end_matches c [] = []
trim_end_matches c (b ∷ bs) = elim (trim_end_matches c bs) [
  | [] ↦ if b == c then [] else b ∷ []
  | d ∷ ds ↦ b ∷ d ∷ ds
]

abbrev text : Text → Json
text t = string t

abbrev count : ℕ → Json
count n = number (pos_int n)

-- The time until which a manifest that is read at `now` is valid.
unfoldable pub valid_until : ℤ → ℤ
valid_until now = scale_ℤ (div_euclid now manifest_period_secs +ℤ pos 3) manifest_period_secs

abbrev limits_object : Limits → Json
limits_object limits = object_of (
    (codes "clockSkewSeconds", of_i64 limits.skew_secs)
    ∷ (codes "minimumCooldownSeconds", of_i64 limits.min_cooldown_secs)
    ∷ (codes "maximumCooldownSeconds", of_i64 limits.max_cooldown_secs)
    ∷ (codes "maximumSessionLifetimeSeconds", of_i64 limits.max_session_lifetime_secs)
    ∷ (codes "maximumAttempts", count limits.max_attempts)
    ∷ (codes "maximumEnrollmentTermSeconds", of_i64 limits.max_enrollment_term_secs)
    ∷ (codes "maximumArtifactBytes", count limits.max_artifact_bytes)
    ∷ (codes "maximumRequestBytes", count (max_request_bytes limits))
    ∷ [])

abbrev offer : Service → Json
offer service = object_of (
    (codes "offerId", text (codes "free-v1"))
    ∷ (codes "model", text (codes "free"))
    ∷ (
      codes "service",
      text (
          codes "Custody of one SLIP-0039 share per enrollment slot, released "
          ++ codes "under the enrolled policy"),
    )
    ∷ (codes "recoveryFees", text (codes "none"))
    ∷ (codes "lapse", text (codes "none"))
    ∷ (codes "export", text (codes "unavailable"))
    ∷ (codes "retention", text retention)
    ∷ (codes "jurisdiction", text service.jurisdiction)
    ∷ (codes "complaints", text service.contact)
    ∷ (codes "splits", array nil)
    ∷ (
      codes "limitations",
      array (
          strings (
            codes "Unreviewed reference implementation: synthetic test secrets only."
            ∷ codes "Notices reach the holder only while an enrolled device polls."
            ∷ codes "Freshness rests on this operator's local state and clock."
            ∷ [])),
    )
    ∷ [])

module _ (x : External) where
  abbrev enrollment_key : Trustee → Json
  enrollment_key t = object_of (
      (codes "suite", text encryption_suite_hpke)
      ∷ (codes "publicKey", text (x.hex_encode (hpke_public_key x t)))
      ∷ (codes "trusteeKeyId", text (key_id x t))
      ∷ [])

  -- The object that the manifest signs.
  unfoldable pub manifest_object : Trustee → Service → Text → Entries
  unfolding refusals trim_end_matches
  manifest_object t service until = inserted end (
      (codes "version", count 1)
      ∷ (codes "componentId", text t.component_id)
      ∷ (codes "seat", text seat)
      ∷ (codes "operator", text (operator x t))
      ∷ (codes "recoveryProfileId", text recovery_profile)
      ∷ (codes "implementationProfileIds", array (strings (implementation_profile ∷ [])))
      ∷ (codes "bindingVersion", text binding_version)
      ∷ (codes "endpoints", array (strings (service.endpoint ∷ [])))
      ∷ (codes "trustDomain", text service.trust_domain)
      ∷ (codes "jurisdiction", text service.jurisdiction)
      ∷ (codes "retention", text retention)
      ∷ (
        codes "recoveryFactors",
        array (strings (trim_end_matches b':' factor_ed25519_session ∷ [])),
      )
      ∷ (codes "notificationChannels", array (strings (notice_holder_poll ∷ [])))
      ∷ (codes "enrollmentKey", enrollment_key t)
      ∷ (codes "storageClass", text storage_class_sqlite)
      ∷ (codes "limits", limits_object t.limits)
      ∷ (codes "operations", array (strings served_operations))
      ∷ (codes "unsupportedOperations", object_of (refusals refused_operations))
      ∷ (codes "offers", array (cons (offer service) nil))
      ∷ (codes "validUntil", text until)
      ∷ [])

  -- `Trustee::manifest`
  unfoldable pub manifest : Trustee → Service → ℤ → Result Bytes
  unfolding valid_until
  manifest t service now = do
    until ← ok_or (format_timestamp x (valid_until now)) temporarily_unavailable
    ok (sign_object x (manifest_object t service until) t.signing_key)

-- A manifest is valid for more than 60 days and at most 90 from the time at which it is read, and until
-- a whole multiple of 30 days.
pub valid_until_bounds :
    (now : ℤ)
    → (now +ℤ pos (2 * manifest_period_secs) <ℤ valid_until now)
      × (valid_until now ≤ℤ now +ℤ pos (3 * manifest_period_secs))
      × ((k : ℤ) × (valid_until now ≡ scale_ℤ k manifest_period_secs))
unfolding valid_until div_euclid scale_ℤ ◌+ℤ◌ pos_part neg_part
valid_until_bounds (pos n) =
    (ground arith, ground arith, (div_euclid (pos n) manifest_period_secs +ℤ pos 3, refl))
valid_until_bounds (negsuc n) =
    (ground arith, ground arith, (div_euclid (negsuc n) manifest_period_secs +ℤ pos 3, refl))
