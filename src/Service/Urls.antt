-- ===== src/Service/Urls.antt =====
-- src/main.rs: `public_host`.
use mathlib.Core.Path.{subst}
use onym_recovery_trustee.Prelude.{
  Bool, Bool-cases, List, Option, Option-cases, Text, [], ap, arith, codes, false, if◌then◌else◌,
  inl, inr, none, not, refl, some, split, strip_prefix, strip_prefix_sound, sym, text_eq,
  text_eq_iff, text_eq_refl, true, ℕ, ◌&&◌, ◌++◌, ◌==◌, ◌||◌, ◌↔◌, ◌∙◌, ◌∷◌, ◌≡◌, ◌≢◌, ◌⊎◌,
}

abbrev later_split : ℕ → Option (Text × Text) → Option (Text × Text)
later_split c none = none
later_split c (some (before, rest)) = some (c ∷ before, rest)

-- `str::split_once` at a text that is not empty.
unfoldable pub split_at_text : Text → Text → Option (Text × Text)
split_at_text sep [] = none
split_at_text sep (c ∷ cs) = elim (strip_prefix sep (c ∷ cs)) [
  | some rest ↦ some ([], rest)
  | none ↦ later_split c (split_at_text sep cs)
]

-- `authority.split(':').next()`
unfoldable pub until_char : ℕ → Text → Text
until_char sep [] = []
until_char sep (c ∷ cs) = let rest = until_char sep cs in if c == sep then [] else c ∷ rest

abbrev pub any_equal : List ℕ → ℕ → Bool
any_equal [] c = false
any_equal (d ∷ ds) c = d == c || any_equal ds c

-- `contains` of any of some characters.
abbrev pub has_any : List ℕ → Text → Bool
has_any chars [] = false
has_any chars (c ∷ cs) = any_equal chars c || has_any chars cs

abbrev pub is_loopback : Text → Bool
is_loopback host = text_eq host (codes "127.0.0.1") || text_eq host (codes "localhost")

-- What `://` and what follows the host may not hold.
abbrev pub not_in_origin : List ℕ
not_in_origin = b'/' ∷ b'?' ∷ b'#' ∷ b'@' ∷ []

abbrev pub valid_origin : Text → Text → Text → Bool
valid_origin scheme host authority =
    (text_eq scheme (codes "https") || text_eq scheme (codes "http") && is_loopback host)
    && not (text_eq host [])
    && not (has_any not_in_origin authority)

abbrev pub host_of : Option (Text × Text) → Option Text
host_of none = none
host_of (some (scheme, authority)) =
    let host = until_char b':' authority in
    if valid_origin scheme host authority then some host else none

-- `public_host`
unfoldable pub public_host : Text → Option Text
unfolding split_at_text until_char
public_host url = host_of (split_at_text (codes "://") url)

public_host_values :
    (public_host (codes "https://trustee.example") ≡ some (codes "trustee.example"))
    × (public_host (codes "https://trustee.example:8443") ≡ some (codes "trustee.example"))
    × (public_host (codes "http://127.0.0.1:8080") ≡ some (codes "127.0.0.1"))
    × (public_host (codes "http://localhost") ≡ some (codes "localhost"))
    × (public_host (codes "http://trustee.example") ≡ none)
    × (public_host (codes "http://127.0.0.1.trustee.example") ≡ none)
    × (public_host (codes "https://trustee.example/") ≡ none)
    × (public_host (codes "https://user@trustee.example") ≡ none)
    × (public_host (codes "https://") ≡ none)
    × (public_host (codes "trustee.example") ≡ none)
    × (public_host (codes "https://[::1]:8443") ≡ some (codes "["))
    × (public_host (codes "https://h:not-a-port") ≡ some (codes "h"))
unfolding public_host strip_prefix text_eq
public_host_values = (refl, refl, refl, refl, refl, refl, refl, refl, refl, refl, refl, refl)

split_at_text_sound :
    (sep text before rest : Text)
    → split_at_text sep text ≡ some (before, rest)
    → text ≡ before ++ sep ++ rest
unfolding split_at_text
split_at_text_sound sep [] before rest h = cc
split_at_text_sound sep (c ∷ cs) before rest h = elim (Option-cases (strip_prefix sep (c ∷ cs))) [
  | inr (tail, e) ↦ ground (arith, e, strip_prefix_sound sep (c ∷ cs) tail e)
  | inl e ↦ elim (Option-cases (split_at_text sep cs)) [
    | inl none_left ↦ absurd (ground (arith, e, none_left))
    | inr ((b, a), later) ↦ ground (arith, e, later, split_at_text_sound sep cs b a later)
  ]
]

-- The host, and what follows it: nothing, or a colon and any text.
until_char_sound :
    (sep : ℕ) (text : Text)
    → (rest : Text) × (text ≡ until_char sep text ++ rest)
      × ((rest ≡ []) ⊎ ((port : Text) × (rest ≡ sep ∷ port)))
      × (has_any (sep ∷ []) (until_char sep text) ≡ false)
unfolding until_char
until_char_sound sep [] = ([], refl, inl refl, refl)
until_char_sound sep (c ∷ cs) = elim (Bool-cases (c == sep)) [
  | inl hit ↦ (c ∷ cs, ground (arith, hit), inr (cs, ground (arith, hit)), ground (arith, hit))
  | inr miss ↦
      let (rest, e, kind, free) = until_char_sound sep cs in
      (rest, ground (arith, miss, e), kind, ground (arith, miss, free))
]

until_char-append :
    (sep : ℕ) (text rest : Text)
    → has_any (sep ∷ []) text ≡ false
    → (rest ≡ []) ⊎ ((port : Text) × (rest ≡ sep ∷ port))
    → until_char sep (text ++ rest) ≡ text
unfolding until_char
until_char-append sep [] rest h (inl e) = ground (arith, e)
until_char-append sep [] rest h (inr (port, e)) = ground (arith, e)
until_char-append sep (c ∷ cs) rest h kind =
    ground (arith, until_char-append sep cs rest (ground (arith, h)) kind)

-- A URL that has a host: a scheme, the host, which has no colon, and nothing or a colon and any text,
-- the port, which need not be a number. The scheme is https, or http for a loopback host.
pub record HasHost (url host : Text) : Type 0 where
  pub scheme : Text
  pub rest : Text
  pub parts : url ≡ scheme ++ codes "://" ++ (host ++ rest)
  pub port : (rest ≡ []) ⊎ ((port : Text) × (rest ≡ b':' ∷ port))
  pub safe : (scheme ≡ codes "https") ⊎ (scheme ≡ codes "http") × (is_loopback host ≡ true)
  pub named : host ≢ []
  pub no_colon : has_any (b':' ∷ []) host ≡ false
  pub bare : has_any not_in_origin (host ++ rest) ≡ false

valid_origin_sound :
    (scheme host authority : Text)
    → valid_origin scheme host authority ≡ true
    → ((scheme ≡ codes "https") ⊎ (scheme ≡ codes "http") × (is_loopback host ≡ true))
      × (host ≢ [])
      × (has_any not_in_origin authority ≡ false)
valid_origin_sound scheme host authority h =
    let https = text_eq_iff scheme (codes "https") in
    let http = text_eq_iff scheme (codes "http") in
    let empty = text_eq_iff host [] in
    (ground (arith, https, http), λ e. ground (arith, empty, e), ground arith)

host_of-HasHost :
    (url scheme authority : Text)
    → url ≡ scheme ++ codes "://" ++ authority
    → valid_origin scheme (until_char b':' authority) authority ≡ true
    → HasHost url (until_char b':' authority)
host_of-HasHost url scheme authority e good =
    let (rest, parts, port, free) = until_char_sound b':' authority in
    let (safe, named, bare) =
      valid_origin_sound scheme (until_char b':' authority) authority good in
    record {
      scheme = scheme;
      rest = rest;
      parts = e ∙ ap (λ a. scheme ++ codes "://" ++ a) parts;
      port = port;
      safe = safe;
      named = named;
      no_colon = free;
      bare = ap (has_any not_in_origin) (sym parts) ∙ bare;
    }

public_host_sound : (url host : Text) → public_host url ≡ some host → HasHost url host
unfolding public_host
public_host_sound url host h = elim (Option-cases (split_at_text (codes "://") url)) [
  | inl e ↦ absurd (ground (arith, e))
  | inr ((scheme, authority), e) ↦
      elim (Bool-cases (valid_origin scheme (until_char b':' authority) authority)) [
        | inr bad ↦ absurd (ground (arith, e, bad))
        | inl good ↦ subst (HasHost url) (ground (arith, e, good)) (
            host_of-HasHost url scheme authority
              (split_at_text_sound (codes "://") url scheme authority e) good)
      ]
]

https_split :
    (authority : Text)
    → split_at_text (codes "://") (codes "https" ++ codes "://" ++ authority)
      ≡ some (codes "https", authority)
unfolding split_at_text strip_prefix
https_split authority = refl

http_split :
    (authority : Text)
    → split_at_text (codes "://") (codes "http" ++ codes "://" ++ authority)
      ≡ some (codes "http", authority)
unfolding split_at_text strip_prefix
http_split authority = refl

-- A scheme that is split off, and that `public_host` accepts.
abbrev IsSafe : Text → Text → Text → Type 0
IsSafe host authority scheme =
    (split_at_text (codes "://") (scheme ++ codes "://" ++ authority) ≡ some (scheme, authority))
    × ((text_eq scheme (codes "https") || text_eq scheme (codes "http") && is_loopback host) ≡ true)

scheme_split :
    (scheme host authority : Text)
    → (scheme ≡ codes "https") ⊎ (scheme ≡ codes "http") × (is_loopback host ≡ true)
    → IsSafe host authority scheme
scheme_split scheme host authority (inl e) =
    subst (IsSafe host authority) (sym e)
      (https_split authority, ground (arith, text_eq_refl (codes "https")))
scheme_split scheme host authority (inr (e, loop)) =
    subst (IsSafe host authority) (sym e)
      (http_split authority, ground (arith, loop, text_eq_refl (codes "http")))

public_host_complete : (url host : Text) → HasHost url host → public_host url ≡ some host
unfolding public_host
public_host_complete url host o =
    let (split, safe) = scheme_split o.scheme host (host ++ o.rest) o.safe in
    let found = until_char-append b':' host o.rest o.no_colon o.port in
    let named = (text_eq_iff host []).0 in
    let spelled : split_at_text (codes "://") url ≡ some (o.scheme, host ++ o.rest) =
      ap (split_at_text (codes "://")) o.parts ∙ split in
    elim (Bool-cases (text_eq host [])) [
      | inl nameless ↦ absurd (o.named (named nameless))
      | inr name ↦ rw (spelled, found, safe, o.bare, name) refl
    ]

-- `public_host` gives a host exactly of a URL that is `https://`, or `http://` for 127.0.0.1 or
-- localhost, then the host, which is any text without a colon that is not empty, and then nothing or a
-- colon and any text, and in which no slash, question mark, hash or at sign follows the `://`.
pub public_host_iff : (url host : Text) → (public_host url ≡ some host) ↔ HasHost url host
public_host_iff url host = (public_host_sound url host, public_host_complete url host)
