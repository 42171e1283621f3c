-- ===== src/Store/AuthFile.antt =====
-- auth_session/store.py: the credential file (`stored_auth`, `_parse_auth`,
-- `_credential_metadata`, `_parse_utc_timestamp`, `_validate_imported_at`, `_parse_credential`).
pub mod Laws
use enji_guard_cli.Prelude.{
  ℕ, ◌+◌, String, Bool, true, false, Option, none, some, [], ◌∷◌, ◌=s◌, ltb, ◌||◌, if◌then◌else◌,
  not,
}
use enji_guard_cli.Json.{Json, text, int, object, Fields, members, get, equals_int, equals_text}
use enji_guard_cli.Timestamps.{IsoFormat, Datetime}
use enji_guard_cli.Store.{
  Credential, cookie, bearer_token, StoredAuth, AuthLoadResult, auth_corrupt, auth_unsupported,
  auth_clock_anomaly, auth_loaded,
}

-- `IMPORTED_AT_FUTURE_TOLERANCE`, in microseconds
abbrev pub future_tolerance : ℕ
future_tolerance = 5_000_000

-- `revision` is the fresh `uuid4` where the caller gives none, `now` the reading of the clock.
unfoldable pub stored_auth : IsoFormat → ℕ → String → Credential → String → StoredAuth
stored_auth iso now base_url credential revision = record {
  revision = revision;
  base_url = base_url;
  credential = credential;
  imported_at = iso.isoformat now;
}

abbrev credential_fields : Credential → Fields
credential_fields (cookie header) =
    members (("type", text "cookie") ∷ ("cookie_header", text header) ∷ [])
credential_fields (bearer_token token) =
    members (("type", text "bearer_token") ∷ ("token", text token) ∷ [])

-- The dictionary that `write_auth_file` stores.
unfoldable pub auth_fields : StoredAuth → Fields
auth_fields a = members (
    ("version", int 2)
    ∷ ("revision", text a.revision)
    ∷ ("base_url", text a.base_url)
    ∷ ("credential", object (credential_fields a.credential))
    ∷ ("imported_at", text a.imported_at)
    ∷ [])

pub record Metadata : Type 0 where
  pub revision : String
  pub base_url : String
  pub imported_at : String

abbrev metadata_of : Json → Json → Json → Option Metadata
metadata_of (text revision) (text base_url) (text imported_at) =
    if revision =s "" || base_url =s "" || imported_at =s ""
    then none
    else some (record { revision = revision; base_url = base_url; imported_at = imported_at })
metadata_of _ _ _ = none

unfoldable pub credential_metadata : Fields → Option Metadata
credential_metadata payload =
    metadata_of (get payload "revision") (get payload "base_url") (get payload "imported_at")

-- An aware datetime with another offset than zero is refused.
abbrev utc : Option Datetime → Option ℕ
utc (some (Datetime.aware true t)) = some t
utc _ = none

-- The result is the error, if there is one; the parsed instant is not used again.
abbrev future_error : Option ℕ → ℕ → Option AuthLoadResult
future_error none now =
    some (auth_corrupt "credential imported_at must be an ISO 8601 UTC timestamp")
future_error (some t) now =
    if ltb (now + future_tolerance) t then some (auth_clock_anomaly "imported_at") else none

unfoldable pub validate_imported_at : IsoFormat → String → ℕ → Option AuthLoadResult
validate_imported_at iso value now = future_error (utc (iso.fromisoformat value)) now

abbrev text_credential : (String → Credential) → Json → Option Credential
text_credential make (text s) = some (make s)
text_credential make _ = none

-- The first matching clause wins; the two types differ.
unfoldable pub parse_credential : Json → Option Credential
parse_credential (object raw) =
    if equals_text (get raw "type") "cookie"
    then text_credential cookie (get raw "cookie_header")
    else if equals_text (get raw "type") "bearer_token"
    then text_credential bearer_token (get raw "token")
    else none
parse_credential _ = none

abbrev with_credential : Metadata → Option Credential → AuthLoadResult
with_credential m none = auth_corrupt "credential is invalid"
with_credential m (some c) = auth_loaded (record {
  revision = m.revision;
  base_url = m.base_url;
  credential = c;
  imported_at = m.imported_at;
})

abbrev unless : Option AuthLoadResult → AuthLoadResult → AuthLoadResult
unless (some e) r = e
unless none r = r

abbrev with_metadata : IsoFormat → Fields → ℕ → Option Metadata → AuthLoadResult
with_metadata iso payload now none =
    auth_corrupt "credential revision, base_url, and imported_at must be non-empty strings"
with_metadata iso payload now (some m) =
    unless (validate_imported_at iso m.imported_at now)
      (with_credential m (parse_credential (get payload "credential")))

-- `now` is the argument of that name, or the reading of the clock.
unfoldable pub parse_auth : IsoFormat → ℕ → Json → AuthLoadResult
parse_auth iso now (object payload) =
    if equals_int (get payload "version") 2
    then with_metadata iso payload now (credential_metadata payload)
    else auth_unsupported (get payload "version")
parse_auth iso now _ = auth_corrupt "credential payload must be an object"
