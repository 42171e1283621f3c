-- ===== src/Store/AuthFile/Laws.antt =====
-- The credential file: what is written is read back, and what that needs of the clock.
use enji_guard_cli.Prelude.{
  ap, ◌∙◌, ℕ, ◌+◌, String, false, some, ◌≡◌, refl, arith, ◌=s◌, ltb, if◌then◌else◌,
}
use enji_guard_cli.Json.{object, get, int}
use enji_guard_cli.Timestamps.{IsoFormat}
use enji_guard_cli.Store.{Credential, StoredAuth, auth_loaded, auth_clock_anomaly}
use enji_guard_cli.Store.AuthFile.{
  unless, with_metadata, future_error, stored_auth, auth_fields, credential_metadata,
  validate_imported_at, parse_credential, parse_auth, future_tolerance,
}

credential_lem :
    (a : StoredAuth) → parse_credential (get (auth_fields a) "credential") ≡ some a.credential
unfolding parse_credential get auth_fields
credential_lem a = ground arith

version_lem : (a : StoredAuth) → get (auth_fields a) "version" ≡ int 2
unfolding get auth_fields
version_lem a = refl

metadata_lem :
    (a : StoredAuth)
    → (a.revision =s "") ≡ false
    → (a.base_url =s "") ≡ false
    → (a.imported_at =s "") ≡ false
    → credential_metadata (auth_fields a)
      ≡ some (record { revision = a.revision; base_url = a.base_url; imported_at = a.imported_at })
unfolding credential_metadata get auth_fields
metadata_lem a r b i = rw (r, b, i)

auth_round_trip :
    (iso : IsoFormat) (now : ℕ) (a : StoredAuth)
    → (a.revision =s "") ≡ false
    → (a.base_url =s "") ≡ false
    → (a.imported_at =s "") ≡ false
    → parse_auth iso now (object (auth_fields a))
      ≡ unless (validate_imported_at iso a.imported_at now) (auth_loaded a)
auth_round_trip iso now a r b i =
    unfold parse_auth in
    rw (version_lem a)
      (cc (ap (with_metadata iso (auth_fields a) now) (metadata_lem a r b i), credential_lem a))

chosen :
    (now written : ℕ) (a : StoredAuth)
    → unless (future_error (some written) now) (auth_loaded a) ≡ (
        if ltb (now + future_tolerance) written
        then auth_clock_anomaly "imported_at"
        else auth_loaded a)
chosen now written a = ground arith

-- A credential that is stored at one reading of the clock and loaded at another is read back
-- whole, if its texts are not empty and the load is at most five seconds earlier; a load that is
-- earlier than that answers with the clock anomaly.
pub stored_auth_round_trip :
    (iso : IsoFormat) (written now : ℕ) (base_url revision : String) (c : Credential)
    → (revision =s "") ≡ false
    → (base_url =s "") ≡ false
    → let a = stored_auth iso written base_url c revision in
      parse_auth iso now (object (auth_fields a)) ≡ (
        if ltb (now + future_tolerance) written
        then auth_clock_anomaly "imported_at"
        else auth_loaded a)
unfolding stored_auth
stored_auth_round_trip iso written now base_url revision c r b =
    let a = stored_auth iso written base_url c revision in
    auth_round_trip iso now a r b (iso.isoformat_named written)
    ∙ (unfold validate_imported_at in rw iso.fromisoformat-isoformat (chosen now written a))
