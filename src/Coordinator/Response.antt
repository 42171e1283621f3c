-- ===== src/Coordinator/Response.antt =====
-- auth_session/auth_protocol.py, and the classification of a refresh response in
-- auth_session/coordinator.py (`_response_continuation`, `_response_message`,
-- `_normalized_response_class`). Of a response the code reads the status and the JSON value of the
-- body, if `response.json` does not raise. The merge of the cookies is Python's `http.cookies`: its
-- result, if both tokens are set and nothing raises, is a field.
use enji_guard_cli.Prelude.{
  ℕ, String, Bool, false, Option, none, some, ◌&&◌, ◌||◌, ◌=s◌, ◌==◌, if◌then◌else◌,
}
use enji_guard_cli.Json.{Json, text, object, Fields, get, equals_text}
use enji_guard_cli.Store.{Continuation, Credential, cookie, bearer_token}

pub record Response : Type 0 where
  pub status_code : ℕ
  pub body : Option Json
  pub merged : String → Option String

-- `HTTP_AUTH_FAILURE_CODES`
abbrev is_auth_failure : ℕ → Bool
is_auth_failure c = c == 401 || c == 403

abbrev has_invalid_code : Fields → Json → Bool
has_invalid_code payload (object error) = equals_text (get error "code") "AUTH_INVALID"
has_invalid_code payload _ = equals_text (get payload "code") "AUTH_INVALID"

abbrev auth_invalid_body : Option Json → Bool
auth_invalid_body (some (object payload)) = has_invalid_code payload (get payload "error")
auth_invalid_body _ = false

unfoldable pub is_auth_invalid_response : Response → Bool
is_auth_invalid_response r = is_auth_failure r.status_code && auth_invalid_body r.body

abbrev refresh_invalid_body : Option Json → Bool
refresh_invalid_body (some (object payload)) =
    equals_text (get payload "error") "invalid refresh token"
refresh_invalid_body _ = false

unfoldable pub is_refresh_token_invalid_response : Response → Bool
unfolding is_auth_invalid_response
is_refresh_token_invalid_response r =
    is_auth_invalid_response r || (is_auth_failure r.status_code && refresh_invalid_body r.body)

abbrev text_message : Json → Option String
text_message (text s) = some s
text_message _ = none

abbrev message_of : Option Json → Option String
message_of (some (object payload)) = text_message (get payload "message")
message_of _ = none

unfoldable pub response_message : Response → Option String
response_message r = message_of r.body

abbrev is_message : Option String → String → Bool
is_message none s = false
is_message (some m) s = m =s s

unfoldable pub is_confirmed_refresh_rejection : Response → Bool
unfolding is_refresh_token_invalid_response
is_confirmed_refresh_rejection r =
    is_auth_failure r.status_code && is_refresh_token_invalid_response r

-- `RecoveryContinuation | Literal["stop"]`
unfoldable pub response_continuation : Response → Continuation
unfolding response_message is_confirmed_refresh_rejection
response_continuation r =
    let message = response_message r in
    if r.status_code == 502 && is_message message "failed to refresh session"
    then Continuation.safe_retry
    else if is_confirmed_refresh_rejection r
    then Continuation.validation_recovery
    else if is_auth_failure r.status_code
        && (is_message message "session is no longer valid"
            || is_message message "account is blocked")
    then Continuation.stop
    else Continuation.ambiguity_replay

abbrev merged_for : Credential → Response → Option String
merged_for (bearer_token _) r = none
merged_for (cookie header) r = r.merged header

unfoldable pub successful_replacement : Credential → Response → Option String
successful_replacement credential r = if r.status_code == 200 then merged_for credential r else none
