-- ===== src/Json.antt =====
-- A value that `json.loads` returns, and the tests that the code makes of it. The JSON text itself
-- is read and written by Python's `json`, which is not modelled.
use enji_guard_cli.Prelude.{
  [], ◌∷◌, ℕ, String, Bool, true, false, Option, none, some, List, ◌=s◌, ◌==◌, any, if◌then◌else◌,
}

-- `negative n` is -(n + 1). Of a number with a fraction or an exponent the code can only ask which
-- integer it equals: `real` keeps that integer, if it is one and not negative.
mutual
  pub data Json : Type 0 where
    null : Json
    bool : Bool → Json
    int : ℕ → Json
    negative : ℕ → Json
    real : Option ℕ → Json
    text : String → Json
    array : Items → Json
    object : Fields → Json

  pub data Items : Type 0 where
    nil : Items
    cons : Json → Items → Items

  pub data Fields : Type 0 where
    end : Fields
    field : String → Json → Fields → Fields

-- A dictionary display, `{"key": value, …}`.
abbrev pub members : List (String × Json) → Fields
members [] = end
members ((key, v) ∷ rest) = field key v (members rest)

-- `payload.get(key, default)`
unfoldable pub get_or : Json → Fields → String → Json
get_or d end key = d
get_or d (field k v fs) key = if k =s key then v else get_or d fs key

-- `payload.get(key)`: `None` where the key is missing
unfoldable pub get : Fields → String → Json
unfolding get_or
get = get_or null

-- `value == n` for an integer constant `n`; a Boolean equals 0 or 1
abbrev pub equals_int : Json → ℕ → Bool
equals_int (int n) k = n == k
equals_int (real (some n)) k = n == k
equals_int (bool true) k = 1 == k
equals_int (bool false) k = 0 == k
equals_int _ k = false

-- `value == s` for a string constant `s`
abbrev pub equals_text : Json → String → Bool
equals_text (text t) s = t =s s
equals_text _ s = false

abbrev pub is_bool : Json → Bool
is_bool (bool _) = true
is_bool _ = false

abbrev pub is_null : Json → Bool
is_null null = true
is_null _ = false

abbrev pub is_text : Json → Bool
is_text (text _) = true
is_text _ = false

-- `isinstance(value, str | type(None))`
abbrev pub is_text_or_null : Json → Bool
is_text_or_null (text _) = true
is_text_or_null null = true
is_text_or_null _ = false

-- `value in {"…", …}`: a list or an object has no hash, so the test raises `TypeError`, which is
-- `none` here.
abbrev pub in_set : List String → Json → Option Bool
in_set names (text t) = some (any (λ s. t =s s) names)
in_set names (array _) = none
in_set names (object _) = none
in_set names _ = some false

abbrev pub as_bool : Json → Option Bool
as_bool (bool b) = some b
as_bool _ = none

abbrev pub as_text : Json → Option String
as_text (text s) = some s
as_text _ = none

abbrev pub as_text_or_null : Json → Option (Option String)
as_text_or_null (text s) = some (some s)
as_text_or_null null = some none
as_text_or_null _ = none

-- An integer that is not negative.
abbrev pub as_count : Json → Option ℕ
as_count (int n) = some n
as_count _ = none

abbrev pub as_count_or_null : Json → Option (Option ℕ)
as_count_or_null (int n) = some (some n)
as_count_or_null null = some none
as_count_or_null _ = none

-- What `json.dumps` makes of an optional value.
abbrev pub text_or_null : Option String → Json
text_or_null (some s) = text s
text_or_null none = null

abbrev pub int_or_null : Option ℕ → Json
int_or_null (some n) = int n
int_or_null none = null
