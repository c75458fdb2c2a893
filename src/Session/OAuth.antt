-- ===== src/Session/OAuth.antt =====
-- The state of an OAuth sign-in in session storage (utils/oauth.ts). The random bytes, the PKCE
-- parameters that `crypto` gives, and the JSON form of the stored record are parameters.
pub mod Laws
pub mod Hex
use kube_memos_eks.Base.{
  ltb, if◌then◌else◌, truthy, Text, text_eq, Result, StorageError, Storage, get_item, set_item,
  remove_item, ok, err, ℕ, ◌+◌, ◌-◌, ◌/◌, ◌%◌, String, ◌≡◌, Bool, true, not, Option, none, some,
  List, [], ◌∷◌,
}

abbrev pub state_storage_key : String
state_storage_key = "oauth_state"

-- 10 minutes.
abbrev pub state_expiry_ms : ℕ
state_expiry_ms = 600000

pub record OAuthState : Type 0 where
  pub state : Text
  pub identity_provider_id : ℕ
  pub timestamp : ℕ
  pub return_url : Option String
  pub code_verifier : Option Text

-- `JSON.stringify` and `JSON.parse` at this record: a text that does not parse throws. The item is
-- written by `storeOAuthState` alone, so that what parses is taken to have the record's fields.
pub record Json : Type 0 where
  pub stringify : OAuthState → String
  pub parse : String → Option OAuthState
  pub parse-stringify : (s : OAuthState) → parse (stringify s) ≡ some s
  pub stringify-truthy : (s : OAuthState) → truthy (stringify s) ≡ true

pub record Pkce : Type 0 where
  pub code_verifier : Text
  pub code_challenge : Text

-- Lower-case digits of base 16.
abbrev pub hex_digit : ℕ → ℕ
hex_digit n = if ltb n 10 then 48 + n else 87 + n

-- `byte.toString(16).padStart(2, "0")`, joined, for bytes below 256.
unfoldable pub secure_state : List ℕ → Text
secure_state [] = []
secure_state (b ∷ bytes) = hex_digit (b / 16) ∷ hex_digit (b % 16) ∷ secure_state bytes

pub record Validated : Type 0 where
  pub identity_provider_id : ℕ
  pub return_url : Option String
  pub code_verifier : Option Text

abbrev pub verifier_of : Option Pkce → Option Text
verifier_of none = none
verifier_of (some k) = some k.code_verifier

abbrev pub challenge_of : Option Pkce → Option Text
challenge_of none = none
challenge_of (some k) = some k.code_challenge

abbrev pub state_data : List ℕ → Option Pkce → ℕ → ℕ → Option String → OAuthState
state_data bytes pkce now idp return_url = record {
  state = secure_state bytes;
  identity_provider_id = idp;
  timestamp = now;
  return_url = return_url;
  code_verifier = verifier_of pkce;
}

module _ (j : Json) where
  open j use {stringify, parse}

  -- `storeOAuthState` from the random bytes and the PKCE parameters, which are absent where `crypto`
  -- is not available or fails. An error of the storage is thrown again as the one error of the flow.
  unfoldable pub store_oauth_state :
      (bytes : List ℕ) (pkce : Option Pkce) (now identity_provider_id : ℕ)
      (return_url : Option String)
      → Storage String
      → Result StorageError ((Text × Option Text) × Storage String)
  store_oauth_state bytes pkce now idp return_url st =
      elim (set_item state_storage_key (stringify (state_data bytes pkce now idp return_url)) st) [
        | ok st' ↦ ok ((secure_state bytes, challenge_of pkce), st')
        | err e ↦ err e
      ]

  abbrev pub Outcome : Type 0
  Outcome = Result StorageError (Option Validated) × Storage String

  -- The outer `catch`: a removal that throws there is thrown on.
  abbrev recover : Storage String → Outcome
  recover st = elim (remove_item state_storage_key st) [
    | ok st' ↦ (ok none, st')
    | err e ↦ (err e, st)
  ]

  -- `sessionStorage.removeItem(…); return …` inside the `try`.
  abbrev discard : Option Validated → Storage String → Outcome
  discard result st = elim (remove_item state_storage_key st) [
    | ok st' ↦ (ok result, st')
    | err _ ↦ recover st
  ]

  abbrev is_expired : ℕ → OAuthState → Bool
  is_expired now s = ltb state_expiry_ms (now - s.timestamp)

  abbrev pub validated : OAuthState → Validated
  validated s = record {
    identity_provider_id = s.identity_provider_id;
    return_url = s.return_url;
    code_verifier = s.code_verifier;
  }

  -- A clock that runs backwards gives a negative age, which is not expired: 0 here.
  unfoldable pub check_state : ℕ → Text → Option OAuthState → Storage String → Outcome
  check_state now state_param none st = recover st
  check_state now state_param (some s) st =
      if is_expired now s
      then discard none st
      else if not (text_eq s.state state_param)
      then discard none st
      else discard (some (validated s)) st

  unfoldable pub check_item :
      ℕ → Text → Result StorageError (Option String) → Storage String → Outcome
  unfolding check_state
  check_item now state_param (err _) st = recover st
  check_item now state_param (ok none) st = (ok none, st)
  check_item now state_param (ok (some raw)) st =
      if truthy raw then check_state now state_param (parse raw) st else (ok none, st)

  -- `validateOAuthState`
  unfoldable pub validate_oauth_state : ℕ → Text → Storage String → Outcome
  unfolding check_item
  validate_oauth_state now state_param st =
      check_item now state_param (get_item state_storage_key st) st

  abbrev drop_expired :
      ℕ → Option OAuthState → Storage String → Result StorageError (Storage String)
  drop_expired now none st = remove_item state_storage_key st
  drop_expired now (some s) st =
      if is_expired now s then remove_item state_storage_key st else ok st

  -- `cleanupExpiredOAuthState`
  unfoldable pub cleanup_expired_oauth_state :
      ℕ → Storage String → Result StorageError (Storage String)
  cleanup_expired_oauth_state now st = elim (get_item state_storage_key st) [
    | err _ ↦ remove_item state_storage_key st
    | ok none ↦ ok st
    | ok (some raw) ↦ if truthy raw then drop_expired now (parse raw) st else ok st
  ]
