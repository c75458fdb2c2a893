-- ===== src/Session/Token.antt =====
-- The access token in memory and in session storage (auth-state.ts). Times are milliseconds; the
-- text form of a `Date` is a parameter.
pub mod Laws
use kube_memos_eks.Base.{
  ltb, leb, if◌then◌else◌, truthy, truthy_string, is_some, nullish, Storage, get_item, set_item,
  remove_item, attempt, ok, err, ℕ, ◌-◌, String, ◌≡◌, Bool, true, ◌&&◌, Option, none, some, [], ◌∷◌,
}

-- `toISOString()` and `new Date(text)`, which gives no time for an invalid text.
pub record DateText : Type 0 where
  pub to_iso : ℕ → String
  pub parse_date : String → Option ℕ
  pub parse_date-to_iso : (t : ℕ) → parse_date (to_iso t) ≡ some t
  pub to_iso-truthy : (t : ℕ) → truthy (to_iso t) ≡ true

abbrev pub session_token_key : String
session_token_key = "memos_access_token"

abbrev pub session_expires_key : String
session_expires_key = "memos_token_expires_at"

-- The module's two variables, and `sessionStorage`.
pub record Session : Type 0 where
  pub access_token : Option String
  pub token_expires_at : Option ℕ
  pub storage : Storage String

abbrev remove_both : Storage String → Storage String
remove_both = attempt (remove_item session_token_key ∷ remove_item session_expires_key ∷ [])

module _ (d : DateText) where
  open d use {to_iso, parse_date}

  -- The branch on a stored token and a stored time: an invalid date is not later than now.
  unfoldable pub restore : ℕ → String → String → Session → Session
  restore now token expires s = elim (parse_date expires) [
    | none ↦ record s { storage = remove_both s.storage }
    | some e ↦
        if ltb now e
        then record s { access_token = some token; token_expires_at = some e }
        else record s { storage = remove_both s.storage }
  ]

  abbrev stored : String → Session → Option String
  stored key s = elim (get_item key s.storage) [ ok v ↦ v | err _ ↦ none ]

  -- The session after `getAccessToken`; a storage that throws restores nothing.
  unfoldable pub get_access_session : ℕ → Session → Session
  unfolding restore
  get_access_session now s =
      if truthy_string s.access_token
      then s
      else if truthy_string (stored session_token_key s)
          && truthy_string (stored session_expires_key s)
      then restore now (nullish (stored session_token_key s) "")
          (nullish (stored session_expires_key s) "") s
      else s

  -- What `getAccessToken` returns.
  abbrev pub get_access_token : ℕ → Session → Option String
  get_access_token now s = (get_access_session now s).access_token

  unfoldable pub set_access_token : Option String → Option ℕ → Session → Session
  set_access_token token expires s = record {
    access_token = token;
    token_expires_at = expires;
    storage =
        if truthy_string token && is_some expires
        then attempt
            (set_item session_token_key (nullish token "")
              ∷ set_item session_expires_key (to_iso (nullish expires 0))
              ∷ [])
            s.storage
        else remove_both s.storage;
  }

-- Expired 30 seconds early. In the source the difference may be negative, which no time is before; it
-- stops at 0 here, which no time is before either.
unfoldable pub is_token_expired : ℕ → Session → Bool
is_token_expired now s = elim s.token_expires_at [ none ↦ true | some e ↦ leb (e - 30000) now ]

unfoldable pub clear_access_token : Session → Session
clear_access_token s = record {
  access_token = none;
  token_expires_at = none;
  storage = remove_both s.storage;
}
