-- ===== src/Session/Auth.antt =====
-- Who is signed in (contexts/AuthContext.tsx): the provider's state with the access token and the
-- query cache that it changes. The server's calls are parameters; a call may change all of these, as
-- the interceptor does. A call that is refused gives an error of whatever type.
pub mod Laws
use kube_memos_eks.Session.Token.{Session, clear_access_token}
use kube_memos_eks.Queries.{QueryClient, CacheData, User, user_current, user_detail}
use kube_memos_eks.Base.{
  Result, Action, ◌>>=◌, pure, ok, err, String, Bool, true, false, Option, none, some, List, [],
  ◌∷◌,
}

-- The settings of a user, with the fields of types/proto/api/v1/user_service_pb.ts.
pub record GeneralSetting : Type 0 where
  pub locale : String
  pub memo_visibility : String
  pub theme : String

pub record Webhook : Type 0 where
  pub name : String
  pub url : String

pub record Shortcut : Type 0 where
  pub name : String
  pub title : String
  pub filter_text : String

-- `value` of a `UserSetting`.
pub data SettingValue : Type 0 where
  general_setting : GeneralSetting → SettingValue
  webhooks_setting : List Webhook → SettingValue
  no_setting : SettingValue

pub record AuthState : Type 0 where
  pub current_user : Option User
  pub user_general_setting : Option GeneralSetting
  pub user_webhooks_setting : Option (List Webhook)
  pub shortcuts : List Shortcut
  pub is_initialized : Bool
  pub is_loading : Bool

abbrev pub initial_auth : AuthState
initial_auth = record {
  current_user = none;
  user_general_setting = none;
  user_webhooks_setting = none;
  shortcuts = [];
  is_initialized = false;
  is_loading = true;
}

-- The state that is set without a user.
abbrev pub signed_out : AuthState
signed_out = record initial_auth { is_initialized = true; is_loading = false }

pub record App (Cache : Type 0) : Type 0 where
  pub session : Session
  pub auth : AuthState
  pub cache : Cache

-- `settings.find((s) => s.value.case === "generalSetting")` and its value.
unfoldable pub find_general : List SettingValue → Option GeneralSetting
find_general [] = none
find_general (general_setting g ∷ ss) = some g
find_general (webhooks_setting _ ∷ ss) = find_general ss
find_general (no_setting ∷ ss) = find_general ss

unfoldable pub find_webhooks : List SettingValue → Option (List Webhook)
find_webhooks [] = none
find_webhooks (webhooks_setting w ∷ ss) = some w
find_webhooks (general_setting _ ∷ ss) = find_webhooks ss
find_webhooks (no_setting ∷ ss) = find_webhooks ss

abbrev pub with_second : {W E A B : Type 0} → Result E A → Result E B × W → Result E (A × B) × W
with_second (ok a) (ok b, w) = (ok (a, b), w)
with_second (ok a) (err e, w) = (err e, w)
with_second (err e) (_, w) = (err e, w)

-- `Promise.all` of two calls: both run, and the result is refused when one of them is.
abbrev pub both : {W E A B : Type 0} → Action W E A → Action W E B → Action W E (A × B)
both f g w = with_second (f w).0 (g (f w).1)

pub record AuthClient (Cache E : Type 0) : Type 0 where
  pub get_current_user : Action (App Cache) E (Option User)
  pub list_user_settings : String → Action (App Cache) E (List SettingValue)
  pub list_shortcuts : String → Action (App Cache) E (List Shortcut)
  pub sign_out : Action (App Cache) E (Unit {0})

pub record UserSettings : Type 0 where
  pub general : Option GeneralSetting
  pub webhooks : Option (List Webhook)
  pub shortcuts : List Shortcut

module _ {Cache : Type 0} where
  -- `clearAccessToken(); setState({ … })`
  unfoldable pub drop_user : App Cache → App Cache
  drop_user w = record w { session = clear_access_token w.session; auth = signed_out }

  module _ {E : Type 0} (client : AuthClient Cache E) where
    open client use {get_current_user, list_user_settings, list_shortcuts, sign_out}

    -- `fetchUserSettings`
    unfoldable pub fetch_user_settings : String → Action (App Cache) E UserSettings
    fetch_user_settings name = do
      (settings, shortcuts) ← both (list_user_settings name) (list_shortcuts name)
      pure (record {
        general = find_general settings;
        webhooks = find_webhooks settings;
        shortcuts = shortcuts;
      })

    module _ (q : QueryClient Cache) where
      open q use {set_query_data, clear}

      -- After the settings of a user came, or were refused.
      unfoldable pub keep_user : User → Result E UserSettings × App Cache → App Cache
      keep_user u (err _, w) = drop_user w
      keep_user u (ok s, w) = record w {
        auth = record {
          current_user = some u;
          user_general_setting = s.general;
          user_webhooks_setting = s.webhooks;
          shortcuts = s.shortcuts;
          is_initialized = true;
          is_loading = false;
        };
        cache =
            set_query_data (user_detail u.name) (CacheData.a_user u)
              (set_query_data user_current (CacheData.a_user u) w.cache);
      }

      -- After the current user came, was absent, or was refused.
      unfoldable pub take_user : Result E (Option User) × App Cache → App Cache
      unfolding keep_user
      take_user (err _, w) = drop_user w
      take_user (ok none, w) = drop_user w
      take_user (ok (some u), w) = keep_user u (fetch_user_settings u.name w)

      -- `initialize`; what it catches is only logged.
      unfoldable pub initialize : App Cache → App Cache
      unfolding take_user
      initialize w =
          take_user (get_current_user (record w { auth = record w.auth { is_loading = true } }))

      -- `logout`
      unfoldable pub logout : App Cache → App Cache
      unfolding drop_user
      logout w = let w' = drop_user (sign_out w).1 in record w' { cache = clear w'.cache }

    unfoldable pub put_settings : Result E UserSettings × App Cache → App Cache
    put_settings (err _, w) = w
    put_settings (ok s, w) = record w {
      auth = record w.auth {
        user_general_setting = s.general;
        user_webhooks_setting = s.webhooks;
        shortcuts = s.shortcuts;
      };
    }

    -- `refetchSettings`; a refusal is not handled, and changes nothing.
    unfoldable pub refetch_settings : App Cache → App Cache
    unfolding put_settings
    refetch_settings w = elim w.auth.current_user [
      | none ↦ w
      | some u ↦ put_settings (fetch_user_settings u.name w)
    ]
