-- ===== src/Session/Tests/SignIn.antt =====
-- The provider and the sign-in callback at concrete inputs: a server that knows one user.
use kube_memos_eks.Errors.{Thrown, a_string}
use kube_memos_eks.Session.Tests.Codecs.{dates, json}
use kube_memos_eks.Session.Token.{get_access_token}
use kube_memos_eks.Session.Token.Laws.{reload}
use kube_memos_eks.Session.OAuth.{
  OAuthState, Pkce, secure_state, validate_oauth_state, state_storage_key,
}
use kube_memos_eks.Session.Auth.{
  App, AuthClient, SettingValue, initial_auth, signed_out, initialize, logout,
}
use kube_memos_eks.Session.Auth.Laws.{HasUser, HasNone, initialize_settles, logout_forgets}
use kube_memos_eks.Session.Callback.{SearchParams, World, SignInResponse, SignIn, callback}
use kube_memos_eks.Session.Callback.Laws.{handled, Untouched, SignedIn, callback_guards}
use kube_memos_eks.Queries.{User, user_current}
use kube_memos_eks.Queries.Store.{Store, store}
use kube_memos_eks.Session.Instance.{
  InstanceSetting, Instance, InstanceClient, memo_related_setting, find_setting, update_setting,
}
use kube_memos_eks.Session.Instance.Laws.{update_setting_stores}
use kube_memos_eks.Base.{
  Action, Storage, update, ok, err, ℕ, String, ◌≡◌, refl, ◌⊎◌, Bool, true, false, Option, none,
  some, [], ◌∷◌,
}

abbrev no_items : Storage String
no_items = record { available = true; has_room = true; items = λ _. none }

abbrev ann : User
ann = record { name = "users/1" }

-- Whoever has a token is Ann.
abbrev who : Action (App Store) Thrown (Option User)
who w = elim w.session.access_token [ none ↦ (ok none, w) | some _ ↦ (ok (some ann), w) ]

abbrev refuse_sign_out : Action (App Store) Thrown (Unit {0})
refuse_sign_out w = (err (a_string "down"), w)

abbrev server : AuthClient Store Thrown
server = record {
  get_current_user = who;
  list_user_settings = λ _ w. (ok (SettingValue.no_setting ∷ []), w);
  list_shortcuts = λ _ w. (ok [], w);
  sign_out = refuse_sign_out;
}

abbrev app_with : Option String → Storage String → App Store
app_with token st = record {
  session = record { access_token = token; token_expires_at = none; storage = st };
  auth = initial_auth;
  cache = λ _. none;
}

initialize_settles_example :
    ((initialize server store (app_with (some "t") no_items)).auth.is_initialized ≡ true)
    × ((initialize server store (app_with (some "t") no_items)).auth.is_loading ≡ false)
    × (HasUser store (initialize server store (app_with (some "t") no_items))
        ⊎ HasNone store (initialize server store (app_with (some "t") no_items)))
initialize_settles_example = initialize_settles store server (app_with (some "t") no_items)

logout_forgets_example :
    ((logout server store (app_with (some "t") no_items)).auth ≡ signed_out)
    × ((logout server store (app_with (some "t") no_items)).session.access_token ≡ none)
    × (store.get_query_data user_current (logout server store (app_with (some "t") no_items)).cache
        ≡ none)
    × (get_access_token dates 5
          (reload (logout server store (app_with (some "t") no_items)).session)
        ≡ none)
logout_forgets_example =
    logout_forgets store server dates 5 user_current (app_with (some "t") no_items) refl

abbrev proof : Pkce
proof = record { code_verifier = 65 ∷ []; code_challenge = 66 ∷ [] }

abbrev stored_sign_in : OAuthState
stored_sign_in = record {
  state = secure_state (7 ∷ 250 ∷ []);
  identity_provider_id = 4;
  timestamp = 10;
  return_url = some "/inbox";
  code_verifier = some (65 ∷ []);
}

abbrev waiting : Storage String
waiting = record no_items {
  items = update no_items.items state_storage_key (some (json.stringify stored_sign_in));
}

abbrev response : SignInResponse
response = record { access_token = "new"; access_token_expires_at = some 90 }

abbrev provider : SignIn Store Thrown
provider = record {
  dates = dates;
  json = json;
  queries = store;
  client = server;
  sign_in = λ _ w. (ok response, w);
  redirect_uri = "https://memos/auth/callback";
  decode = some;
  uri_error = "URI malformed";
}

abbrev led_back : SearchParams
led_back = record {
  error = none;
  error_description = none;
  error_uri = none;
  code = some "abc";
  state = some (secure_state (7 ∷ 250 ∷ []));
}

abbrev opened : World Store
opened = record {
  page = record { handled = false; loading = true; error_message = "" };
  app = app_with none waiting;
  location = none;
}

abbrev sent : World Store
sent = record (handled opened) {
  app = app_with none (validate_oauth_state json 20 (secure_state (7 ∷ 250 ∷ [])) waiting).1;
}

callback_guards_example :
    Untouched opened (callback provider 20 led_back opened).1
    ⊎ SignedIn provider 20 led_back opened (callback provider 20 led_back opened).1
callback_guards_example = callback_guards provider 20 led_back opened

abbrev memo_setting : Bool → InstanceSetting
memo_setting b = record {
  name = "instance/settings/MEMO_RELATED";
  value =
      memo_related_setting (record { disallow_public_visibility = b; content_length_limit = 8192 });
}

abbrev open_instance : Instance ℕ
open_instance = record {
  state = record {
    profile = 0;
    settings = memo_setting false ∷ [];
    is_initialized = true;
    is_loading = false;
  };
  disallow_public_visibility = false;
}

abbrev instance_server : InstanceClient ℕ Thrown
instance_server = record {
  get_instance_profile = λ w. (ok 0, w);
  get_instance_setting = λ _ w. (ok (memo_setting false), w);
  update_instance_setting = λ s w. (ok s, w);
}

update_setting_stores_example :
    ((update_setting instance_server (memo_setting true) open_instance).0 ≡ ok tt)
    × (find_setting "instance/settings/MEMO_RELATED"
          (update_setting instance_server (memo_setting true) open_instance).1.state.settings
        ≡ some (memo_setting true))
    × ((update_setting instance_server
          (memo_setting true)
          open_instance).1.disallow_public_visibility
        ≡ false)
update_setting_stores_example =
    update_setting_stores instance_server (memo_setting true) (memo_setting true)
      "instance/settings/MEMO_RELATED" open_instance open_instance refl
