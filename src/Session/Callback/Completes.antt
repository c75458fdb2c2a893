-- ===== src/Session/Callback/Completes.antt =====
-- The callback of a sign-in with the state that the sign-in stored.
use Prim.Native.String
use kube_memos_eks.Session.OAuth.{Validated, Pkce, verifier_of}
use kube_memos_eks.Session.Callback.{SignIn}
use kube_memos_eks.Session.Auth.{App, SettingValue, Shortcut, find_general}
use kube_memos_eks.Queries.{User}
use kube_memos_eks.Base.{ok, ℕ, String, ◌≡◌, true, false, Option, some, List}

module _ {Cache E : Type 0} (x : SignIn Cache E) where
  open x use {json, sign_in, client, queries}

  -- What a sign-in stored, as its validation returns it.
  abbrev pub stored_value : Option Pkce → ℕ → Option String → Validated
  stored_value pkce idp return_url = record {
    identity_provider_id = idp;
    return_url = return_url;
    code_verifier = verifier_of pkce;
  }

  -- A server that answers whoever has the token with the user, with settings and with shortcuts.
  abbrev pub Knows : String → User → List SettingValue → List Shortcut → Type 0
  Knows token u settings shortcuts =
      ((a : App Cache)
        → a.session.access_token ≡ some token
        → client.get_current_user a ≡ (ok (some u), a))
      × ((a : App Cache) → client.list_user_settings u.name a ≡ (ok settings, a))
      × ((a : App Cache) → client.list_shortcuts u.name a ≡ (ok shortcuts, a))

  -- The application in which the user is signed in with the token.
  abbrev pub HasSignedIn : String → User → List SettingValue → List Shortcut → App Cache → Type 0
  HasSignedIn token u settings shortcuts a =
      (a.session.access_token ≡ some token)
      × (a.auth.current_user ≡ some u)
      × (a.auth.user_general_setting ≡ find_general settings)
      × (a.auth.shortcuts ≡ shortcuts)
      × (a.auth.is_initialized ≡ true)
      × (a.auth.is_loading ≡ false)
