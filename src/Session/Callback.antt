-- ===== src/Session/Callback.antt =====
-- The page that an OAuth provider leads back to (pages/AuthCallback.tsx): a client of the stored
-- state, of the access token and of the provider of the signed-in user. The sign-in call, the address
-- of the page and `decodeURIComponent` are parameters.
pub mod Laws
pub mod Completes
use Prim.Native.String
use kube_memos_eks.Errors.{Thrown, an_error, an_object, a_string, anything, storage_thrown}
use kube_memos_eks.Session.Token.{DateText, set_access_token}
use kube_memos_eks.Session.OAuth.{Json, Validated, validate_oauth_state}
use kube_memos_eks.Session.Auth.{App, AuthClient, initialize}
use kube_memos_eks.Queries.{QueryClient}
use kube_memos_eks.Base.{
  if◌then◌else◌, truthy, truthy_string, nullish, Text, Result, Action, StorageError, Storage, ok,
  err, ℕ, String, Bool, true, false, not, ◌&&◌, Option, none, some, [], ◌∷◌,
}

-- What `searchParams.get` gives for the five names that the page reads.
pub record SearchParams : Type 0 where
  pub error : Option String
  pub error_description : Option String
  pub error_uri : Option String
  pub code : Option String
  pub state : Option Text

-- The page's `State`, and its `handledRef`.
pub record Page : Type 0 where
  pub handled : Bool
  pub loading : Bool
  pub error_message : String

-- `sessionStorage` is that of the session; `location` is where the router was last led.
pub record World (Cache : Type 0) : Type 0 where
  pub page : Page
  pub app : App Cache
  pub location : Option String

-- The value of the `ssoCredentials` that the sign-in sends.
pub record SsoCredentials : Type 0 where
  pub idp_id : ℕ
  pub code : String
  pub redirect_uri : String
  pub code_verifier : Text

pub record SignInResponse : Type 0 where
  pub access_token : String
  pub access_token_expires_at : Option ℕ

pub record SignIn (Cache E : Type 0) : Type 0 where
  pub dates : DateText
  pub json : Json
  pub queries : QueryClient Cache
  pub client : AuthClient Cache E
  pub sign_in : SsoCredentials → Action (World Cache) Thrown SignInResponse
  pub redirect_uri : String
  pub decode : String → Option String
  pub uri_error : String

abbrev pub missing_message : String
missing_message = "Failed to authorize. Missing authorization code or state parameter."

abbrev pub invalid_message : String
invalid_message =
    "Failed to authorize. Invalid or expired state parameter. This may indicate a CSRF attack attempt."

-- `err instanceof Error ? err.message : "Failed to authenticate."`
unfoldable pub sign_in_message : Thrown → String
sign_in_message (an_error message _) = message
sign_in_message (an_object _ _) = "Failed to authenticate."
sign_in_message (a_string _) = "Failed to authenticate."
sign_in_message anything = "Failed to authenticate."

abbrev pub has_text : Option Text → Bool
has_text none = false
has_text (some []) = false
has_text (some (_ ∷ _)) = true

-- `returnUrl || "/"`
abbrev pub url_or_home : Option String → String
url_or_home none = "/"
url_or_home (some u) = if truthy u then u else "/"

module _ {Cache : Type 0} where
  -- `setState({ loading: false, errorMessage })`
  abbrev pub show : String → World Cache → World Cache
  show message w = record w { page = record w.page { loading = false; error_message = message } }

  abbrev pub with_app : App Cache → World Cache → World Cache
  with_app a w = record w { app = a }

  abbrev pub with_session_storage : Storage String → World Cache → World Cache
  with_session_storage st w = record w {
    app = record w.app { session = record w.app.session { storage = st } };
  }

  module _ {E : Type 0} (x : SignIn Cache E) where
    open x use {dates, json, queries, client, sign_in, redirect_uri, decode, uri_error}

    -- The parts of the message that are added for a description and for an address. A description
    -- that cannot be decoded throws.
    unfoldable pub add_description : Option String → String → Result Thrown String
    add_description none message = ok message
    add_description (some d) message =
        if truthy d
        then (elim (decode d) [
          | none ↦ err (an_error uri_error none)
          | some t ↦ ok (String.◌++◌ (String.◌++◌ message "\n") t)
        ])
        else ok message

    unfoldable pub add_uri : Option String → String → String
    add_uri none message = message
    add_uri (some u) message =
        if truthy u then String.◌++◌ (String.◌++◌ message "\nMore info: ") u else message

    unfoldable pub show_error :
        SearchParams → Result Thrown String → Action (World Cache) Thrown (Unit {0})
    unfolding add_uri
    show_error p (ok message) w = (ok tt, show (add_uri p.error_uri message) w)
    show_error p (err e) w = (err e, w)

    -- The token is kept if the response has one.
    unfoldable pub keep_token : SignInResponse → World Cache → World Cache
    keep_token r w =
        if truthy r.access_token
        then with_app
            (record w.app {
              session =
                  set_access_token dates (some r.access_token) r.access_token_expires_at
                    w.app.session;
            })
            w
        else w

    -- What follows the sign-in: its result, or its error, which is shown.
    unfoldable pub finish : Validated → Result Thrown SignInResponse × World Cache → World Cache
    unfolding keep_token
    finish v (ok r, w) =
        let w' = show "" (keep_token r w) in
        record w' {
          app = initialize client queries w'.app;
          location = some (url_or_home v.return_url);
        }
    finish v (err e, w) = show (sign_in_message e) w

    abbrev pub credentials : String → Validated → SsoCredentials
    credentials code v = record {
      idp_id = v.identity_provider_id;
      code = code;
      redirect_uri = redirect_uri;
      code_verifier = nullish v.code_verifier [];
    }

    -- What follows the validation of the state; a storage that throws is not caught.
    unfoldable pub authorize :
        String
        → Result StorageError (Option Validated) × Storage String
        → Action (World Cache) Thrown (Unit {0})
    unfolding finish
    authorize code (err e, st) w = (err (storage_thrown e), with_session_storage st w)
    authorize code (ok none, st) w = (ok tt, show invalid_message (with_session_storage st w))
    authorize code (ok (some v), st) w =
        (ok tt, finish v (sign_in (credentials code v) (with_session_storage st w)))

    -- The effect of the page, with the time at which it runs.
    unfoldable pub run_callback : ℕ → SearchParams → Action (World Cache) Thrown (Unit {0})
    unfolding authorize show_error add_description
    run_callback now p w =
        if truthy_string p.error
        then show_error p
            (add_description p.error_description (String.◌++◌ "OAuth error: " (nullish p.error "")))
            w
        else if not (truthy_string p.code && has_text p.state)
        then (ok tt, show missing_message w)
        else authorize (nullish p.code "")
            (validate_oauth_state json now (nullish p.state []) w.app.session.storage) w

    unfoldable pub callback : ℕ → SearchParams → Action (World Cache) Thrown (Unit {0})
    unfolding run_callback
    callback now p w =
        if w.page.handled
        then (ok tt, w)
        else run_callback now p (record w { page = record w.page { handled = true } })
