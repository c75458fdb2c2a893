-- ===== src/Session/Interceptor.antt =====
-- The authentication interceptor (connect.ts). The call of the server, `next`, and the refresh call
-- are parameters that may change the whole client; so may the clock's reading differ from call to call,
-- which is given as two times.
pub mod Calls
pub mod Outcomes
use Prim.Native.String
use kube_memos_eks.Session.Token.{DateText, Session, get_access_session, set_access_token}
use kube_memos_eks.Session.Redirect.{Browser, redirect_on_auth_failure}
use kube_memos_eks.Base.{
  if◌then◌else◌, truthy, truthy_string, nullish, Text, Result, Action, ◌>>=◌, ok, err, ℕ, String,
  Bool, true, false, not, ◌&&◌, Option, none, some, ◌++◌, str_eq,
}

pub data Code : Type 0 where
  unauthenticated internal : Code
  other : ℕ → Code

-- What a call throws: a `ConnectError` with its code, or anything else.
pub data RpcError : Type 0 where
  connect_error : Code → String → RpcError
  not_connect : String → RpcError

-- A request with the two headers that the interceptor sets, and the rest of it.
pub record Request : Type 0 where
  pub body : Text
  pub authorization : Option String
  pub retry : Option String

pub record Client (W : Type 0) : Type 0 where
  pub browser : Browser
  pub server : W

pub record RefreshResponse : Type 0 where
  pub access_token : String
  pub expires_at : Option ℕ

abbrev pub retry_header_value : String
retry_header_value = "true"

abbrev pub bearer : String → String
bearer token = String.◌++◌ "Bearer " token

abbrev missing_token : RpcError
missing_token = connect_error internal "Refresh token response missing access token"

abbrev pub is_unauthenticated : RpcError → Bool
is_unauthenticated (connect_error unauthenticated _) = true
is_unauthenticated _ = false

abbrev pub is_retry : Request → Bool
is_retry req = elim req.retry [ none ↦ false | some v ↦ str_eq v retry_header_value ]

abbrev no_token : RpcError
no_token = connect_error internal "Token refresh succeeded but no token available"

module _ {W : Type 0} (d : DateText) where
  abbrev pub with_session : (Session → Session) → Client W → Client W
  with_session f c = record c { browser = record (c.browser) { session = f c.browser.session } }

  abbrev pub token_of : Client W → Option String
  token_of c = c.browser.session.access_token

  unfoldable pub accept_token : RefreshResponse → Action (Client W) RpcError (Unit {0})
  accept_token r c =
      if not (truthy r.access_token)
      then (err missing_token, c)
      else (ok tt, with_session (set_access_token d (some r.access_token) r.expires_at) c)

  -- `refreshAccessToken`
  unfoldable pub refresh_access_token :
      Action (Client W) RpcError RefreshResponse → Action (Client W) RpcError (Unit {0})
  unfolding accept_token
  refresh_access_token call = do response ← call; accept_token response

  -- `if (token) { req.header.set(…) }`
  abbrev pub authorize : Request → Client W → Request
  authorize req c =
      if truthy_string (token_of c)
      then record req { authorization = some (bearer (nullish (token_of c) "")) }
      else req

  module _ {R : Type 0} (next : Request → Action (Client W) RpcError R)
      (refresh : Action (Client W) RpcError (Unit {0})) where
    -- The inner `catch`: the redirect, and the error again.
    unfoldable pub give_up : Result RpcError R × Client W → Result RpcError R × Client W
    give_up (ok r, c) = (ok r, c)
    give_up (err e, c) = (err e, record c { browser = redirect_on_auth_failure c.browser })

    unfoldable pub resend : ℕ → Request → Action (Client W) RpcError R
    resend now req c =
        let c' = with_session (get_access_session d now) c in
        if truthy_string (token_of c')
        then next
            (record req {
              authorization = some (bearer (nullish (token_of c') ""));
              retry = some retry_header_value;
            })
            c'
        else (err no_token, c')

    unfoldable pub retry : ℕ → Request → Action (Client W) RpcError R
    unfolding resend
    retry now req = do _ ← refresh; resend now req

    unfoldable pub catch_call :
        ℕ → Request → Result RpcError R × Client W → Result RpcError R × Client W
    unfolding retry give_up
    catch_call now req (ok r, c) = (ok r, c)
    catch_call now req (err e, c) =
        if is_unauthenticated e && not (is_retry req) then give_up (retry now req c) else (err e, c)

    -- `authInterceptor`, at the times of its two readings of the token.
    unfoldable pub intercept : ℕ → ℕ → Request → Action (Client W) RpcError R
    unfolding catch_call
    intercept now later req c =
        let c' = with_session (get_access_session d now) c in
        let sent = authorize req c' in catch_call later sent (next sent c')
