-- ===== src/Session/Tests.antt =====
-- The session's modules at concrete inputs: a codec for dates and one for the sign-in's record, and a
-- small server.
mod Codecs
mod SignIn
use kube_memos_eks.Session.Tests.Codecs.{dates, json}
use kube_memos_eks.Session.Token.{
  DateText, Session, get_access_session, set_access_token, clear_access_token, get_access_token,
}
use kube_memos_eks.Session.Token.Laws.{reload, get_access_token-reload, get_access_token-clear}
use kube_memos_eks.Session.Redirect.{
  redirect_on_auth_failure, redirect_signs_out, redirect_on_auth_failure_idempotent,
  is_public_route, is_private_route,
}
use kube_memos_eks.Session.Refresh.{
  Manager, idle, refresh, Reach, here, next, asks, settles, settle, IsSingle, Reach-IsSingle,
  refresh_shared, Run, IsFree, refresh_recovers,
}
use kube_memos_eks.Session.Interceptor.{
  Request, Client, RpcError, connect_error, unauthenticated, internal, intercept, give_up,
  catch_call, retry, with_session, bearer, retry_header_value,
}
use kube_memos_eks.Session.Interceptor.Calls.{Stays}
use kube_memos_eks.Session.Interceptor.Outcomes.{run, intercept_redirects}
use kube_memos_eks.Session.OAuth.{
  OAuthState, Json, Pkce, Validated, secure_state, store_oauth_state, validate_oauth_state,
  state_storage_key,
}
use kube_memos_eks.Session.OAuth.Laws.{
  Accepted, validate_oauth_state_sound, validate_oauth_state_once, validate_oauth_state-store,
}
use kube_memos_eks.Base.{
  Action, Storage, update, ok, err, ℕ, ◌+◌, String, ◌≡◌, refl, true, false, none, some, List, [],
  ◌∷◌, arith,
}

abbrev empty_storage : Storage String
empty_storage = record { available = true; has_room = true; items = λ _. none }

abbrev signed_in : Session
signed_in = record { access_token = some "old"; token_expires_at = some 3; storage = empty_storage }

-- A server that counts its calls and takes only a retried request.
abbrev count : Client ℕ → Client ℕ
count c = record c { server = c.server + 1 }

abbrev serve : Request → Action (Client ℕ) RpcError String
serve r c = elim r.retry [
  | none ↦ (err (connect_error unauthenticated "expired"), count c)
  | some _ ↦ (ok "memos", count c)
]

abbrev serve_nothing : Request → Action (Client ℕ) RpcError String
serve_nothing r c = (err (connect_error internal "down"), count c)

abbrev renew : Action (Client ℕ) RpcError (Unit {0})
renew c = (ok tt, with_session dates (set_access_token dates (some "new") (some 5)) (count c))

abbrev renew_nothing : Action (Client ℕ) RpcError (Unit {0})
renew_nothing c = (err (connect_error unauthenticated "no cookie"), count c)

abbrev list_memos : Request
list_memos = record { body = []; authorization = none; retry = none }

abbrev at_home : Client ℕ
at_home = record {
  browser = record { session = signed_in; path = "/"; disallow_public_visibility = false };
  server = 0;
}

abbrev counted : ℕ → Client ℕ
counted n = record at_home { server = n }

abbrev renewed : Client ℕ
renewed = with_session dates (set_access_token dates (some "new") (some 5)) (counted 2)

intercept_redirects_example : Stays (run dates serve renew_nothing 1 2 list_memos at_home).1.browser
unfolding intercept catch_call retry give_up get_access_session
intercept_redirects_example =
    intercept_redirects dates serve renew_nothing 1 2 list_memos at_home
      (connect_error unauthenticated "no cookie") refl (omega arith)

-- A first request asks, its refresh settles, and a second one asks.
abbrev second : Manager
second = (refresh (settle 0 (refresh idle).0)).0

second-Reach : Reach second
unfolding refresh settle
second-Reach =
    next (next (next here (asks idle)) (settles (refresh idle).0 0 refl))
      (asks (settle 0 (refresh idle).0))

Reach-IsSingle_example : IsSingle second
Reach-IsSingle_example = Reach-IsSingle second second-Reach

refresh_recovers_example : (n : Manager) × Run second n × IsFree n
refresh_recovers_example = refresh_recovers second second-Reach

refresh_shared_example : refresh second ≡ (second, 1)
unfolding refresh settle
refresh_shared_example = refresh_shared second 1 [] second-Reach refl

abbrev random : List ℕ
random = 7 ∷ 250 ∷ []

abbrev proof_key : Pkce
proof_key = record { code_verifier = 65 ∷ []; code_challenge = 66 ∷ [] }

abbrev stored_state : OAuthState
stored_state = record {
  state = secure_state random;
  identity_provider_id = 4;
  timestamp = 10;
  return_url = some "/inbox";
  code_verifier = some (65 ∷ []);
}

abbrev holding : Storage String
holding = record empty_storage {
  items = update empty_storage.items state_storage_key (some (json.stringify stored_state));
}

abbrev emptied : Storage String
emptied = record holding { items = update holding.items state_storage_key none }

abbrev accepted : Validated
accepted = record {
  identity_provider_id = 4;
  return_url = some "/inbox";
  code_verifier = some (65 ∷ []);
}

abbrev storing : Storage String → Storage String
storing st = record st {
  items = update st.items state_storage_key (some (json.stringify stored_state));
}

validate_oauth_state_sound_example : Accepted json 20 (secure_state random) holding emptied accepted
unfolding validate_oauth_state secure_state
validate_oauth_state_sound_example =
    validate_oauth_state_sound json 20 (secure_state random) holding emptied accepted refl

validate_oauth_state_once_example :
    validate_oauth_state json 21 (secure_state random) emptied ≡ (ok none, emptied)
unfolding validate_oauth_state secure_state
validate_oauth_state_once_example =
    validate_oauth_state_once json 20 21 (secure_state random) (secure_state random) holding emptied
      accepted refl

get_access_token-reload_example :
    get_access_token dates 2 (reload (set_access_token dates (some "new") (some 5) signed_in))
    ≡ some "new"
get_access_token-reload_example = get_access_token-reload dates 2 5 "new" signed_in refl refl refl
