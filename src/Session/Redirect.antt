-- ===== src/Session/Redirect.antt =====
-- Where an authentication failure leads (utils/auth-redirect.ts, router/routes.ts and the instance
-- setting of instance-config.ts).
use text.Mathlib.Text.{starts_with as str_starts_with}
use kube_memos_eks.Session.Token.{Session, clear_access_token}
use kube_memos_eks.Base.{
  if◌then◌else◌, Bool-cases, any, String, ◌≡◌, refl, ap, inl, inr, Bool, true, false, ◌||◌, none,
  List, [], ◌∷◌, str_eq,
}

abbrev pub auth_route : String
auth_route = "/auth"

abbrev pub explore_route : String
explore_route = "/explore"

abbrev public_routes : List String
public_routes = auth_route ∷ explore_route ∷ "/u/" ∷ "/memos/" ∷ []

abbrev private_routes : List String
private_routes = "/" ∷ "/attachments" ∷ "/inbox" ∷ "/archived" ∷ "/setting" ∷ []

unfoldable pub is_public_route : String → Bool
is_public_route path = any (λ route. str_starts_with path route) public_routes

unfoldable pub is_private_route : String → Bool
is_private_route path = any (λ route. str_eq route path) private_routes

-- What the redirect reads and changes: the session, the path of the page, and the instance setting.
pub record Browser : Type 0 where
  pub session : Session
  pub path : String
  pub disallow_public_visibility : Bool

abbrev pub failure_target : Browser → String
failure_target b = if b.disallow_public_visibility then auth_route else explore_route

unfoldable pub redirect_on_auth_failure : Browser → Browser
unfolding is_public_route is_private_route
redirect_on_auth_failure b =
    if is_public_route b.path
    then b
    else if b.disallow_public_visibility || is_private_route b.path
    then record b { session = clear_access_token b.session; path = failure_target b }
    else b

target_public : (b : Browser) → is_public_route (failure_target b) ≡ true
unfolding is_public_route
target_public b = elim (Bool-cases b.disallow_public_visibility) [ inl e ↦ rw e | inr e ↦ rw e ]

redirect_public : (b : Browser) → is_public_route b.path ≡ true → redirect_on_auth_failure b ≡ b
unfolding redirect_on_auth_failure
redirect_public b h = rw h

redirect_away :
    (b : Browser)
    → is_public_route b.path ≡ false
    → (b.disallow_public_visibility || is_private_route b.path) ≡ true
    → redirect_on_auth_failure b
      ≡ record b { session = clear_access_token b.session; path = failure_target b }
unfolding redirect_on_auth_failure
redirect_away b p h = rw (p, h)

redirect_stay :
    (b : Browser)
    → is_public_route b.path ≡ false
    → (b.disallow_public_visibility || is_private_route b.path) ≡ false
    → redirect_on_auth_failure b ≡ b
unfolding redirect_on_auth_failure
redirect_stay b p h = rw (p, h)

-- A redirect ends on a page that does not redirect again: however many requests of the page fail, the
-- browser is where the first failure put it, and its session is the same.
pub redirect_on_auth_failure_idempotent :
    (b : Browser)
    → redirect_on_auth_failure (redirect_on_auth_failure b) ≡ redirect_on_auth_failure b
redirect_on_auth_failure_idempotent b = elim (Bool-cases (is_public_route b.path)) [
  | inl p ↦ ap redirect_on_auth_failure (redirect_public b p)
  | inr p ↦ elim (Bool-cases (b.disallow_public_visibility || is_private_route b.path)) [
    | inl h ↦ rw (redirect_away b p h) (redirect_public _ (target_public b))
    | inr h ↦ ap redirect_on_auth_failure (redirect_stay b p h)
  ]
]

-- On a private page, and on any page that is not public where public memos are disallowed, a failure
-- signs the user out and leads to the sign-in page or, if public memos are allowed, to the explore
-- page.
pub redirect_signs_out :
    (b : Browser)
    → is_public_route b.path ≡ false
    → (b.disallow_public_visibility || is_private_route b.path) ≡ true
    → ((redirect_on_auth_failure b).session.access_token ≡ none)
      × ((redirect_on_auth_failure b).path ≡ failure_target b)
unfolding clear_access_token
redirect_signs_out b p h = rw (redirect_away b p h) (refl, refl)
