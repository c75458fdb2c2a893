-- ===== src/Session/Interceptor/Calls.antt =====
-- The calls that the interceptor makes, as a log beside the server, and the page that it leaves.
use mathlib.Core.Path.{subst}
use kube_memos_eks.Session.Token.{clear_access_token}
use kube_memos_eks.Session.Redirect.{
  Browser, is_public_route, is_private_route, redirect_on_auth_failure,
}
use kube_memos_eks.Session.Interceptor.{RpcError, Request, Client}
use kube_memos_eks.Base.{
  if◌then◌else◌, Bool-cases, Action, ◌≡◌, refl, sym, ap, ◌∙◌, ◌⊎◌, inl, inr, Bool, true, false,
  none, List, [], ◌∷◌, ◌++◌,
}

-- A request that was sent or a refresh that was asked for, with the browser that it left.
pub data Call : Type 0 where
  sends : Request → Browser → Call
  refreshes : Browser → Call

abbrev pub unlogged : {W : Type 0} → Client (W × List Call) → Client W
unlogged c = record { browser = c.browser; server = c.server.0 }

module _ {W A : Type 0} where
  -- A call that is also written into the log.
  abbrev pub logged :
      (Browser → Call) → Action (Client W) RpcError A → Action (Client (W × List Call)) RpcError A
  logged call f c = (
    (f (unlogged c)).0,
    record {
      browser = (f (unlogged c)).1.browser;
      server = ((f (unlogged c)).1.server, c.server.1 ++ call (f (unlogged c)).1.browser ∷ []);
    },
  )

-- What a redirect does. On a public page, and on a page that is not private where public memos are
-- allowed, nothing; elsewhere the token is gone and the page is that of the sign-in, or "explore" where
-- public memos are allowed.
abbrev pub Stays : Browser → Type 0
Stays b =
    (is_public_route b.path ≡ true)
    ⊎ ((is_private_route b.path ≡ false) × (b.disallow_public_visibility ≡ false))

abbrev pub Redirects : Browser → Browser → Type 0
Redirects b b' =
    (Stays b × (b' ≡ b))
    ⊎ ((is_public_route b.path ≡ false)
        × ((is_private_route b.path ≡ true) ⊎ (b.disallow_public_visibility ≡ true))
        × (b'.session.access_token ≡ none)
        × (b'.path ≡ (if b.disallow_public_visibility then "/auth" else "/explore")))

pub redirect-Redirects : (b : Browser) → Redirects b (redirect_on_auth_failure b)
unfolding redirect_on_auth_failure clear_access_token
redirect-Redirects b = elim (Bool-cases (is_public_route b.path)) [
  | inl e ↦ inl (inl e, rw e refl)
  | inr e ↦ elim (Bool-cases b.disallow_public_visibility) [
    | inl d ↦ inr (e, inr d, rw (e, d) refl, rw (e, d) refl)
    | inr d ↦ elim (Bool-cases (is_private_route b.path)) [
      | inl p ↦ inr (e, inl p, rw (e, d, p) refl, rw (e, d, p) refl)
      | inr p ↦ inl (inr (p, d), rw (e, d, p) refl)
    ]
  ]
]

pub Redirects-Stays : (b b' : Browser) → Redirects b b' → Stays b'
unfolding is_public_route
Redirects-Stays b b' (inl (s, e)) = subst Stays (sym e) s
Redirects-Stays b b' (inr (_, _, _, e)) =
    inl (ap is_public_route e ∙ public_target b.disallow_public_visibility)
  where
    public_target : (t : Bool) → is_public_route (if t then "/auth" else "/explore") ≡ true
    public_target true = refl
    public_target false = refl
