-- ===== src/Session/Interceptor/Outcomes.antt =====
-- Every way through the interceptor.
use Prim.Native.String
use kube_memos_eks.Session.Token.{DateText, get_access_session}
use kube_memos_eks.Session.Redirect.{Browser}
use kube_memos_eks.Session.Interceptor.Calls.{
  Call, sends, refreshes, logged, Stays, Redirects, redirect-Redirects, Redirects-Stays,
}
use kube_memos_eks.Session.Interceptor.{
  RpcError, Request, Client, bearer, is_unauthenticated, is_retry, give_up, resend, retry,
  catch_call, intercept, no_token,
}
use kube_memos_eks.Base.{
  if◌then◌else◌, Bool-cases, truthy, truthy_string, nullish, length, Result, Action, after, ok, err,
  ℕ, ◌<◌, String, ◌≡◌, refl, sym, ap, ◌∙◌, ◌⊎◌, inl, inr, true, false, not, ◌&&◌, Option, none,
  some, List, [], ◌∷◌, arith,
}

module _ {W R : Type 0} (d : DateText) (next : Request → Action (Client W) RpcError R)
    (refresh : Action (Client W) RpcError (Unit {0})) (now later : ℕ) (req : Request)
    (c : Client W) where
  -- The token that is known when the request is sent.
  abbrev pub first_token : Option String
  first_token = (get_access_session d now c.browser.session).access_token

  -- The request as it is sent first.
  abbrev pub first_request : Request
  first_request =
      if truthy_string first_token
      then record req { authorization = some (String.◌++◌ "Bearer " (nullish first_token "")) }
      else req

  -- The request as it is sent again.
  abbrev pub second_request : String → Request
  second_request token = record first_request {
    authorization = some (String.◌++◌ "Bearer " token);
    retry = some "true";
  }

  -- The outcomes: no second call for an answer, for an error other than "unauthenticated" and for a
  -- request that is a retry itself; and, behind a refresh, an error, or the answer of a second request.
  abbrev pub Answered : Result RpcError R × Client (W × List Call) → Type 0
  Answered (r, c') =
      (b : Browser) × (c'.server.1 ≡ sends first_request b ∷ [])
      × (c'.browser ≡ b)
      × (((a : R) × (r ≡ ok a))
          ⊎ ((e : RpcError) × (r ≡ err e)
              × ((is_unauthenticated e ≡ false) ⊎ (is_retry req ≡ true))))

  abbrev pub NotRefreshed : Result RpcError R × Client (W × List Call) → Type 0
  NotRefreshed (r, c') =
      (b : Browser) × (b₂ : Browser) × (b₃ : Browser) × (e : RpcError) × (c'.server.1
        ≡ sends first_request b ∷ refreshes b₂ ∷ [])
      × (is_retry req ≡ false)
      × (r ≡ err e)
      × (b₃ ≡ record b₂ { session = b₃.session })
      × Redirects b₃ c'.browser

  abbrev pub SentAgain : Result RpcError R × Client (W × List Call) → Type 0
  SentAgain (r, c') =
      (b : Browser) × (b₂ : Browser) × (b₃ : Browser) × (token : String) × (c'.server.1
        ≡ sends first_request b ∷ refreshes b₂ ∷ sends (second_request token) b₃ ∷ [])
      × (is_retry req ≡ false)
      × ((get_access_session d later b₂.session).access_token ≡ some token)
      × (truthy token ≡ true)
      × (((a : R) × (r ≡ ok a) × (c'.browser ≡ b₃))
          ⊎ ((e : RpcError) × (r ≡ err e) × Redirects b₃ c'.browser))

  abbrev pub Outcome : Result RpcError R × Client (W × List Call) → Type 0
  Outcome out = Answered out ⊎ (NotRefreshed out ⊎ SentAgain out)

  abbrev pub logged_next : Request → Action (Client (W × List Call)) RpcError R
  logged_next r = logged (sends r) (next r)

  abbrev pub logged_refresh : Action (Client (W × List Call)) RpcError (Unit {0})
  logged_refresh = logged refreshes refresh

  -- The call of the interceptor with an empty log.
  abbrev pub run : Result RpcError R × Client (W × List Call)
  run =
      intercept d logged_next logged_refresh now later req
        (record { browser = c.browser; server = (c.server, []) })

  after_second :
      (b b₂ b₃ : Browser) (w : W) (token : String) (r : Result RpcError R)
      → is_retry req ≡ false
      → (get_access_session d later b₂.session).access_token ≡ some token
      → truthy token ≡ true
      → Outcome (
          give_up d logged_next logged_refresh (
            r,
            record {
              browser = b₃;
              server =
                  (w, sends first_request b ∷ refreshes b₂ ∷ sends (second_request token) b₃ ∷ []);
            },
          ))
  unfolding give_up
  after_second b b₂ b₃ w token (ok a) n t k =
      inr (inr (b, b₂, b₃, token, refl, n, t, k, inl (a, refl, refl)))
  after_second b b₂ b₃ w token (err e) n t k =
      inr (inr (b, b₂, b₃, token, refl, n, t, k, inr (e, refl, redirect-Redirects b₃)))

  -- The browser once the token was read again behind a refresh.
  abbrev reread : Browser → Browser
  reread b = record b { session = get_access_session d later b.session }

  after_resend :
      (b b₂ : Browser) (w : W) (token : Option String)
      → is_retry req ≡ false
      → (get_access_session d later b₂.session).access_token ≡ token
      → Outcome (
          give_up d logged_next logged_refresh (
            if truthy_string token
            then logged_next
                (record first_request {
                  authorization = some (bearer (nullish token ""));
                  retry = some "true";
                })
                (record {
                  browser = reread b₂;
                  server = (w, sends first_request b ∷ refreshes b₂ ∷ []);
                })
            else (
              err no_token,
              record {
                browser = reread b₂;
                server = (w, sends first_request b ∷ refreshes b₂ ∷ []);
              },
            )))
  unfolding give_up
  after_resend b b₂ w none n t =
      inr (inl (b, b₂, reread b₂, no_token, refl, n, refl, refl, redirect-Redirects (reread b₂)))
  after_resend b b₂ w (some token) n t = elim (Bool-cases (truthy token)) [
    | inl k ↦
        let u : Client W = record { browser = reread b₂; server = w } in
        let answer = next (second_request token) u in
        rw k (after_second b b₂ answer.1.browser answer.1.server token answer.0 n t k)
    | inr k ↦ rw k (
        inr (inl (b, b₂, reread b₂, no_token, refl, n, refl, refl, redirect-Redirects (reread b₂))))
  ]

  after_refresh :
      (b b₂ : Browser) (w : W) (r : Result RpcError (Unit {0}))
      → is_retry req ≡ false
      → Outcome (
          give_up d logged_next logged_refresh (
            after
              (r, record { browser = b₂; server = (w, sends first_request b ∷ refreshes b₂ ∷ []) })
              (λ _. resend d logged_next logged_refresh later first_request)))
  unfolding resend give_up
  after_refresh b b₂ w (ok _) n =
      after_resend b b₂ w (get_access_session d later b₂.session).access_token n refl
  after_refresh b b₂ w (err e) n =
      inr (inl (b, b₂, b₂, e, refl, n, refl, refl, redirect-Redirects b₂))

  first_request-is_retry : is_retry first_request ≡ is_retry req
  first_request-is_retry = elim (Bool-cases (truthy_string first_token)) [
    | inl e ↦ rw e
    | inr e ↦ rw e
  ]

  after_first :
      (b : Browser) (w : W) (r : Result RpcError R)
      → Outcome (
          catch_call d logged_next logged_refresh later first_request
            (r, record { browser = b; server = (w, sends first_request b ∷ []) }))
  unfolding catch_call retry
  after_first b w (ok a) = inl (b, refl, refl, inl (a, refl))
  after_first b w (err e) =
      elim (Bool-cases (is_unauthenticated e && not (is_retry first_request))) [
        | inl h ↦
            let f = refresh (record { browser = b; server = w }) in
            rw h (after_refresh b f.1.browser f.1.server f.0 (not_retry e h))
        | inr h ↦ rw h (inl (b, refl, refl, inr (e, refl, passes e h)))
      ]
    where
      not_retry :
          (e : RpcError)
          → (is_unauthenticated e && not (is_retry first_request)) ≡ true
          → is_retry req ≡ false
      not_retry e h = let same = first_request-is_retry in ground arith

      passes :
          (e : RpcError)
          → (is_unauthenticated e && not (is_retry first_request)) ≡ false
          → (is_unauthenticated e ≡ false) ⊎ (is_retry req ≡ true)
      passes e h = elim (Bool-cases (is_unauthenticated e)) [
        | inl u ↦ let same = first_request-is_retry in inr (ground arith)
        | inr u ↦ inl u
      ]

  pub intercept_calls : Outcome run
  unfolding intercept
  intercept_calls =
      let u : Client W = record {
        browser = record c.browser { session = get_access_session d now c.browser.session };
        server = c.server;
      } in
      let answer = next first_request u in after_first answer.1.browser answer.1.server answer.0

  -- A page on which a failed call need not lead anywhere: a public one, or one that is not private
  -- where public memos are allowed. When the interceptor has asked for a refresh and the call fails
  -- all the same, the browser is left on such a page.
  pub intercept_redirects :
      (e : RpcError) → run.0 ≡ err e → 1 < length run.1.server.1 → Stays run.1.browser
  intercept_redirects e failed more = elim intercept_calls [
    | inl (b, log, _, _) ↦ absurd (let one = ap length log in omega arith)
    | inr (inl (b, b₂, b₃, e', log, n, r, _, red)) ↦ Redirects-Stays b₃ run.1.browser red
    | inr (inr (b, b₂, b₃, token, log, n, t, k, inl (a, ok_, _))) ↦
        absurd (let both = sym ok_ ∙ failed in cc)
    | inr (inr (b, b₂, b₃, token, log, n, t, k, inr (e', err_, red))) ↦
        Redirects-Stays b₃ run.1.browser red
  ]
