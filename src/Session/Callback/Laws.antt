-- ===== src/Session/Callback/Laws.antt =====
-- The callback of a sign-in: what it does for whatever url.
use kube_memos_eks.Errors.{Thrown}
use kube_memos_eks.Session.OAuth.{Validated, validate_oauth_state}
use kube_memos_eks.Session.OAuth.Laws.{Accepted, validate_oauth_state_sound}
use kube_memos_eks.Session.Callback.{
  SearchParams, World, SignIn, has_text, show, missing_message, with_session_storage, show_error,
  finish, authorize, run_callback, callback,
}
use kube_memos_eks.Base.{
  if◌then◌else◌, Bool-cases, truthy, truthy_string, nullish, Text, Result, StorageError, Storage,
  ok, err, ℕ, String, ◌≡◌, refl, ◌⊎◌, inl, inr, true, not, ◌&&◌, Option, none, some, [], ◌∷◌,
}

abbrev pub handled : {Cache : Type 0} → World Cache → World Cache
handled w = record w { page = record w.page { handled = true } }

-- Nothing but the page and the session's storage has changed.
abbrev pub Untouched : {Cache : Type 0} → World Cache → World Cache → Type 0
Untouched w w' =
    (w'.app ≡ record w.app { session = record w.app.session { storage = w'.app.session.storage } })
    × (w'.location ≡ w.location)

module _ {Cache E : Type 0} (x : SignIn Cache E) where
  open x use {json, sign_in, client, queries, redirect_uri}

  -- The server was asked to sign in, with what an accepted state had stored, and nothing else.
  abbrev pub SignedIn : ℕ → SearchParams → World Cache → World Cache → Type 0
  SignedIn now p w w' =
      (code : String) × (param : Text) × (v : Validated) × (st : Storage String) × Accepted json now
        param w.app.session.storage st v
      × (p.code ≡ some code)
      × (p.state ≡ some param)
      × (w'
          ≡ finish x v (
              sign_in
                (record {
                  idp_id = v.identity_provider_id;
                  code = code;
                  redirect_uri = redirect_uri;
                  code_verifier = nullish v.code_verifier [];
                })
                (with_session_storage st (handled w))))

  abbrev Guarded : ℕ → SearchParams → World Cache → World Cache → Type 0
  Guarded now p w w' = Untouched w w' ⊎ SignedIn now p w w'

  show_error-Untouched :
      (now : ℕ) (p : SearchParams) (w : World Cache) (r : Result Thrown String)
      → Guarded now p w (show_error x p r (handled w)).1
  unfolding show_error
  show_error-Untouched now p w (ok message) = inl (refl, refl)
  show_error-Untouched now p w (err e) = inl (refl, refl)

  authorize-Guarded :
      (now : ℕ) (p : SearchParams) (w : World Cache) (code : String) (param : Text)
      (r : Result StorageError (Option Validated) × Storage String)
      → p.code ≡ some code
      → p.state ≡ some param
      → validate_oauth_state json now param w.app.session.storage ≡ r
      → Guarded now p w (authorize x code r (handled w)).1
  unfolding authorize
  authorize-Guarded now p w code param (err e, st) c s h = inl (refl, refl)
  authorize-Guarded now p w code param (ok none, st) c s h = inl (refl, refl)
  authorize-Guarded now p w code param (ok (some v), st) c s h = inr (
    code,
    param,
    v,
    st,
    validate_oauth_state_sound json now param w.app.session.storage st v h,
    c,
    s,
    refl,
  )

  run_callback-Guarded :
      (now : ℕ) (p : SearchParams) (w : World Cache)
      → Guarded now p w (run_callback x now p (handled w)).1
  unfolding run_callback
  run_callback-Guarded now p w = elim (Bool-cases (truthy_string p.error)) [
    | inl e ↦ rw e (show_error-Untouched now p w _)
    | inr e ↦ rw e (with_code p.code refl p.state refl)
  ]
    where
      with_code :
          (code : Option String)
          → p.code ≡ code
          → (state : Option Text) → p.state ≡ state
          → Guarded now p w
              (if not (truthy_string code && has_text state)
                then (ok tt, show missing_message (handled w))
                else authorize x
                    (nullish code "")
                    (validate_oauth_state json now (nullish state []) w.app.session.storage)
                    (handled w)).1
      with_code none c state s = inl (refl, refl)
      with_code (some code) c none s = elim (Bool-cases (truthy code)) [
        | inl t ↦ rw t (inl (refl, refl))
        | inr t ↦ rw t (inl (refl, refl))
      ]
      with_code (some code) c (some []) s = elim (Bool-cases (truthy code)) [
        | inl t ↦ rw t (inl (refl, refl))
        | inr t ↦ rw t (inl (refl, refl))
      ]
      with_code (some code) c (some (x0 ∷ xs)) s = elim (Bool-cases (truthy code)) [
        | inl t ↦ rw t (authorize-Guarded now p w code (x0 ∷ xs) _ c s refl)
        | inr t ↦ rw t (inl (refl, refl))
      ]

  -- Whatever the url of the callback holds, either nothing but the page and the session's storage
  -- changes, or the url has a code and the state that is stored, no more than 10 minutes old: then
  -- the server is asked once to sign in, with that code and with what was stored beside the state.
  pub callback_guards :
      (now : ℕ) (p : SearchParams) (w : World Cache)
      → Untouched w (callback x now p w).1 ⊎ SignedIn now p w (callback x now p w).1
  unfolding callback
  callback_guards now p w = elim (Bool-cases w.page.handled) [
    | inl h ↦ rw h (inl (refl, refl))
    | inr h ↦ rw h (run_callback-Guarded now p w)
  ]
