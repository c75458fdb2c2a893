-- ===== src/Session/OAuth/Laws.antt =====
-- What a stored state allows: one sign-in, in time, by who holds the state.
use kube_memos_eks.Session.OAuth.{
  state_storage_key, state_expiry_ms, OAuthState, Json, Pkce, secure_state, Validated, verifier_of,
  state_data, store_oauth_state, validated, check_state, validate_oauth_state,
}
use kube_memos_eks.Base.{
  Option-cases, Text, text_eq_sound, text_eq_refl, Storage, ok, ℕ, ◌+◌, ◌≤◌, String, ◌≡◌, inl, inr,
  true, Option, none, some, List, arith, eq_iff,
}

module _ (j : Json) where
  check_state_sound :
      (now : ℕ) (param : Text) (s : OAuthState) (st st' : Storage String) (v : Validated)
      → st.available ≡ true
      → check_state j now param (some s) st ≡ (ok (some v), st')
      → (s.state ≡ param)
        × (now ≤ s.timestamp + state_expiry_ms)
        × (v ≡ validated j s)
        × (st'.items state_storage_key ≡ none)
        × (st'.available ≡ true)
  unfolding check_state
  check_state_sound now param s st st' v av e = ground (arith, text_eq_sound s.state param)

  nothing_stored :
      (now : ℕ) (param : Text) (st : Storage String)
      → st.available ≡ true
      → st.items state_storage_key ≡ none
      → validate_oauth_state j now param st ≡ (ok none, st)
  unfolding validate_oauth_state
  nothing_stored now param st av gone = ground arith

  available_of_some :
      (now : ℕ) (param : Text) (st st' : Storage String) (v : Validated)
      → validate_oauth_state j now param st ≡ (ok (some v), st')
      → st.available ≡ true
  unfolding validate_oauth_state
  available_of_some now param st st' v e = ground arith

  -- What a successful validation has found.
  pub record Accepted (now : ℕ) (param : Text) (st st' : Storage String) (v : Validated)
      : Type 0 where
    pub raw : String
    pub stored : OAuthState
    pub found : st.items state_storage_key ≡ some raw
    pub parsed : j.parse raw ≡ some stored
    pub same : stored.state ≡ param
    pub in_time : now ≤ stored.timestamp + state_expiry_ms
    pub returned : v ≡ validated j stored
    pub gone : st'.items state_storage_key ≡ none
    pub still_available : st'.available ≡ true

  -- A validation that succeeds was given the state that is stored, no more than 10 minutes after it
  -- was, returns what was stored with it, and leaves nothing stored.
  pub validate_oauth_state_sound :
      (now : ℕ) (param : Text) (st st' : Storage String) (v : Validated)
      → validate_oauth_state j now param st ≡ (ok (some v), st')
      → Accepted now param st st' v
  unfolding validate_oauth_state
  validate_oauth_state_sound now param st st' v e =
      let av = available_of_some now param st st' v e in
      elim (Option-cases (st.items state_storage_key)) [
        | inl missing ↦ cc (rw (av, missing) at e)
        | inr (raw, found) ↦ elim (Option-cases (j.parse raw)) [
          | inl broken ↦ absurd (ground arith)
          | inr (s, parsed) ↦
              let (same, fresh, value, gone, av') =
                check_state_sound now param s st st' v av (ground arith) in
              record {
                raw = raw;
                stored = s;
                found = found;
                parsed = parsed;
                same = same;
                in_time = fresh;
                returned = value;
                gone = gone;
                still_available = av';
              }
        ]
      ]

  -- A state is good once: after a validation that succeeded, another with whatever state and at
  -- whatever time gives nothing.
  pub validate_oauth_state_once :
      (now later : ℕ) (param param' : Text) (st st' : Storage String) (v : Validated)
      → validate_oauth_state j now param st ≡ (ok (some v), st')
      → validate_oauth_state j later param' st' ≡ (ok none, st')
  validate_oauth_state_once now later param param' st st' v e =
      let a = validate_oauth_state_sound now param st st' v e in
      nothing_stored later param' st' a.still_available a.gone

  -- The round trip: what a sign-in stores is what its callback gets within 10 minutes.
  pub validate_oauth_state-store :
      (bytes : List ℕ) (pkce : Option Pkce) (stored_at now idp : ℕ) (return_url : Option String)
      (st st' : Storage String) (state : Text) (challenge : Option Text)
      → store_oauth_state j bytes pkce stored_at idp return_url st ≡ ok ((state, challenge), st')
      → now ≤ stored_at + state_expiry_ms
      → (validate_oauth_state j now state st').0
        ≡ ok (
            some (record {
              identity_provider_id = idp;
              return_url = return_url;
              code_verifier = verifier_of pkce;
            }))
  unfolding validate_oauth_state store_oauth_state
  validate_oauth_state-store bytes pkce stored_at now idp return_url st st' state challenge e h =
      let made = state_data bytes pkce stored_at idp return_url in
      ground (
        arith,
        j.parse-stringify made,
        j.stringify-truthy made,
        text_eq_refl (secure_state bytes),
        eq_iff state_storage_key state_storage_key,
      )
