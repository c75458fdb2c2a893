-- ===== src/Session/Token/Laws.antt =====
-- A token survives a reload until it expires, and not past a sign-out.
use kube_memos_eks.Session.Token.{
  DateText, Session, session_token_key, restore, get_access_session, get_access_token,
  set_access_token, clear_access_token,
}
use kube_memos_eks.Base.{
  ltb, if◌then◌else◌, truthy, ℕ, String, ◌≡◌, true, none, some, arith, eq_iff,
}

-- The page is loaded again: the module's variables are new, the storage stays.
abbrev pub reload : Session → Session
reload s = record s { access_token = none; token_expires_at = none }

module _ (d : DateText) where
  -- A token that was stored with its time is there after a reload as long as its time has not come;
  -- from then on there is none.
  pub get_access_token-reload :
      (now t : ℕ) (token : String) (s : Session)
      → truthy token ≡ true
      → s.storage.available ≡ true
      → s.storage.has_room ≡ true
      → get_access_token d now (reload (set_access_token d (some token) (some t) s))
        ≡ (if ltb now t then some token else none)
  unfolding get_access_session set_access_token restore
  get_access_token-reload now t token s tok av room =
      ground (
        arith,
        d.parse_date-to_iso t,
        d.to_iso-truthy t,
        eq_iff session_token_key session_token_key,
      )

  -- After a sign-out no reload brings a token back, if the storage can be written.
  pub get_access_token-clear :
      (now : ℕ) (s : Session)
      → s.storage.available ≡ true
      → get_access_token d now (reload (clear_access_token s)) ≡ none
  unfolding get_access_session clear_access_token restore
  get_access_token-clear now s av = ground arith

  -- Asking twice at one time gives the same token and the same session as asking once.
  pub get_access_session_idempotent :
      (now : ℕ) (s : Session)
      → get_access_session d now (get_access_session d now s) ≡ get_access_session d now s
  unfolding get_access_session restore
  get_access_session_idempotent now s = ground arith
