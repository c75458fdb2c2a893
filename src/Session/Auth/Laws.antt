-- ===== src/Session/Auth/Laws.antt =====
-- Whatever the server answers, the provider ends with a user and the user's data, or with neither
-- user nor token; and signing out leaves nothing of the user.
use kube_memos_eks.Session.Token.{DateText, get_access_token, clear_access_token}
use kube_memos_eks.Session.Token.Laws.{reload, get_access_token-clear}
use kube_memos_eks.Session.Auth.{
  App, AuthClient, UserSettings, signed_out, drop_user, keep_user, take_user, initialize, logout,
  fetch_user_settings,
}
use kube_memos_eks.Queries.{
  QueryClient, QueryKey, CacheData, User, key_eq, part_eq, user_current, user_detail,
}
use kube_memos_eks.Base.{
  str_eq_refl, Result, ok, err, ℕ, ◌≡◌, refl, ◌∙◌, ◌⊎◌, inl, inr, true, false, Option, none, some,
}

module _ {Cache : Type 0} (q : QueryClient Cache) where
  open q use {get_query_data, get-set, get-clear, set_query_data}

  -- A user who is cached under both keys.
  abbrev pub HasUser : App Cache → Type 0
  HasUser w =
      (u : User) × (w.auth.current_user ≡ some u)
      × (get_query_data user_current w.cache ≡ some (CacheData.a_user u))
      × (get_query_data (user_detail u.name) w.cache ≡ some (CacheData.a_user u))

  -- The state that is set without a user, and no token.
  abbrev pub HasNone : App Cache → Type 0
  HasNone w = (w.auth ≡ signed_out) × (w.session.access_token ≡ none)

  drop_user-HasNone : (w : App Cache) → HasNone (drop_user w)
  unfolding drop_user clear_access_token
  drop_user-HasNone w = (refl, refl)

  current_cached :
      (u : User) (c : Cache)
      → get_query_data user_current (
          set_query_data
            (user_detail u.name)
            (CacheData.a_user u)
            (set_query_data user_current (CacheData.a_user u) c))
        ≡ some (CacheData.a_user u)
  unfolding key_eq part_eq
  current_cached u c =
      get-set user_current (user_detail u.name) _ _ ∙ get-set user_current user_current _ c

  detail_cached :
      (u : User) (c : Cache)
      → get_query_data
          (user_detail u.name)
          (set_query_data (user_detail u.name) (CacheData.a_user u) c)
        ≡ some (CacheData.a_user u)
  unfolding key_eq part_eq
  detail_cached u c =
      get-set (user_detail u.name) (user_detail u.name) _ c ∙ rw (str_eq_refl u.name) refl

  module _ {E : Type 0} (client : AuthClient Cache E) where
    -- What `initialize` ends with.
    abbrev Ends : App Cache → Type 0
    Ends w = (w.auth.is_initialized ≡ true) × (w.auth.is_loading ≡ false) × (HasUser w ⊎ HasNone w)

    drop_user-Ends : (w : App Cache) → Ends (drop_user w)
    unfolding drop_user
    drop_user-Ends w = (refl, refl, inr (drop_user-HasNone w))

    keep_user-Ends :
        (u : User) (r : Result E UserSettings × App Cache) → Ends (keep_user client q u r)
    unfolding keep_user
    keep_user-Ends u (err e, w) = drop_user-Ends w
    keep_user-Ends u (ok s, w) =
        (refl, refl, inl (u, refl, current_cached u w.cache, detail_cached u _))

    take_user-Ends : (r : Result E (Option User) × App Cache) → Ends (take_user client q r)
    unfolding take_user
    take_user-Ends (err e, w) = drop_user-Ends w
    take_user-Ends (ok none, w) = drop_user-Ends w
    take_user-Ends (ok (some u), w) = keep_user-Ends u (fetch_user_settings client u.name w)

    -- Whatever the server's calls do, `initialize` ends, initialised and no longer loading: with a
    -- user who is cached under both keys, or signed out and with no token.
    pub initialize_settles :
        (w : App Cache)
        → ((initialize client q w).auth.is_initialized ≡ true)
          × ((initialize client q w).auth.is_loading ≡ false)
          × (HasUser (initialize client q w) ⊎ HasNone (initialize client q w))
    unfolding initialize
    initialize_settles w = take_user-Ends _

    -- After `logout`, also one that the server refuses, the provider is signed out, there is no
    -- token, no query has data, and if the storage can be written no reload brings a token back.
    pub logout_forgets :
        (d : DateText) (now : ℕ) (k : QueryKey) (w : App Cache)
        → (client.sign_out w).1.session.storage.available ≡ true
        → ((logout client q w).auth ≡ signed_out)
          × ((logout client q w).session.access_token ≡ none)
          × (get_query_data k (logout client q w).cache ≡ none)
          × (get_access_token d now (reload (logout client q w).session) ≡ none)
    unfolding logout drop_user clear_access_token
    logout_forgets d now k w av =
        (refl, refl, get-clear k _, get_access_token-clear d now (client.sign_out w).1.session av)
