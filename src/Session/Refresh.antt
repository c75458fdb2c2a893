-- ===== src/Session/Refresh.antt =====
-- The single token refresh that concurrent requests share (`createTokenRefreshManager` in connect.ts).
-- A promise is a number; those in flight are listed. A run is a sequence of two events: a request
-- asks for a refresh, or a refresh in flight settles.
use kube_memos_eks.Base.{
  ◌==◌, if◌then◌else◌, filter, any, ℕ, ◌+◌, ◌≡◌, refl, ap, ◌∙◌, ◌⊎◌, inl, inr, Bool, true, false,
  not, Option, none, some, List, [], ◌∷◌, ◌++◌, arith,
}

pub record Manager : Type 0 where
  pub is_refreshing : Bool
  pub refresh_promise : Option ℕ
  pub next_promise : ℕ
  pub in_flight : List ℕ

abbrev pub idle : Manager
idle = record { is_refreshing = false; refresh_promise = none; next_promise = 0; in_flight = [] }

abbrev start : Manager → Manager × ℕ
start m = (
  record {
    is_refreshing = true;
    refresh_promise = some m.next_promise;
    next_promise = m.next_promise + 1;
    in_flight = m.in_flight ++ m.next_promise ∷ [];
  },
  m.next_promise,
)

-- `refresh`: the manager after it, and the promise that the caller awaits.
unfoldable pub refresh : Manager → Manager × ℕ
refresh m = elim m.refresh_promise [
  | none ↦ start m
  | some promise ↦ if m.is_refreshing then (m, promise) else start m
]

-- The `finally` of a promise that settles, whether it succeeded or not.
unfoldable pub settle : ℕ → Manager → Manager
settle promise m = record m {
  is_refreshing = false;
  refresh_promise = none;
  in_flight = filter (λ q. not (q == promise)) m.in_flight;
}

pub data Step : Manager → Manager → Type 0 where
  asks : (m : Manager) → Step m (refresh m).0
  settles :
      (m : Manager) (promise : ℕ)
      → any (λ q. q == promise) m.in_flight ≡ true
      → Step m (settle promise m)

pub data Reach : Manager → Type 0 where
  here : Reach idle
  next : {m n : Manager} → Reach m → Step m n → Reach n

-- Nothing is in flight and both variables say so, or exactly one refresh is and both name it.
abbrev pub IsSingle : Manager → Type 0
IsSingle m =
    ((m.in_flight ≡ []) × (m.refresh_promise ≡ none) × (m.is_refreshing ≡ false))
    ⊎ ((p : ℕ) × (m.in_flight ≡ p ∷ []) × (m.refresh_promise ≡ some p) × (m.is_refreshing ≡ true))

refresh-IsSingle : (m : Manager) → IsSingle m → IsSingle (refresh m).0
unfolding refresh
refresh-IsSingle m (inl (f, r, b)) = inr (m.next_promise, rw (r, f), rw r, rw r)
refresh-IsSingle m (inr (p, f, r, b)) = inr (p, rw (r, b) f, rw (r, b), rw (r, b))

settle-IsSingle :
    (m : Manager) (promise : ℕ)
    → any (λ q. q == promise) m.in_flight ≡ true
    → IsSingle m
    → IsSingle (settle promise m)
unfolding settle
settle-IsSingle m promise h (inl (f, r, b)) = cc (rw f at h)
settle-IsSingle m promise h (inr (p, f, r, b)) =
    inl (rw f (ground (arith, (rw f at h))), refl, refl)

Step-IsSingle : {m n : Manager} → Step m n → IsSingle m → IsSingle n
Step-IsSingle (asks m) s = refresh-IsSingle m s
Step-IsSingle (settles m promise h) s = settle-IsSingle m promise h s

-- In every run at most one refresh is in flight, and the manager's variables name it.
pub Reach-IsSingle : (m : Manager) → Reach m → IsSingle m
Reach-IsSingle _ here = inl (refl, refl, refl)
Reach-IsSingle _ (next {m} r st) = Step-IsSingle st (Reach-IsSingle m r)

-- A request that asks while a refresh is in flight starts none: it gets the promise in flight, and the
-- manager is unchanged.
pub refresh_shared :
    (m : Manager) (p : ℕ) (ps : List ℕ) → Reach m → m.in_flight ≡ p ∷ ps → refresh m ≡ (m, p)
refresh_shared m p ps r e = on (Reach-IsSingle m r)
  where
    on : IsSingle m → refresh m ≡ (m, p)
    on (inl (f, _, _)) = cc
    on (inr (q, f, r', b)) = unfold refresh in rw (r', b) (cc)

pub data Run : Manager → Manager → Type 0 where
  stay : {m : Manager} → Run m m
  go : {m n k : Manager} → Step m n → Run n k → Run m k

-- Nothing is in flight, and the next request starts a refresh of its own.
abbrev pub IsFree : Manager → Type 0
IsFree m =
    (m.in_flight ≡ [])
    × ((refresh m).1 ≡ m.next_promise)
    × ((refresh m).0.in_flight ≡ m.next_promise ∷ [])

free : (m : Manager) → m.in_flight ≡ [] → m.refresh_promise ≡ none → IsFree m
unfolding refresh
free m f r = (f, rw r refl, rw (r, f) refl)

only_in_flight : (p : ℕ) → filter (λ q. not (q == p)) (p ∷ []) ≡ []
only_in_flight p = ground arith

-- No run leaves the manager stuck: when what is in flight settles, whether it succeeds or fails, the
-- next request starts a refresh of its own.
pub refresh_recovers : (m : Manager) → Reach m → (n : Manager) × Run m n × IsFree n
unfolding settle
refresh_recovers m r = from (Reach-IsSingle m r)
  where
    from : IsSingle m → (n : Manager) × Run m n × IsFree n
    from (inl (f, p, _)) = (m, stay, free m f p)
    from (inr (p, f, _, _)) = (
      settle p m,
      go (settles m p (rw f (ground arith))) stay,
      free (settle p m) (ap (filter (λ q. not (q == p))) f ∙ only_in_flight p) refl,
    )
