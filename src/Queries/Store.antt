-- ===== src/Queries/Store.antt =====
-- A cache as a function from keys to entries, with the behaviour that the query client is assumed to
-- have.
use kube_memos_eks.Queries.{QueryKey, QueryClient, CacheData, key_eq, is_prefix}
use kube_memos_eks.Base.{
  if◌then◌else◌, is_some, ◌≡◌, refl, Bool, true, false, ◌&&◌, ◌||◌, Option, none, some, arith,
}

abbrev pub Store : Type 0
Store = QueryKey → Option (CacheData × Bool)

abbrev pub data_of : Option (CacheData × Bool) → Option CacheData
data_of none = none
data_of (some (v, _)) = some v

abbrev pub mark_of : Option (CacheData × Bool) → Bool
mark_of none = false
mark_of (some (_, b)) = b

abbrev pub marked : Bool → Option (CacheData × Bool) → Option (CacheData × Bool)
marked b none = none
marked b (some (v, m)) = some (v, b || m)

pub data_of-marked : (b : Bool) (e : Option (CacheData × Bool)) → data_of (marked b e) ≡ data_of e
data_of-marked b none = refl
data_of-marked b (some (v, m)) = refl

pub mark_of-marked :
    (b : Bool) (e : Option (CacheData × Bool))
    → mark_of (marked b e) ≡ ((b && is_some (data_of e)) || mark_of e)
mark_of-marked b none = ground arith
mark_of-marked b (some (v, m)) = ground arith

pub pick :
    (f : Option (CacheData × Bool) → Option CacheData) (b : Bool) (e d : Option (CacheData × Bool))
    → f (if b then e else d) ≡ (if b then f e else f d)
pick f true e d = refl
pick f false e d = refl

pub pick_mark :
    (b : Bool) (v : CacheData) (d : Option (CacheData × Bool))
    → mark_of (if b then some (v, false) else d) ≡ (if b then false else mark_of d)
pick_mark true v d = refl
pick_mark false v d = refl

abbrev pub store : QueryClient Store
store = record {
  get_query_data = λ k c. data_of (c k);
  is_invalidated = λ k c. mark_of (c k);
  set_query_data = λ l v c k. if key_eq l k then some (v, false) else c k;
  invalidate_queries = λ p c k. marked (is_prefix p k) (c k);
  remove_queries = λ p c k. if is_prefix p k then none else c k;
  cancel_queries = λ p c. c;
  clear = λ c k. none;
  get-set = λ k l v c. pick data_of (key_eq l k) (some (v, false)) (c k);
  get-invalidate = λ k p c. data_of-marked (is_prefix p k) (c k);
  get-remove = λ k p c. pick data_of (is_prefix p k) none (c k);
  get-cancel = λ k p c. refl;
  get-clear = λ k c. refl;
  invalidated-set = λ k l v c. pick_mark (key_eq l k) v (c k);
  invalidated-invalidate = λ k p c. mark_of-marked (is_prefix p k) (c k);
}
