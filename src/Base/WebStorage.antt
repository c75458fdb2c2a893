-- ===== src/Base/WebStorage.antt =====
-- `localStorage` and `sessionStorage`: a map from keys to strings. Where the browser forbids it,
-- each access throws; a write may also throw by itself, as when the quota is used up.
use Prim.Native.String.{String}
use mathlib.Core.Bool.{Bool}
use mathlib.Core.Option.{Option, none, some}
use mathlib.Core.List.{List, [], ◌∷◌}
use text.Mathlib.Text.{◌==◌ as str_eq}
use kube_memos_eks.Base.Tests.{if◌then◌else◌}
use kube_memos_eks.Base.Actions.{Result, ok, err}

pub data StorageError : Type 0 where
  security_error quota_exceeded : StorageError

pub record Storage {ℓ} (V : Type ℓ) : Type ℓ where
  pub available : Bool
  pub has_room : Bool
  pub items : String → Option V

module _ {ℓ} {V : Type ℓ} where
  abbrev pub update : (String → Option V) → String → Option V → String → Option V
  update m k v j = if str_eq k j then v else m j

  abbrev pub get_item : String → Storage V → Result StorageError (Option V)
  get_item k s = if s.available then ok (s.items k) else err security_error

  -- The new storage, or the error; nothing is written then.
  abbrev pub set_item : String → V → Storage V → Result StorageError (Storage V)
  set_item k v s =
      if s.available
      then (if s.has_room
          then ok (record s { items = update s.items k (some v) })
          else err quota_exceeded)
      else err security_error

  abbrev pub remove_item : String → Storage V → Result StorageError (Storage V)
  remove_item k s =
      if s.available then ok (record s { items = update s.items k none }) else err security_error

  -- The statements of a `try` block that each write the storage: they run until one throws, and what
  -- was written stays.
  abbrev pub attempt : List (Storage V → Result StorageError (Storage V)) → Storage V → Storage V
  attempt [] s = s
  attempt (f ∷ fs) s = elim (f s) [ ok s' ↦ attempt fs s' | err _ ↦ s ]
