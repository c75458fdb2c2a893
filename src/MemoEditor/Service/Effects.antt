-- ===== src/MemoEditor/Service/Effects.antt =====
-- The calls that a save makes: uploads first, and no update when nothing changed.
use mathlib.Core.List.{append-nil}
use kube_memos_eks.Errors.{Thrown}
use kube_memos_eks.MemoEditor.State.{Attachment, EditorState}
use kube_memos_eks.MemoEditor.Service.{
  Memo, Externals, MaskPatch, build_update_mask, MemoClient, SaveOptions, upload_files, save,
  send_update, state_of, load,
}
use kube_memos_eks.MemoEditor.Service.Laws.{Unchanged, build_update_mask-eq-nil_iff}
use kube_memos_eks.Base.{
  truthy, ok, err, String, ◌≡◌, refl, inr, true, false, Option, none, some, List, [], ◌∷◌, ◌++◌,
}

module _ {W : Type 0} (x : Externals) (client : MemoClient W) where
  send_update_nil :
      (prev : Memo) (mp : MaskPatch) (w : W)
      → mp.0 ≡ []
      → send_update x client prev mp w
        ≡ (ok (record { memo_name = prev.name; has_changes = false }), w)
  unfolding send_update
  send_update_nil prev ([], patch) w e = refl
  send_update_nil prev (p ∷ mask, patch) w e = cc

  -- A save that would change nothing reads the memo and stops there: the world is the one that the
  -- read left, so no update was sent.
  pub save_unchanged :
      (s : EditorState) (name : String) (parent : Option String) (uploaded : List Attachment)
      (prev : Memo) (w₀ w₁ w₂ : W)
      → truthy name ≡ true
      → upload_files x client s.local_files w₀ ≡ (ok uploaded, w₁)
      → client.get_memo name w₁ ≡ (ok prev, w₂)
      → Unchanged x prev s (s.metadata.attachments ++ uploaded)
      → save x client s (record { memo_name = some name; parent_memo_name = parent }) w₀
        ≡ (ok (record { memo_name = prev.name; has_changes = false }), w₂)
  unfolding save
  save_unchanged s name parent uploaded prev w₀ w₁ w₂ named up got same =
      rw (up, named, got)
        (send_update_nil prev (build_update_mask x prev s (s.metadata.attachments ++ uploaded)) w₂
          ((build_update_mask-eq-nil_iff x prev s (s.metadata.attachments ++ uploaded)).1 same))

  -- A failed upload ends the save with its error: the memo is neither read nor written.
  pub save_upload_failed :
      (s : EditorState) (o : SaveOptions) (e : Thrown) (w₀ w₁ : W)
      → upload_files x client s.local_files w₀ ≡ (err e, w₁)
      → save x client s o w₀ ≡ (err e, w₁)
  unfolding save
  save_upload_failed s o e w₀ w₁ up = rw up

  Unchanged_of_load : (m : Memo) → Unchanged x m (state_of x client m) (m.attachments ++ [])
  Unchanged_of_load m = record {
    content = refl;
    visibility = refl;
    attachments = append-nil m.attachments;
    relations = refl;
    location = refl;
    create_time = inr refl;
    update_time = inr refl;
  }

  load_inv :
      (name : String) (s : EditorState) (m : Memo) (w₀ w₁ : W)
      → client.get_memo name w₀ ≡ (ok m, w₁)
      → load x client name w₀ ≡ (ok s, w₁)
      → s ≡ state_of x client m
  unfolding load
  load_inv name s m w₀ w₁ got loaded = cc (rw got at loaded)

  -- Opening a memo and saving it as it was loaded sends no update, if the server still has the memo.
  pub save-load :
      (name : String) (s : EditorState) (m : Memo) (w₀ w₁ w₂ : W)
      → truthy name ≡ true
      → client.get_memo name w₀ ≡ (ok m, w₁)
      → load x client name w₀ ≡ (ok s, w₁)
      → client.get_memo name w₁ ≡ (ok m, w₂)
      → save x client s (record { memo_name = some name; parent_memo_name = none }) w₁
        ≡ (ok (record { memo_name = m.name; has_changes = false }), w₂)
  save-load name s m w₀ w₁ w₂ named got loaded again = rw (load_inv name s m w₀ w₁ got loaded) (
      save_unchanged (state_of x client m) name none [] m w₁ w₁ w₂ named upload_none again
        (Unchanged_of_load m))
    where
      upload_none : upload_files x client [] w₁ ≡ (ok [], w₁)
      upload_none = unfold upload_files in refl
