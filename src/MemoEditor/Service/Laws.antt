-- ===== src/MemoEditor/Service/Laws.antt =====
-- What the server is told by an update: all that the user changed, and nothing if nothing changed.
use kube_memos_eks.MemoEditor.State.{Attachment, EditorState}
use kube_memos_eks.MemoEditor.Service.{
  Memo, MaskPath, has_path, Externals, MaskPatch, date_of, build_update_mask,
  to_attachment_references,
}
use kube_memos_eks.MemoEditor.Service.Mask.{
  new_date, has_path-build_update_mask, patch-build_update_mask,
}
use mathlib.Core.Option
use kube_memos_eks.Base.{
  if◌then◌else◌, Bool-cases, Eq, ℕ, String, ◌≡◌, refl, sym, ap, ◌∙◌, ◌≢◌, ◌↔◌, ◌⊎◌, inl, inr, Bool,
  true, false, not, Option, none, some, List, [], ◌∷◌, map, arith,
}

abbrev pub names : List Attachment → List String
names = map (λ (a : Attachment). a.name)

names-references : (as' : List Attachment) → names (to_attachment_references as') ≡ names as'
unfolding to_attachment_references
names-references [] = refl
names-references (a ∷ as') = ap (a.name ∷◌) (names-references as')

-- What an update sends of one field: a field that is the memo's stays out of the mask, and one that
-- is not stands in the mask, with its value in the patch.
abbrev pub Sends : {A B : Type 0} → A → A → Bool → Option B → B → Type 0
Sends new old in_mask patched value =
    ((new ≡ old) × (in_mask ≡ false)) ⊎ ((new ≢ old) × (in_mask ≡ true) × (patched ≡ some value))

-- The fields that a user edits; attachments are sent by their names.
pub record SendsDraft (s : EditorState) (all_attachments : List Attachment) (prev : Memo)
    (mp : MaskPatch) : Type 0 where
  pub content : Sends s.content prev.content (has_path MaskPath.content mp.0) mp.1.content s.content
  pub visibility :
      Sends s.metadata.visibility prev.visibility
        (has_path MaskPath.visibility mp.0)
        mp.1.visibility
        s.metadata.visibility
  pub attachments :
      Sends all_attachments prev.attachments
        (has_path MaskPath.attachments mp.0)
        (Option.map names mp.1.attachments)
        (names all_attachments)
  pub relations :
      Sends s.metadata.relations prev.relations
        (has_path MaskPath.relations mp.0)
        mp.1.relations
        s.metadata.relations
  pub location :
      Sends s.metadata.location prev.location
        (has_path MaskPath.location mp.0)
        mp.1.location
        s.metadata.location

sends :
    {A B : Type 0} (e : Eq A) (new old : A) (in_mask : Bool) (patched : Option B) (value : B)
    → in_mask ≡ not (e.beq new old)
    → (e.beq new old ≡ false → patched ≡ some value)
    → Sends new old in_mask patched value
sends e new old in_mask patched value m p = elim (Bool-cases (e.beq new old)) [
  | inl same ↦ inl ((e.beq_iff new old).0 same, m ∙ ap not same)
  | inr other ↦
      inr ((λ q. absurd (let b = (e.beq_iff new old).1 q in cc)), m ∙ ap not other, p other)
]

if_not : {B : Type 0} (b : Bool) (v : Option B) → b ≡ false → (if b then none else v) ≡ v
if_not b v h = rw h

module _ (x : Externals) (prev : Memo) (s : EditorState) (all_attachments : List Attachment) where
  -- Nothing that an update would send differs from the memo.
  pub record Unchanged : Type 0 where
    pub content : s.content ≡ prev.content
    pub visibility : s.metadata.visibility ≡ prev.visibility
    pub attachments : all_attachments ≡ prev.attachments
    pub relations : s.metadata.relations ≡ prev.relations
    pub location : s.metadata.location ≡ prev.location
    pub create_time :
        (s.timestamps.create_time ≡ none) ⊎ (s.timestamps.create_time ≡ date_of x prev.create_time)
    pub update_time :
        (s.timestamps.update_time ≡ none) ⊎ (s.timestamps.update_time ≡ date_of x prev.update_time)

  -- The update of a memo by a draft, whatever either holds: of the text, the visibility, the
  -- attachments, the relations and the location, the mask names exactly those in which the draft
  -- differs from the memo, and the patch has the draft's value of each of these, the attachments by
  -- name.
  pub build_update_mask-SendsDraft :
      SendsDraft s all_attachments prev (build_update_mask x prev s all_attachments)
  build_update_mask-SendsDraft =
      let (in_content, in_visibility, in_attachments, in_relations, in_location, _, _) =
        has_path-build_update_mask x prev s all_attachments in
      let (content, visibility, attachments, relations, location) =
        patch-build_update_mask x prev s all_attachments in
      record {
        content = sends x.equal_content _ _ _ _ _ in_content (λ _. content);
        visibility =
            sends x.equal_visibility _ _ _ _ _ in_visibility (λ h. visibility ∙ if_not _ _ h);
        attachments = sends x.equal_attachments _ _ _ _ _ in_attachments (λ h.
            ap (Option.map names) (attachments ∙ if_not _ _ h)
            ∙ ap some (names-references all_attachments));
        relations = sends x.equal_relations _ _ _ _ _ in_relations (λ h. relations ∙ if_not _ _ h);
        location = sends x.equal_location _ _ _ _ _ in_location (λ h. location ∙ if_not _ _ h);
      }

nil_of_no_path : (mask : List MaskPath) → ((q : MaskPath) → has_path q mask ≡ false) → mask ≡ []
unfolding has_path
nil_of_no_path [] h = refl
nil_of_no_path (p ∷ mask) h = cc (h p, has_path_self p mask)
  where
    has_path_self : (p : MaskPath) (mask : List MaskPath) → has_path p (p ∷ mask) ≡ true
    has_path_self p mask = ground arith

has_path-nil : (q : MaskPath) (mask : List MaskPath) → mask ≡ [] → has_path q mask ≡ false
unfolding has_path
has_path-nil q mask e = rw e

module _ (x : Externals) where
  new_date_iff : (t old : Option ℕ) → (new_date x t old ≡ false) ↔ ((t ≡ none) ⊎ (t ≡ old))
  new_date_iff none old = (λ h. inl refl, λ h. refl)
  new_date_iff (some t) old = ground (arith, x.equal_date.beq_iff (some t) old)

  module _ (prev : Memo) (s : EditorState) (all_attachments : List Attachment) where
    Unchanged_of_nil :
        (build_update_mask x prev s all_attachments).0 ≡ [] → Unchanged x prev s all_attachments
    Unchanged_of_nil e =
        let none_in =
          λ (q : MaskPath). has_path-nil q (build_update_mask x prev s all_attachments).0 e in
        let (content, visibility, attachments, relations, location, created, updated) =
          has_path-build_update_mask x prev s all_attachments in
        record {
          content =
              ground
                (arith, none_in MaskPath.content, x.equal_content.beq_iff s.content prev.content);
          visibility = ground (
            arith,
            none_in MaskPath.visibility,
            x.equal_visibility.beq_iff s.metadata.visibility prev.visibility,
          );
          attachments = ground (
            arith,
            none_in MaskPath.attachments,
            x.equal_attachments.beq_iff all_attachments prev.attachments,
          );
          relations = ground (
            arith,
            none_in MaskPath.relations,
            x.equal_relations.beq_iff s.metadata.relations prev.relations,
          );
          location = ground (
            arith,
            none_in MaskPath.location,
            x.equal_location.beq_iff s.metadata.location prev.location,
          );
          create_time =
              (new_date_iff s.timestamps.create_time (date_of x prev.create_time)).0
                (sym created ∙ none_in MaskPath.create_time);
          update_time =
              (new_date_iff s.timestamps.update_time (date_of x prev.update_time)).0
                (ground (arith, none_in MaskPath.update_time));
        }

    nil_of_Unchanged :
        Unchanged x prev s all_attachments → (build_update_mask x prev s all_attachments).0 ≡ []
    nil_of_Unchanged u =
        let (content, visibility, attachments, relations, location, created, updated) =
          has_path-build_update_mask x prev s all_attachments in
        let c = (x.equal_content.beq_iff s.content prev.content).1 u.content in
        let v = (x.equal_visibility.beq_iff s.metadata.visibility prev.visibility).1 u.visibility in
        let a = (x.equal_attachments.beq_iff all_attachments prev.attachments).1 u.attachments in
        let r = (x.equal_relations.beq_iff s.metadata.relations prev.relations).1 u.relations in
        let l = (x.equal_location.beq_iff s.metadata.location prev.location).1 u.location in
        let ct =
          (new_date_iff s.timestamps.create_time (date_of x prev.create_time)).1 u.create_time in
        let ut =
          (new_date_iff s.timestamps.update_time (date_of x prev.update_time)).1 u.update_time in
        nil_of_no_path _ elim [
          | MaskPath.content ↦ content ∙ ap not c
          | MaskPath.visibility ↦ visibility ∙ ap not v
          | MaskPath.attachments ↦ attachments ∙ ap not a
          | MaskPath.relations ↦ relations ∙ ap not r
          | MaskPath.location ↦ location ∙ ap not l
          | MaskPath.create_time ↦ created ∙ ct
          | MaskPath.update_time ↦ updated ∙ ground arith
        ]

    -- The mask is empty exactly when nothing that the update would send differs from the memo.
    pub build_update_mask-eq-nil_iff :
        ((build_update_mask x prev s all_attachments).0 ≡ []) ↔ Unchanged x prev s all_attachments
    build_update_mask-eq-nil_iff = (Unchanged_of_nil, nil_of_Unchanged)
