-- ===== src/MemoEditor/Service/Mask.antt =====
-- What the update mask and the patch hold, step by step.
use kube_memos_eks.MemoEditor.State.{Attachment, EditorState}
use kube_memos_eks.MemoEditor.Service.{
  Memo, MaskPath, path_code, has_path, add_path, Externals, MaskPatch, date_of, mask_content,
  mask_visibility, mask_attachments, mask_relations, mask_location, mask_touch, mask_create_time,
  mask_update_time, build_update_mask, to_attachment_references,
}
use kube_memos_eks.Base.{
  ◌==◌, if◌then◌else◌, ==_iff, Bool-cases, any, ℕ, ◌≡◌, refl, inl, inr, Bool, false, not, ◌&&◌,
  ◌||◌, Option, none, some, List, [], ◌∷◌, ◌++◌, arith,
}

any-append :
    {A : Type 0} (p : A → Bool) (xs ys : List A) → any p (xs ++ ys) ≡ (any p xs || any p ys)
any-append p [] ys = refl
any-append p (x ∷ xs) ys = ground (arith, any-append p xs ys)

any_code :
    (c d : ℕ) (mask : List MaskPath)
    → c ≡ d
    → any (λ q. path_code q == c) mask ≡ any (λ q. path_code q == d) mask
any_code c d mask e = rw e

has_path-nil : (q : MaskPath) → has_path q [] ≡ false
unfolding has_path
has_path-nil q = refl

-- Adding a path adds that path and no other.
has_path-add_path :
    (q p : MaskPath) (mask : List MaskPath)
    → has_path q (add_path p mask) ≡ (has_path q mask || (path_code p == path_code q))
unfolding add_path
has_path-add_path q p mask = elim (Bool-cases (has_path p mask)) [
  | inl old ↦ elim (Bool-cases (path_code p == path_code q)) [
    | inl same ↦
        ground
          (arith, any_code (path_code q) (path_code p) mask, ==_iff (path_code p) (path_code q))
    | inr other ↦ ground arith
  ]
  | inr new ↦ ground (arith, any-append (λ r. path_code r == path_code q) mask (p ∷ []))
]

-- A time that the user has set, and that is not the memo's.
abbrev pub new_date : Externals → Option ℕ → Option ℕ → Bool
new_date x none old = false
new_date x (some t) old = not (x.equal_date.beq (some t) old)

module _ (x : Externals) (prev : Memo) (s : EditorState) (all_attachments : List Attachment) where
  abbrev same_content : Bool
  same_content = x.equal_content.beq s.content prev.content

  abbrev same_visibility : Bool
  same_visibility = x.equal_visibility.beq s.metadata.visibility prev.visibility

  abbrev same_attachments : Bool
  same_attachments = x.equal_attachments.beq all_attachments prev.attachments

  abbrev same_relations : Bool
  same_relations = x.equal_relations.beq s.metadata.relations prev.relations

  abbrev same_location : Bool
  same_location = x.equal_location.beq s.metadata.location prev.location

  module _ (mp : MaskPatch) where
    content_path :
        (q : MaskPath)
        → has_path q (mask_content x prev s mp).0
          ≡ (has_path q mp.0 || (not same_content && (0 == path_code q)))
    unfolding mask_content
    content_path q = ground (arith, has_path-add_path q MaskPath.content mp.0)

    content_patch :
        (mask_content x prev s mp).1
        ≡ record (mp.1) { content = if same_content then mp.1.content else some s.content }
    unfolding mask_content
    content_patch = elim (Bool-cases same_content) [ inl e ↦ rw e | inr e ↦ rw e ]

    visibility_path :
        (q : MaskPath)
        → has_path q (mask_visibility x prev s mp).0
          ≡ (has_path q mp.0 || (not same_visibility && (1 == path_code q)))
    unfolding mask_visibility
    visibility_path q = ground (arith, has_path-add_path q MaskPath.visibility mp.0)

    visibility_patch : (mask_visibility x prev s mp).1 ≡ record (mp.1) {
      visibility = if same_visibility then mp.1.visibility else some s.metadata.visibility;
    }
    unfolding mask_visibility
    visibility_patch = elim (Bool-cases same_visibility) [ inl e ↦ rw e | inr e ↦ rw e ]

    attachments_path :
        (q : MaskPath)
        → has_path q (mask_attachments x prev all_attachments mp).0
          ≡ (has_path q mp.0 || (not same_attachments && (2 == path_code q)))
    unfolding mask_attachments
    attachments_path q = ground (arith, has_path-add_path q MaskPath.attachments mp.0)

    attachments_patch : (mask_attachments x prev all_attachments mp).1 ≡ record (mp.1) {
      attachments =
          if same_attachments
          then mp.1.attachments
          else some (to_attachment_references all_attachments);
    }
    unfolding mask_attachments
    attachments_patch = elim (Bool-cases same_attachments) [ inl e ↦ rw e | inr e ↦ rw e ]

    relations_path :
        (q : MaskPath)
        → has_path q (mask_relations x prev s mp).0
          ≡ (has_path q mp.0 || (not same_relations && (3 == path_code q)))
    unfolding mask_relations
    relations_path q = ground (arith, has_path-add_path q MaskPath.relations mp.0)

    relations_patch : (mask_relations x prev s mp).1 ≡ record (mp.1) {
      relations = if same_relations then mp.1.relations else some s.metadata.relations;
    }
    unfolding mask_relations
    relations_patch = elim (Bool-cases same_relations) [ inl e ↦ rw e | inr e ↦ rw e ]

    location_path :
        (q : MaskPath)
        → has_path q (mask_location x prev s mp).0
          ≡ (has_path q mp.0 || (not same_location && (4 == path_code q)))
    unfolding mask_location
    location_path q = ground (arith, has_path-add_path q MaskPath.location mp.0)

    location_patch : (mask_location x prev s mp).1 ≡ record (mp.1) {
      location = if same_location then mp.1.location else some s.metadata.location;
    }
    unfolding mask_location
    location_patch = elim (Bool-cases same_location) [ inl e ↦ rw e | inr e ↦ rw e ]

    touch_path :
        (q : MaskPath)
        → has_path q (mask_touch x mp).0 ≡ (
            has_path q mp.0
            || ((has_path MaskPath.content mp.0
                  || has_path MaskPath.attachments mp.0
                  || has_path MaskPath.relations mp.0
                  || has_path MaskPath.location mp.0)
                && (6 == path_code q)))
    unfolding mask_touch
    touch_path q = ground (arith, has_path-add_path q MaskPath.update_time mp.0)

    touch_patch : (mask_touch x mp).1 ≡ mp.1
    unfolding mask_touch
    touch_patch = ground arith

  create_time_path :
      (q : MaskPath) (t : Option ℕ) (mp : MaskPatch)
      → has_path q (mask_create_time x prev t mp).0
        ≡ (has_path q mp.0 || (new_date x t (date_of x prev.create_time) && (5 == path_code q)))
  unfolding mask_create_time
  create_time_path q none mp = ground arith
  create_time_path q (some t) mp = ground (arith, has_path-add_path q MaskPath.create_time mp.0)

  update_time_path :
      (q : MaskPath) (t : Option ℕ) (mp : MaskPatch)
      → has_path q (mask_update_time x prev t mp).0
        ≡ (has_path q mp.0 || (new_date x t (date_of x prev.update_time) && (6 == path_code q)))
  unfolding mask_update_time
  update_time_path q none mp = ground arith
  update_time_path q (some t) mp = ground (arith, has_path-add_path q MaskPath.update_time mp.0)

  create_time_patch :
      (t : Option ℕ) (mp : MaskPatch)
      → (mask_create_time x prev t mp).1
        ≡ record (mp.1) { create_time = (mask_create_time x prev t mp).1.create_time }
  unfolding mask_create_time
  create_time_patch none mp = refl
  create_time_patch (some t) mp =
      elim (Bool-cases (x.equal_date.beq (some t) (date_of x prev.create_time))) [
        | inl e ↦ rw e
        | inr e ↦ rw e
      ]

  update_time_patch :
      (t : Option ℕ) (mp : MaskPatch)
      → (mask_update_time x prev t mp).1
        ≡ record (mp.1) { update_time = (mask_update_time x prev t mp).1.update_time }
  unfolding mask_update_time
  update_time_patch none mp = refl
  update_time_patch (some t) mp =
      elim (Bool-cases (x.equal_date.beq (some t) (date_of x prev.update_time))) [
        | inl e ↦ rw e
        | inr e ↦ rw e
      ]

  ruleset paths = (
    has_path-nil, content_path, visibility_path, attachments_path, relations_path, location_path,
    touch_path, create_time_path, update_time_path,
  )

  ruleset patches = (
    update_time_patch, create_time_patch, touch_patch, location_patch, relations_patch,
    attachments_patch, visibility_patch, content_patch,
  )

  abbrev pub built : MaskPatch
  built = build_update_mask x prev s all_attachments

  -- Each path stands in the mask exactly when its part of the memo changes; the time of update does
  -- too when the text, the attachments, the relations or the location change.
  pub has_path-build_update_mask :
      (has_path MaskPath.content built.0 ≡ not same_content)
      × (has_path MaskPath.visibility built.0 ≡ not same_visibility)
      × (has_path MaskPath.attachments built.0 ≡ not same_attachments)
      × (has_path MaskPath.relations built.0 ≡ not same_relations)
      × (has_path MaskPath.location built.0 ≡ not same_location)
      × (has_path MaskPath.create_time built.0
          ≡ new_date x s.timestamps.create_time (date_of x prev.create_time))
      × (has_path MaskPath.update_time built.0 ≡ (
          (not same_content || not same_attachments || not same_relations || not same_location)
          || new_date x s.timestamps.update_time (date_of x prev.update_time)))
  unfolding build_update_mask
  has_path-build_update_mask = (
    simp paths (ground arith),
    simp paths (ground arith),
    simp paths (ground arith),
    simp paths (ground arith),
    simp paths (ground arith),
    simp paths (ground arith),
    simp paths (ground arith),
  )

  -- What the patch holds for the fields that a user edits.
  pub patch-build_update_mask :
      (built.1.content ≡ some s.content)
      × (built.1.visibility ≡ (if same_visibility then none else some s.metadata.visibility))
      × (built.1.attachments
          ≡ (if same_attachments then none else some (to_attachment_references all_attachments)))
      × (built.1.relations ≡ (if same_relations then none else some s.metadata.relations))
      × (built.1.location ≡ (if same_location then none else some s.metadata.location))
  unfolding build_update_mask
  patch-build_update_mask = (
    rw patches (ground arith),
    rw patches (ground arith),
    rw patches (ground arith),
    rw patches (ground arith),
    rw patches (ground arith),
  )
