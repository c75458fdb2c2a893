-- ===== src/Markdown/Suggestions/Selection.antt =====
-- The selected index of a popup: through a run of inputs, keys and what hides it, and behind a move
-- of the caret that hides nothing.
use native.Mathlib.Nat.{mod-lt, mod-eq_of_lt}
use mathlib.Core.Path.{subst}
use kube_memos_eks.Markdown.TextArea.{TextArea}
use kube_memos_eks.Markdown.Suggestions.{
  Key, escape, arrow_left, arrow_right, arrow_down, arrow_up, enter, tab, other, Popup, suggestions,
  is_visible, press, handle_autocomplete, handle_key_down, handle_input, get_current_word,
}
use kube_memos_eks.Base.{
  if◌then◌else◌, Bool-cases, length, get_elem?, Text, ℕ, zero, suc, ◌+◌, ◌-◌, ◌≤◌, ◌<◌, ◌≡◌, refl,
  sym, ap, ◌∙◌, ◌⊎◌, inl, inr, true, false, Option, none, some, List, [], ◌∷◌, arith,
}

-- The popup, the text area, and the suggestions of the last render.
pub record View (T : Type 0) : Type 0 where
  pub popup : Popup
  pub area : TextArea
  pub rendered : List T

module _ {T : Type 0} (to_lower : Text → Text) (trigger : ℕ) (items : List T)
    (filter_items : List T → Text → List T)
    (on_autocomplete : Option T → Text → ℕ → TextArea → TextArea) where
  abbrev pub shown : TextArea → List T
  shown a = suggestions to_lower trigger items filter_items a

  abbrev pub pressed : Key → View T → View T
  pressed key v =
      let r = handle_key_down on_autocomplete key v.rendered v.popup v.area in
      record v { popup = r.0; area = r.1 }

  abbrev pub render : View T → View T
  render v = record v { rendered = shown v.area }

  -- An input leaves whatever text and caret, and is rendered; a click or a blur hides the popup.
  pub data Step : View T → View T → Type 0 where
    inputs :
        (v : View T) (b : TextArea)
        → Step v (record { popup = handle_input trigger b; area = b; rendered = shown b })
    presses : (key : Key) (v : View T) → Step v (pressed key v)
    renders : (v : View T) → Step v (render v)
    hides : (v : View T) → Step v (record v { popup = record v.popup { has_position = false } })

  pub data Reach : View T → Type 0 where
    here :
        (a : TextArea) (rendered : List T)
        → Reach (record {
          popup = record { has_position = false; selected = 0 };
          area = a;
          rendered = rendered;
        })
    next : {s t : View T} → Reach s → Step s t → Reach t

  -- The popup is closed, or the suggestions are those of the text, and there are none or the selected
  -- index is one of theirs.
  abbrev InRange : View T → Type 0
  InRange v =
      (v.popup.has_position ≡ false)
      ⊎ ((v.rendered ≡ shown v.area)
          × ((length v.rendered ≡ 0) ⊎ (v.popup.selected < length v.rendered)))

  press-InRange :
      (key : Key) (p : Popup) (a : TextArea) (l : List T)
      → 0 < length l
      → InRange (record { popup = p; area = a; rendered = l })
      → InRange (record {
        popup = (press on_autocomplete key l p a).0;
        area = (press on_autocomplete key l p a).1;
        rendered = l;
      })
  unfolding handle_autocomplete
  press-InRange escape p a l n i = inl refl
  press-InRange arrow_left p a l n i = inl refl
  press-InRange arrow_right p a l n i = inl refl
  press-InRange arrow_down p a l n (inl h) = inl h
  press-InRange arrow_down p a l n (inr (e, _)) = inr (e, inr (mod-lt (p.selected + 1) n))
  press-InRange arrow_up p a l n (inl h) = inl h
  press-InRange arrow_up p a l n (inr (e, _)) = inr (e, inr (mod-lt (p.selected + length l - 1) n))
  press-InRange enter p a l n i = inl refl
  press-InRange tab p a l n i = inl refl
  press-InRange other p a l n i = i

  start-cases : (n : ℕ) → (n ≡ 0) ⊎ (0 < n)
  start-cases zero = inl refl
  start-cases (suc n) = inr (omega arith)

  Step-InRange : {s t : View T} → Step s t → InRange s → InRange t
  unfolding handle_input handle_key_down
  Step-InRange (inputs v b) i = inr (refl, start-cases (length (shown b)))
  Step-InRange (presses key v) i = elim (Bool-cases (is_visible v.popup v.rendered)) [
    | inl e ↦ rw e (press-InRange key v.popup v.area v.rendered (ground arith) i)
    | inr e ↦ rw e i
  ]
  Step-InRange (renders v) (inl h) = inl h
  Step-InRange (renders v) (inr (e, i)) =
      inr (refl, subst (λ l. (length l ≡ 0) ⊎ (v.popup.selected < length l)) e i)
  Step-InRange (hides v) i = inl refl

  Reach-InRange : {s : View T} → Reach s → InRange s
  Reach-InRange (here a l) = inl refl
  Reach-InRange (next r st) = Step-InRange st (Reach-InRange r)

  get_elem?-some : (xs : List T) (i : ℕ) → i < length xs → (x : T) × (get_elem? xs i ≡ some x)
  get_elem?-some [] i l = absurd (omega arith)
  get_elem?-some (x ∷ xs) zero l = (x, refl)
  get_elem?-some (x ∷ xs) (suc i) l = get_elem?-some xs i (omega arith)

  get_elem?-none : (xs : List T) (i : ℕ) → length xs ≤ i → get_elem? xs i ≡ none
  get_elem?-none [] i l = refl
  get_elem?-none (x ∷ xs) zero l = absurd (omega arith)
  get_elem?-none (x ∷ xs) (suc i) l = get_elem?-none xs i (omega arith)

  -- What Enter does on a popup that is visible.
  pressed-enter :
      (v : View T) (item : Option T)
      → is_visible v.popup v.rendered ≡ true
      → get_elem? v.rendered v.popup.selected ≡ item
      → (pressed enter v).area
        ≡ on_autocomplete item (get_current_word v.area).0 (get_current_word v.area).1 v.area
  unfolding handle_key_down handle_autocomplete
  pressed-enter v item h e =
      ap
        (λ b.
          (if b
            then press on_autocomplete enter v.rendered v.popup v.area
            else (v.popup, v.area)).1)
        h
      ∙ ap (λ o. on_autocomplete o (get_current_word v.area).0 (get_current_word v.area).1 v.area) e

  -- As long as the caret moves only with an input and with what hides the popup, and the items stay
  -- the same: on a popup that is visible one of its suggestions is selected, these are the suggestions
  -- for the word at the caret, and Enter completes that word with the selected one.
  pub selection_in_range :
      (v : View T)
      → Reach v
      → is_visible v.popup v.rendered ≡ true
      → (v.rendered ≡ shown v.area)
        × ((item : T) × (get_elem? (shown v.area) v.popup.selected ≡ some item)
            × ((pressed enter v).area ≡ (
                on_autocomplete
                  (some item)
                  (get_current_word v.area).0
                  (get_current_word v.area).1
                  v.area)))
  selection_in_range v r h =
      let (same, l) = visible_range (Reach-InRange r) in
      let (item, e) = get_elem?-some v.rendered v.popup.selected l in
      (
        same,
        (
          item,
          ap (λ x. get_elem? x v.popup.selected) (sym same) ∙ e,
          pressed-enter v (some item) h e,
        ),
      )
    where
      visible_range :
          InRange v → (v.rendered ≡ shown v.area) × (v.popup.selected < length v.rendered)
      visible_range (inl q) = absurd (ground arith)
      visible_range (inr (same, inl q)) = absurd (ground arith)
      visible_range (inr (same, inr q)) = (same, q)

  -- Arrow Down on a visible popup, with room for one more.
  pressed-arrow_down :
      (v : View T)
      → is_visible v.popup v.rendered ≡ true
      → v.popup.selected + 1 < length v.rendered
      → pressed arrow_down v
        ≡ record v { popup = record v.popup { selected = v.popup.selected + 1 } }
  unfolding handle_key_down
  pressed-arrow_down v h l =
      ap
        (λ c.
          let r =
            if c
            then press on_autocomplete arrow_down v.rendered v.popup v.area
            else (v.popup, v.area) in
          record v { popup = r.0; area = r.1 })
        h
      ∙ ap (λ k. record v { popup = record v.popup { selected = k } }) (mod-eq_of_lt l)

  -- A caret that moves without hiding the popup, as by the key Home: when the word at the new place
  -- has fewer suggestions than the index that Arrow Down goes on to, the popup is visible with nothing
  -- selected, and Enter completes that word with `undefined`.
  pub selection_out_of_range :
      (v : View T) (b : TextArea)
      → v.popup.has_position ≡ true
      → v.popup.selected + 1 < length v.rendered
      → 0 < length (shown b)
      → length (shown b) ≤ v.popup.selected + 1
      → (is_visible
            (render (pressed arrow_down (record v { area = b }))).popup
            (render (pressed arrow_down (record v { area = b }))).rendered
          ≡ true)
        × ((pressed enter (render (pressed arrow_down (record v { area = b })))).area
            ≡ (on_autocomplete none (get_current_word b).0 (get_current_word b).1 b))
  selection_out_of_range v b h l m n =
      let w = record v { area = b; popup = record v.popup { selected = v.popup.selected + 1 } } in
      let down = pressed-arrow_down (record v { area = b }) (ground arith) l in
      let visible : is_visible (render w).popup (shown b) ≡ true = ground arith in
      (
        ap (λ z. is_visible (render z).popup (render z).rendered) down ∙ visible,
        ap (λ z. (pressed enter (render z)).area) down
            ∙ pressed-enter (render w) none visible
                (get_elem?-none (shown b) (v.popup.selected + 1) n),
      )
