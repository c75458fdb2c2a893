-- ===== src/View/Theme/Laws.antt =====
-- What a loaded theme leaves, and that loading it again changes nothing.
use kube_memos_eks.View.Theme.{
  Theme, ResolvedTheme, system, resolved, default, default_dark, midnight, paper, whitewall,
  name_of_resolved, name_of, valid_theme, validate_theme, Page, resolve_theme, get_stored_theme,
  get_initial_theme, load_theme, inject_theme_style, set_stored_theme, apply_theme_early,
}
use kube_memos_eks.Base.{truthy, nullish, String, ◌≡◌, refl, ap, ◌∙◌, true, Option, none, some}

-- Every theme's name is valid, and is that theme.
valid_theme-name_of : (t : Theme) → valid_theme (name_of t) ≡ some t
valid_theme-name_of system = refl
valid_theme-name_of (resolved default) = refl
valid_theme-name_of (resolved default_dark) = refl
valid_theme-name_of (resolved midnight) = refl
valid_theme-name_of (resolved paper) = refl
valid_theme-name_of (resolved whitewall) = refl

truthy-name_of : (t : Theme) → truthy (name_of t) ≡ true
truthy-name_of system = refl
truthy-name_of (resolved default) = refl
truthy-name_of (resolved default_dark) = refl
truthy-name_of (resolved midnight) = refl
truthy-name_of (resolved paper) = refl
truthy-name_of (resolved whitewall) = refl

storage-inject_theme_style :
    (css : ResolvedTheme → String) (t : ResolvedTheme) (p : Page)
    → (inject_theme_style css t p).storage ≡ p.storage
storage-inject_theme_style css default p = refl
storage-inject_theme_style css default_dark p = refl
storage-inject_theme_style css midnight p = refl
storage-inject_theme_style css paper p = refl
storage-inject_theme_style css whitewall p = refl

stored_theme_read :
    (t : Theme) (p : Page)
    → p.storage.available ≡ true
    → p.storage.has_room ≡ true
    → get_stored_theme (set_stored_theme t p) ≡ some t
stored_theme_read t p a h = rw (a, h, truthy-name_of t) (valid_theme-name_of t)

-- A theme that is loaded where the storage can be written is the initial theme of the next visit;
-- a name that is no theme counts as "default".
get_initial_theme-load_theme :
    (css : ResolvedTheme → String) (s : String) (p : Page)
    → p.storage.available ≡ true
    → p.storage.has_room ≡ true
    → get_initial_theme (load_theme css s p) ≡ validate_theme s
unfolding get_initial_theme load_theme
get_initial_theme-load_theme css s p a h =
    let r = resolve_theme (name_of (validate_theme s)) p in
    let e = storage-inject_theme_style css r p in
    ap (λ o. nullish o system)
      (stored_theme_read (validate_theme s)
        (record (inject_theme_style css r p) { data_theme = some (name_of_resolved r) })
        (ap (λ q. q.available) e ∙ a) (ap (λ q. q.has_room) e ∙ h))

-- What the document shows.
abbrev pub shown : Page → Option String × Option String
shown p = (p.style, p.data_theme)

validate_theme-name_of : (t : Theme) → validate_theme (name_of t) ≡ t
unfolding validate_theme
validate_theme-name_of t = ap (λ o. nullish o (resolved default)) (valid_theme-name_of t)

style-inject_theme_style :
    (css : ResolvedTheme → String) (t : ResolvedTheme) (p q : Page)
    → (inject_theme_style css t p).style ≡ (inject_theme_style css t q).style
style-inject_theme_style css default p q = refl
style-inject_theme_style css default_dark p q = refl
style-inject_theme_style css midnight p q = refl
style-inject_theme_style css paper p q = refl
style-inject_theme_style css whitewall p q = refl

prefers_dark-inject_theme_style :
    (css : ResolvedTheme → String) (t : ResolvedTheme) (p : Page)
    → (inject_theme_style css t p).prefers_dark ≡ p.prefers_dark
prefers_dark-inject_theme_style css default p = refl
prefers_dark-inject_theme_style css default_dark p = refl
prefers_dark-inject_theme_style css midnight p = refl
prefers_dark-inject_theme_style css paper p = refl
prefers_dark-inject_theme_style css whitewall p = refl

resolved_same :
    (s t : String) (p q : Page)
    → validate_theme s ≡ validate_theme t
    → p.prefers_dark ≡ q.prefers_dark
    → resolve_theme (name_of (validate_theme s)) p ≡ resolve_theme (name_of (validate_theme t)) q
unfolding resolve_theme
resolved_same s t p q e d = rw (e, d)

-- What is shown is settled by the theme and the system's preference.
shown-load_theme :
    (css : ResolvedTheme → String) (s t : String) (p q : Page)
    → validate_theme s ≡ validate_theme t
    → p.prefers_dark ≡ q.prefers_dark
    → shown (load_theme css s p) ≡ shown (load_theme css t q)
unfolding load_theme resolve_theme
shown-load_theme css s t p q e d =
    let r = resolve_theme (name_of (validate_theme s)) p in
    let same : r ≡ resolve_theme (name_of (validate_theme t)) q = resolved_same s t p q e d in
    ap (λ x. ((inject_theme_style css x p).style, some (name_of_resolved x))) same
    ∙ ap (λ x. (x, some (name_of_resolved (resolve_theme (name_of (validate_theme t)) q))))
        (style-inject_theme_style css (resolve_theme (name_of (validate_theme t)) q) p q)

-- After a reload the page shows the theme that was loaded, if the storage could be written and the
-- system's preference is the same.
pub apply_theme_early-load_theme :
    (css : ResolvedTheme → String) (s : String) (p : Page)
    → p.storage.available ≡ true
    → p.storage.has_room ≡ true
    → shown
        (apply_theme_early css (record (load_theme css s p) { style = none; data_theme = none }))
      ≡ shown (load_theme css s p)
unfolding apply_theme_early load_theme get_initial_theme
apply_theme_early-load_theme css s p a h =
    let t = get_initial_theme-load_theme css s p a h in
    shown-load_theme css (name_of (get_initial_theme (load_theme css s p))) s
      (record (load_theme css s p) { style = none; data_theme = none }) p
      (ap (λ u. validate_theme (name_of u)) t ∙ validate_theme-name_of (validate_theme s))
      (prefers_dark-inject_theme_style css (resolve_theme (name_of (validate_theme s)) p) p)
