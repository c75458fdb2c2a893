-- ===== src/View/Theme.antt =====
-- Themes (utils/theme.ts): how a name is resolved, kept and applied to the document.
pub mod Laws
use kube_memos_eks.Base.{
  if◌then◌else◌, truthy, nullish, Storage, get_item, set_item, attempt, ok, err, String, Bool,
  Option, none, some, [], ◌∷◌, str_eq,
}

pub data ResolvedTheme : Type 0 where
  default default_dark midnight paper whitewall : ResolvedTheme

pub data Theme : Type 0 where
  system : Theme
  resolved : ResolvedTheme → Theme

abbrev pub storage_key : String
storage_key = "memos-theme"

abbrev pub name_of_resolved : ResolvedTheme → String
name_of_resolved default = "default"
name_of_resolved default_dark = "default-dark"
name_of_resolved midnight = "midnight"
name_of_resolved paper = "paper"
name_of_resolved whitewall = "whitewall"

abbrev pub name_of : Theme → String
name_of system = "system"
name_of (resolved t) = name_of_resolved t

-- `VALID_THEMES.includes(theme)`, with the theme that the name is.
abbrev pub valid_theme : String → Option Theme
valid_theme s =
    if str_eq s "system"
    then some system
    else if str_eq s "default"
    then some (resolved default)
    else if str_eq s "default-dark"
    then some (resolved default_dark)
    else if str_eq s "midnight"
    then some (resolved midnight)
    else if str_eq s "paper"
    then some (resolved paper)
    else if str_eq s "whitewall"
    then some (resolved whitewall)
    else none

-- `validateTheme`
unfoldable pub validate_theme : String → Theme
validate_theme s = nullish (valid_theme s) (resolved default)

-- The document: the style element with the instance's id, the `data-theme` attribute, and what the
-- browser answers to "(prefers-color-scheme: dark)".
pub record Page : Type 0 where
  pub style : Option String
  pub data_theme : Option String
  pub prefers_dark : Bool
  pub storage : Storage String

-- `getSystemTheme`
abbrev pub get_system_theme : Page → ResolvedTheme
get_system_theme p = if p.prefers_dark then default_dark else default

-- `resolveTheme`
unfoldable pub resolve_theme : String → Page → ResolvedTheme
resolve_theme s p = elim (validate_theme s) [ system ↦ get_system_theme p | resolved t ↦ t ]

-- `getStoredTheme`: an unavailable storage counts as an empty one.
abbrev pub get_stored_theme : Page → Option Theme
get_stored_theme p = elim (get_item storage_key p.storage) [
  | err _ ↦ none
  | ok none ↦ none
  | ok (some s) ↦ if truthy s then valid_theme s else none
]

-- `setStoredTheme`
abbrev pub set_stored_theme : Theme → Page → Page
set_stored_theme t p = record p {
  storage = attempt (set_item storage_key (name_of t) ∷ []) p.storage;
}

-- `getInitialTheme`
unfoldable pub get_initial_theme : Page → Theme
get_initial_theme p = nullish (get_stored_theme p) system

abbrev pub user_theme_of : Option String → Option Theme
user_theme_of none = none
user_theme_of (some s) = if truthy s then valid_theme s else none

-- `getThemeWithFallback`
unfoldable pub get_theme_with_fallback : Option String → Page → Theme
get_theme_with_fallback user_theme p =
    nullish (user_theme_of user_theme) (nullish (get_stored_theme p) system)

-- The style sheets that the build inlines, by theme.
module _ (theme_content : ResolvedTheme → String) where
  -- `injectThemeStyle`: THEME_CONTENT has `null` for the default theme.
  abbrev pub inject_theme_style : ResolvedTheme → Page → Page
  inject_theme_style default p = record p { style = none }
  inject_theme_style t p = record p {
    style = if truthy (theme_content t) then some (theme_content t) else none;
  }

  abbrev set_theme_attribute : ResolvedTheme → Page → Page
  set_theme_attribute t p = record p { data_theme = some (name_of_resolved t) }

  -- `loadTheme`
  unfoldable pub load_theme : String → Page → Page
  load_theme s p =
      let t = validate_theme s in
      let r = resolve_theme (name_of t) p in
      set_stored_theme t (set_theme_attribute r (inject_theme_style r p))

  -- `applyThemeEarly`
  unfoldable pub apply_theme_early : Page → Page
  apply_theme_early p = load_theme (name_of (get_initial_theme p)) p
