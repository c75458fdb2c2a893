-- ===== src/View/Locale.antt =====
-- The language of the page (utils/i18n.ts, with the locales and the fallbacks of i18n.ts). A locale is
-- its tag. lodash's `orderBy` is a parameter; what i18next does with a language is left out but for
-- the language that it is given.
use Prim.Native.String
pub mod Known
use kube_memos_eks.Base.{
  if◌then◌else◌, truthy, nullish, any, find, Result, StorageError, Storage, get_item, set_item,
  attempt, ok, err, String, ◌≡◌, Bool, false, ◌&&◌, Option, none, some, List, [], ◌∷◌, str_eq,
}

abbrev pub locale_storage_key : String
locale_storage_key = "memos-locale"

-- `includes`
abbrev pub includes : List String → String → Bool
includes xs x = any (λ y. str_eq y x) xs

-- The argument of `orderBy` that gives `locales`.
abbrev pub locale_names : List String
locale_names =
    "ar" ∷ "ca" ∷ "cs" ∷ "de" ∷ "en" ∷ "en-GB" ∷ "es" ∷ "fa" ∷ "fr" ∷ "gl" ∷ "hi" ∷ "hr" ∷ "hu"
    ∷ "id" ∷ "it" ∷ "ja" ∷ "ka-GE" ∷ "ko" ∷ "mr" ∷ "nb" ∷ "nl" ∷ "pl" ∷ "pt-PT" ∷ "pt-BR" ∷ "ru"
    ∷ "sl" ∷ "sv" ∷ "th" ∷ "tr" ∷ "uk" ∷ "vi" ∷ "zh-Hans" ∷ "zh-Hant" ∷ []

-- The languages of `fallbackLng`, each with the first of its fallbacks.
abbrev pub fallbacks : List (String × String)
fallbacks = ("zh-HK", "zh-Hant") ∷ ("zh-TW", "zh-Hant") ∷ ("zh", "zh-Hans") ∷ ("default", "en") ∷ []

-- `substring(0, 2)`
abbrev pub short_code : String → String
short_code String.[] = ""
short_code (String.◌∷◌ c String.[]) = String.◌∷◌ c ""
short_code (String.◌∷◌ c (String.◌∷◌ d s)) = String.◌∷◌ c (String.◌∷◌ d "")

-- An order of a list has the same members.
pub record OrderBy : Type 0 where
  pub order_by : List String → List String
  pub includes-order_by : (xs : List String) (x : String) → includes (order_by xs) x ≡ includes xs x

-- What is shown: the language that i18next was given last, and local storage.
pub record LocalePage : Type 0 where
  pub language : Option String
  pub storage : Storage String

module _ (o : OrderBy) where
  abbrev pub locales : List String
  locales = o.order_by locale_names

  -- The last resort: a locale that starts with the two letters.
  abbrev pub same_start : String → Option String → String
  same_start code none = "en"
  same_start code (some existing) = existing

  abbrev pub by_short_code : String → String
  by_short_code code =
      if includes locales code
      then code
      else same_start code (find (λ existing. str_eq code (short_code existing)) locales)

  abbrev pub by_fallback : String → Option (String × String) → String
  by_fallback language none = by_short_code (short_code language)
  by_fallback language (some f) = f.1

  -- `findNearestMatchedLanguage`
  unfoldable pub find_nearest_matched_language : String → String
  find_nearest_matched_language language =
      if includes locales language
      then language
      else by_fallback language (find (λ f. str_eq f.0 language) fallbacks)

  -- `isValidateLocale`
  unfoldable pub is_validate_locale : Option String → Bool
  is_validate_locale none = false
  is_validate_locale (some locale) = truthy locale && includes locales locale

  abbrev pub known : Option String → Option String
  known none = none
  known (some s) = if truthy s && includes locales s then some s else none

  abbrev pub known_item : Result StorageError (Option String) → Option String
  known_item (ok v) = known v
  known_item (err _) = none

  -- `getStoredLocale`
  unfoldable pub get_stored_locale : Storage String → Option String
  get_stored_locale st = known_item (get_item locale_storage_key st)

  -- `setStoredLocale`
  unfoldable pub set_stored_locale : String → Storage String → Storage String
  set_stored_locale locale st = attempt (set_item locale_storage_key locale ∷ []) st

  -- `getLocaleWithFallback`, with the browser's language.
  unfoldable pub get_locale_with_fallback : String → Option String → Storage String → String
  unfolding find_nearest_matched_language is_validate_locale get_stored_locale
  get_locale_with_fallback browser user_locale st =
      if is_validate_locale user_locale
      then nullish user_locale ""
      else nullish (get_stored_locale st) (find_nearest_matched_language browser)

  -- `loadLocale`
  unfoldable pub load_locale : String → String → LocalePage → String × LocalePage
  unfolding is_validate_locale set_stored_locale find_nearest_matched_language
  load_locale browser locale p =
      let valid =
        if is_validate_locale (some locale)
        then locale
        else find_nearest_matched_language browser in
      (valid, record { language = some valid; storage = set_stored_locale valid p.storage })

  -- `applyLocaleEarly`
  unfoldable pub apply_locale_early : String → LocalePage → LocalePage
  unfolding load_locale get_stored_locale
  apply_locale_early browser p =
      (load_locale browser
        (nullish (get_stored_locale p.storage) (find_nearest_matched_language browser)) p).1
