-- ===== src/View/Locale/Known.antt =====
-- Whatever language the browser, the user or the storage names, the page gets a locale that exists.
use mathlib.Core.Option.{some-injective}
use kube_memos_eks.View.Locale.{
  includes, locale_names, fallbacks, short_code, OrderBy, LocalePage, locale_storage_key, locales,
  same_start, by_short_code, by_fallback, find_nearest_matched_language, is_validate_locale,
  get_stored_locale, get_locale_with_fallback, load_locale, known_item,
}
use kube_memos_eks.Base.{
  if◌then◌else◌, Bool-cases, str_eq_refl, truthy, nullish, all, find, Result, StorageError, Storage,
  get_item, ok, err, String, ◌≡◌, refl, sym, ap, ◌∙◌, ◌≢◌, inl, inr, Bool, true, false, ◌&&◌,
  Option, none, some, List, [], ◌∷◌, arith, str_eq,
}

-- What is found in a list is one of its members, and passes what all of them pass.
find-includes :
    (p : String → Bool) (xs : List String) (x : String) → find p xs ≡ some x → includes xs x ≡ true
find-includes p [] x h = cc
find-includes p (y ∷ ys) x h = ground (arith, str_eq_refl x, find-includes p ys x)

find-all :
    {A : Type 0} (p r : A → Bool) (xs : List A) (x : A)
    → find p xs ≡ some x
    → all r xs ≡ true
    → r x ≡ true
find-all p r [] x h a = cc
find-all p r (y ∷ ys) x h a = ground (arith, find-all p r ys x)

module _ (o : OrderBy) where
  abbrev pub IsLocale : String → Type 0
  IsLocale l = includes (locales o) l ≡ true

  listed : (l : String) → includes locale_names l ≡ true → IsLocale l
  listed l h = o.includes-order_by locale_names l ∙ h

  choice-IsLocale :
      (b : Bool) (x y : String)
      → (b ≡ true → IsLocale x)
      → (b ≡ false → IsLocale y)
      → IsLocale (if b then x else y)
  choice-IsLocale true x y f g = f refl
  choice-IsLocale false x y f g = g refl

  same_start-IsLocale :
      (code : String) (f : Option String)
      → find (λ l. str_eq code (short_code l)) (locales o) ≡ f
      → IsLocale (same_start o code f)
  same_start-IsLocale code none h = listed "en" refl
  same_start-IsLocale code (some l) h =
      find-includes (λ l. str_eq code (short_code l)) (locales o) l h

  by_short_code-IsLocale : (code : String) → IsLocale (by_short_code o code)
  by_short_code-IsLocale code =
      choice-IsLocale (includes (locales o) code) code
        (same_start o code (find (λ l. str_eq code (short_code l)) (locales o))) (λ e. e)
        (λ _. same_start-IsLocale code _ refl)

  by_fallback-IsLocale :
      (language : String) (f : Option (String × String))
      → find (λ f. str_eq f.0 language) fallbacks ≡ f
      → IsLocale (by_fallback o language f)
  by_fallback-IsLocale language none h = by_short_code-IsLocale (short_code language)
  by_fallback-IsLocale language (some f) h =
      listed f.1
        (find-all (λ f. str_eq f.0 language) (λ f. includes locale_names f.1) fallbacks f h refl)

  nearest-IsLocale : (language : String) → IsLocale (find_nearest_matched_language o language)
  unfolding find_nearest_matched_language
  nearest-IsLocale language =
      choice-IsLocale (includes (locales o) language) language
        (by_fallback o language (find (λ f. str_eq f.0 language) fallbacks)) (λ e. e)
        (λ _. by_fallback-IsLocale language _ refl)

  known_item-IsLocale :
      (r : Result StorageError (Option String)) (l : String) → known_item o r ≡ some l → IsLocale l
  known_item-IsLocale (err _) l h = cc
  known_item-IsLocale (ok none) l h = cc
  known_item-IsLocale (ok (some s)) l h = elim (Bool-cases (truthy s && includes (locales o) s)) [
    | inl e ↦
        let same = some-injective _ _ (sym (ap (λ b. if b then some s else none) e) ∙ h) in
        sym (ap (includes (locales o)) same) ∙ right e
    | inr e ↦ absurd (nothing (sym (ap (λ b. if b then some s else none) e) ∙ h))
  ]
    where
      right : truthy s && includes (locales o) s ≡ true → includes (locales o) s ≡ true
      right e = ground arith

      nothing : none ≢ some l
      nothing e = cc

  stored-IsLocale :
      (st : Storage String) (l : String) → get_stored_locale o st ≡ some l → IsLocale l
  unfolding get_stored_locale
  stored-IsLocale st l h = known_item-IsLocale (get_item locale_storage_key st) l h

  given-IsLocale : (l : String) → is_validate_locale o (some l) ≡ true → IsLocale l
  unfolding is_validate_locale
  given-IsLocale l h = ground arith

  user_or_stored :
      (browser : String) (user_locale : Option String) (st : Storage String)
      → IsLocale (get_locale_with_fallback o browser user_locale st)
  unfolding get_locale_with_fallback
  user_or_stored browser user_locale st =
      choice-IsLocale (is_validate_locale o user_locale) (nullish user_locale "")
        (nullish (get_stored_locale o st) (find_nearest_matched_language o browser))
        (user user_locale) (λ _. or_nearest (get_stored_locale o st) refl)
    where
      user : (u : Option String) → is_validate_locale o u ≡ true → IsLocale (nullish u "")
      user none h = cc
      user (some u) h = given-IsLocale u h

      or_nearest :
          (l : Option String)
          → get_stored_locale o st ≡ l
          → IsLocale (nullish l (find_nearest_matched_language o browser))
      or_nearest none h = nearest-IsLocale browser
      or_nearest (some l) h = stored-IsLocale st l h

  loaded : (browser locale : String) (p : LocalePage) → IsLocale (load_locale o browser locale p).0
  unfolding load_locale
  loaded browser locale p =
      choice-IsLocale (is_validate_locale o (some locale)) locale
        (find_nearest_matched_language o browser) (given-IsLocale locale)
        (λ _. nearest-IsLocale browser)

  -- Whatever the language of the browser, the user's setting, the content of the storage and the
  -- locale that is asked for, what the three functions give is one of the locales, so that the
  -- unchecked casts hold.
  pub locale_known :
      (browser locale : String) (user_locale : Option String) (p : LocalePage)
      → IsLocale (find_nearest_matched_language o browser)
        × IsLocale (get_locale_with_fallback o browser user_locale p.storage)
        × IsLocale (load_locale o browser locale p).0
  locale_known browser locale user_locale p = (
    nearest-IsLocale browser,
    user_or_stored browser user_locale p.storage,
    loaded browser locale p,
  )
