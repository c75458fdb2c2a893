-- ===== src/Session/Instance/Laws.antt =====
-- What an update of a setting changes: the setting of that name, and nothing else.
use kube_memos_eks.Session.Instance.{
  InstanceSetting, Instance, InstanceClient, find_setting, put_setting, update_setting, keep_given,
}
use kube_memos_eks.Base.{
  if◌then◌else◌, Bool-cases, ok, String, ◌≡◌, refl, sym, ap, ◌∙◌, inl, inr, some, List, [], ◌∷◌,
  arith, eq_iff, str_eq,
}

-- Looking a name up among the settings of other names, and then at the new one.
find_setting-put_setting :
    (n : String) (s : InstanceSetting) (settings : List InstanceSetting)
    → find_setting n (put_setting s settings)
      ≡ (if str_eq s.name n then some s else find_setting n settings)
unfolding put_setting
find_setting-put_setting n s [] = refl
find_setting-put_setting n s (t ∷ ts) = elim (Bool-cases (str_eq t.name s.name)) [
  | inl e ↦
      let same = ap (λ z. str_eq z n) ((eq_iff t.name s.name).0 e) in
      ground (arith, find_setting-put_setting n s ts)
  | inr e ↦ elim (Bool-cases (str_eq s.name n)) [
    | inl f ↦
        let apart = ap (str_eq t.name) (sym ((eq_iff s.name n).0 f)) ∙ e in
        ground (arith, find_setting-put_setting n s ts)
    | inr f ↦ ground (arith, find_setting-put_setting n s ts)
  ]
]

module _ {Profile E : Type 0} (client : InstanceClient Profile E) where
  -- When the server takes an update of a setting, a lookup by its name gives the new setting, a
  -- lookup by another name gives what it gave when the call ended, and what the redirect after a
  -- failed authentication reads is what it was then.
  pub update_setting_stores :
      (s given : InstanceSetting) (n : String) (w w' : Instance Profile)
      → client.update_instance_setting s w ≡ (ok given, w')
      → ((update_setting client s w).0 ≡ ok tt)
        × (find_setting n (update_setting client s w).1.state.settings
            ≡ (if str_eq s.name n then some s else find_setting n w'.state.settings))
        × ((update_setting client s w).1.disallow_public_visibility ≡ w'.disallow_public_visibility)
  unfolding update_setting
  update_setting_stores s given n w w' h =
      let run = ap (keep_given client s) h in
      (
        ap (λ r. r.0) run,
        ap (λ r. find_setting n r.1.state.settings) run
            ∙ find_setting-put_setting n s w'.state.settings,
        ap (λ r. r.1.disallow_public_visibility) run,
      )
