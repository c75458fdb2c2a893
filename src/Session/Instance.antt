-- ===== src/Session/Instance.antt =====
-- The settings of the instance (contexts/InstanceContext.tsx): the provider's state, and the
-- configuration that the redirect after a failed authentication reads (instance-config.ts). The
-- server's calls are parameters.
pub mod Laws
use kube_memos_eks.Session.Auth.{both}
use kube_memos_eks.Base.{
  filter, find, Text, Result, Action, ◌>>=◌, pure, ok, err, ℕ, String, Bool, true, false, not,
  Option, none, some, List, [], ◌∷◌, ◌++◌, str_eq,
}

pub record MemoRelatedSetting : Type 0 where
  pub disallow_public_visibility : Bool
  pub content_length_limit : ℕ

-- `value` of an `InstanceSetting`, with the fields that are read here.
pub data SettingValue : Type 0 where
  general_setting : Text → SettingValue
  memo_related_setting : MemoRelatedSetting → SettingValue
  storage_setting : Text → SettingValue
  no_value : SettingValue

pub record InstanceSetting : Type 0 where
  pub name : String
  pub value : SettingValue

pub data SettingKey : Type 0 where
  general memo_related storage : SettingKey

-- `buildInstanceSettingName`
abbrev pub build_instance_setting_name : SettingKey → String
build_instance_setting_name SettingKey.general = "instance/settings/GENERAL"
build_instance_setting_name SettingKey.memo_related = "instance/settings/MEMO_RELATED"
build_instance_setting_name SettingKey.storage = "instance/settings/STORAGE"

pub record InstanceState (Profile : Type 0) : Type 0 where
  pub profile : Profile
  pub settings : List InstanceSetting
  pub is_initialized : Bool
  pub is_loading : Bool

-- `state.settings.find((s) => s.name === …)`
abbrev pub find_setting : String → List InstanceSetting → Option InstanceSetting
find_setting name settings = find (λ s. str_eq s.name name) settings

-- `memoRelatedSetting`, where the setting has this case; the default is the generated message's.
unfoldable pub memo_related_of : MemoRelatedSetting → Option InstanceSetting → MemoRelatedSetting
memo_related_of default none = default
memo_related_of default (some s) = elim s.value [
  | general_setting _ ↦ default
  | memo_related_setting m ↦ m
  | storage_setting _ ↦ default
  | no_value ↦ default
]

-- `[...prev.settings.filter((s) => s.name !== setting.name), setting]`
unfoldable pub put_setting : InstanceSetting → List InstanceSetting → List InstanceSetting
put_setting s settings = filter (λ t. not (str_eq t.name s.name)) settings ++ s ∷ []

-- The provider with the module's configuration.
pub record Instance (Profile : Type 0) : Type 0 where
  pub state : InstanceState Profile
  pub disallow_public_visibility : Bool

pub record InstanceClient (Profile E : Type 0) : Type 0 where
  pub get_instance_profile : Action (Instance Profile) E Profile
  pub get_instance_setting : String → Action (Instance Profile) E InstanceSetting
  pub update_instance_setting : InstanceSetting → Action (Instance Profile) E InstanceSetting

module _ {Profile : Type 0} where
  -- `updateInstanceConfig`, where the setting has this case.
  unfoldable pub update_config : InstanceSetting → Instance Profile → Instance Profile
  update_config s w = elim s.value [
    | general_setting _ ↦ w
    | memo_related_setting m ↦ record w {
      disallow_public_visibility = m.disallow_public_visibility;
    }
    | storage_setting _ ↦ w
    | no_value ↦ w
  ]

  abbrev pub with_settings : List InstanceSetting → Instance Profile → Instance Profile
  with_settings settings w = record w { state = record w.state { settings = settings } }

  module _ {E : Type 0} (client : InstanceClient Profile E) where
    open client use {get_instance_profile, get_instance_setting, update_instance_setting}

    -- The calls inside the `try` of `initialize`.
    abbrev pub fetch_all :
        Action (Instance Profile) E (Profile × (InstanceSetting × InstanceSetting))
    fetch_all = do
      profile ← get_instance_profile
      settings ←
          both (get_instance_setting (build_instance_setting_name SettingKey.general))
            (get_instance_setting (build_instance_setting_name SettingKey.memo_related))
      pure (profile, settings)

    unfoldable pub take_all :
        Result E (Profile × (InstanceSetting × InstanceSetting)) × Instance Profile
        → Instance Profile
    unfolding update_config
    take_all (err _, w) = record w {
      state = record w.state { is_initialized = true; is_loading = false };
    }
    take_all (ok (profile, (first, related)), w) = record (update_config related w) {
      state = record {
        profile = profile;
        settings = first ∷ related ∷ [];
        is_initialized = true;
        is_loading = false;
      };
    }

    -- `initialize`
    unfoldable pub initialize : Instance Profile → Instance Profile
    unfolding take_all
    initialize w = take_all (fetch_all (record w { state = record w.state { is_loading = true } }))

    abbrev keep_setting :
        Result E InstanceSetting × Instance Profile → Result E (Unit {0}) × Instance Profile
    keep_setting (err e, w) = (err e, w)
    keep_setting (ok s, w) = (ok tt, with_settings (put_setting s w.state.settings) w)

    -- `fetchSetting`
    unfoldable pub fetch_setting : SettingKey → Action (Instance Profile) E (Unit {0})
    fetch_setting key w = keep_setting (get_instance_setting (build_instance_setting_name key) w)

    -- What `updateSetting` keeps is the setting that it was given.
    abbrev pub keep_given :
        InstanceSetting
        → Result E InstanceSetting × Instance Profile
        → Result E (Unit {0}) × Instance Profile
    keep_given s (err e, w) = (err e, w)
    keep_given s (ok _, w) = (ok tt, with_settings (put_setting s w.state.settings) w)

    unfoldable pub update_setting : InstanceSetting → Action (Instance Profile) E (Unit {0})
    update_setting s w = keep_given s (update_instance_setting s w)
