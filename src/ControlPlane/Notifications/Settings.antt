-- ===== src/ControlPlane/Notifications/Settings.antt =====
-- The tenants' notification settings over any changes.
use fleet_tracking_system.Common.{
  ℕ, List, [], ◌∷◌, ◌≡◌, ◌≢◌, refl, sym, ap, ◌∙◌, arith, ◌&&◌, not, Text, text_eq, length, nat_beq,
  ◌==◌, nat_eq, if◌then◌else◌, Bool-cases, inl, inr, All,
}
use fleet_tracking_system.Common.{nat_beq_iff}
use fleet_tracking_system.Common.Dict
use fleet_tracking_system.Common.Dict.{Dict}
use fleet_tracking_system.ControlPlane.Notifications.{
  NotificationConfig, Configs, get_config, Patch, merged, signed, set_config,
}

-- Where webhooks are set there is a secret to sign with.
abbrev pub Signed : Configs → Type 0
Signed configs =
    (tenant : ℕ)
    → (get_config tenant configs).webhook_urls ≢ []
    → (get_config tenant configs).webhook_secret ≢ []

pub record Change : Type 0 where
  pub fresh : Text
  pub tenant_id : ℕ
  pub patch : Patch

abbrev pub Fresh : List Change → Type 0
Fresh = All (λ change. change.fresh ≢ [])

unfoldable pub set_configs : List Change → Configs → Configs
set_configs [] configs = configs
set_configs (change ∷ changes) configs =
    set_configs changes (set_config change.fresh change.tenant_id change.patch configs).1

get_config-set :
    (tenant other : ℕ) (config : NotificationConfig) (configs : Configs)
    → get_config other (Dict.set tenant config configs)
      ≡ (if tenant == other then config else get_config other configs)
unfolding get_config
get_config-set tenant other config configs =
    ground (arith, Dict.get-set tenant other config configs)

length_none : (t : Text) → length t ≡ 0 → t ≡ []
length_none [] h = refl
length_none (c ∷ t) h = absurd (omega (arith, h))

length_none_list : (ts : List Text) → length ts ≡ 0 → ts ≡ []
length_none_list [] h = refl
length_none_list (t ∷ ts) h = absurd (omega (arith, h))

signed_laws :
    (fresh : Text) (config : NotificationConfig)
    → fresh ≢ []
    → (config.webhook_secret ≢ [] → (signed fresh config).webhook_secret ≡ config.webhook_secret)
      × ((signed fresh config).webhook_urls ≢ [] → (signed fresh config).webhook_secret ≢ [])
unfolding signed
signed_laws fresh config new =
    elim (Bool-cases
      (not (nat_beq (length config.webhook_urls) 0) && nat_beq (length config.webhook_secret) 0)) [
        | inl makes ↦ (
          λ has. absurd (has (length_none config.webhook_secret (ground arith))),
          λ urls none_. new (ground arith),
        )
        | inr keeps ↦ (
          λ has. ground arith,
          λ urls none_.
              urls (ground (arith, length_none_list config.webhook_urls, ap length none_)),
        )
      ]

set_config_secret :
    (change : Change) (other : ℕ) (configs : Configs)
    → change.fresh ≢ []
    → let after =
        get_config other (set_config change.fresh change.tenant_id change.patch configs).1 in
      let before = get_config other configs in
      (before.webhook_secret ≢ [] → after.webhook_secret ≡ before.webhook_secret)
      × ((before.webhook_urls ≢ [] → before.webhook_secret ≢ [])
          → after.webhook_urls ≢ []
          → after.webhook_secret ≢ [])
unfolding set_config merged
set_config_secret change other configs new =
    let config = merged change.patch (get_config change.tenant_id configs) in
    let next = signed change.fresh config in
    let (stays, has) = signed_laws change.fresh config new in
    let at = get_config-set change.tenant_id other next configs in
    elim (Bool-cases (change.tenant_id == other)) [
      | inl same ↦
          let it = (nat_beq_iff change.tenant_id other).0 same in
          let now : get_config other (Dict.set change.tenant_id next configs) ≡ next =
            ground arith in
          (
            λ h.
                ap (λ c. c.webhook_secret) now
                ∙ stays (λ e. h (ap (λ i. (get_config i configs).webhook_secret) (sym it) ∙ e))
                ∙ ap (λ i. (get_config i configs).webhook_secret) it,
            λ before urls none_.
                has (λ e. urls (ap (λ c. c.webhook_urls) now ∙ e))
                  (sym (ap (λ c. c.webhook_secret) now) ∙ none_),
          )
      | inr apart ↦
          let now : get_config other (Dict.set change.tenant_id next configs)
              ≡ get_config other configs =
            ground arith in
          (
            λ h. ap (λ c. c.webhook_secret) now,
            λ before urls none_.
                before (λ e. urls (ap (λ c. c.webhook_urls) now ∙ e))
                  (sym (ap (λ c. c.webhook_secret) now) ∙ none_),
          )
    ]

-- Over any changes of settings by any tenants, with fresh secrets that are not empty: a tenant that has webhooks has a secret
-- to sign with, and a secret once made is never changed.
pub set_configs-Signed :
    (changes : List Change) (configs : Configs)
    → Fresh changes
    → Signed configs
    → Signed (set_configs changes configs)
      × ((tenant : ℕ)
          → (get_config tenant configs).webhook_secret ≢ []
          → (get_config tenant (set_configs changes configs)).webhook_secret
            ≡ (get_config tenant configs).webhook_secret)
unfolding set_configs
set_configs-Signed [] configs f h = (h, λ tenant has. refl)
set_configs-Signed (change ∷ changes) configs (new, f) h =
    let next = (set_config change.fresh change.tenant_id change.patch configs).1 in
    let (all, stays) =
      set_configs-Signed changes next f
        (λ tenant. (set_config_secret change tenant configs new).1 (h tenant)) in
    (
      all,
      λ tenant has.
          let same = (set_config_secret change tenant configs new).0 has in
          stays tenant (λ e. has (sym same ∙ e)) ∙ same,
    )
