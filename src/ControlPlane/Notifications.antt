-- ===== src/ControlPlane/Notifications.antt =====
-- services/control-plane/src/notifications: channels.ts and dispatcher.ts, with modules/notifications/notifications.ts
-- and the in-memory repository of the tenants' settings. What a URL answers to its k-th request, and whether a mail
-- is taken, are parameters; so are fresh secrets. The bodies, the signatures' digest and the texts of mails are left out.
pub mod Retries
pub mod Settings
use fleet_tracking_system.Common.{
  ℕ, zero, suc, ◌+◌, ◌-◌, ◌*◌, ◌/◌, ◌%◌, ◌≤◌, ◌<◌, List, [], ◌∷◌, ◌++◌, ◌≡◌, ◌≢◌, refl, sym, ap,
  ◌∙◌, arith, Bool, ◌&&◌, ◌||◌, not, true, false, Option, none, some, Text, text_eq, length, take,
  drop, ltb, leb, nat_beq, ◌==◌, nat_eq, if◌then◌else◌, Bool-cases, Option-cases, ◌⊎◌, inl, inr,
  All, map, length-append, length-take, length-drop, append-nil, append_assoc, take-append_le,
  drop-append_le, take-append_eq, drop-append_eq, drop_two, take-append-drop,
}
use fleet_tracking_system.Common.{contains}
use fleet_tracking_system.Common.Decimal.{codes}
use fleet_tracking_system.Common.Dict
use fleet_tracking_system.Common.Dict.{Dict}

-- Types of alerts are their texts; `types` is none for all.
pub record NotificationConfig : Type 0 where
  pub tenant_id : ℕ
  pub webhook_urls : List Text
  pub email_recipients : List Text
  pub webhook_secret : Text
  pub types : Option (List Text)

unfoldable pub empty_notification_config : ℕ → NotificationConfig
empty_notification_config tenant = record {
  tenant_id = tenant;
  webhook_urls = [];
  email_recipients = [];
  webhook_secret = [];
  types = none;
}

-- What `fetch` gives: a response with its status, or a network error.
pub data Fetched : Type 0 where
  response : ℕ → Fetched
  network_error : Fetched

unfoldable pub is_ok : ℕ → Bool
is_ok status = leb 200 status && leb status 299

-- Whether `deliver` returns after this answer.
unfoldable pub settles : Fetched → Bool
settles network_error = false
settles (response status) = is_ok status || (ltb status 500 && not (status == 429))

-- The end of `deliver`: whether it returned, the requests made, and the pauses between them in milliseconds.
pub record Delivery : Type 0 where
  pub returned : Bool
  pub requests : ℕ
  pub slept : ℕ

unfoldable pub after_failure : ℕ → ℕ → Delivery → Delivery
after_failure left attempt rest = record rest {
  requests = rest.requests + 1;
  slept = rest.slept + (if nat_beq left 0 then 0 else 200 * attempt);
}

-- The loop of `deliver` from an attempt, with `left` more after it.
unfoldable pub attempts : (ℕ → Fetched) → ℕ → ℕ → Delivery
attempts fetch zero attempt = record { returned = false; requests = 0; slept = 0 }
attempts fetch (suc left) attempt =
    let rest = attempts fetch left (attempt + 1) in
    if settles (fetch attempt)
    then record { returned = true; requests = 1; slept = 0 }
    else after_failure left attempt rest

unfoldable pub deliver : ℕ → (ℕ → Fetched) → Delivery
deliver retries fetch = attempts fetch retries 1

-- The deliveries of one alert, and the names of the channels that failed.
pub record Dispatched : Type 0 where
  pub posts : List (Text × Delivery)
  pub mails : List (Text × Bool)
  pub warned : List Text

abbrev pub nothing : Dispatched
nothing = record { posts = []; mails = []; warned = [] }

unfoldable pub all_returned : List (Text × Delivery) → Bool
all_returned [] = true
all_returned ((url, d) ∷ posts) = d.returned && all_returned posts

unfoldable pub all_taken : List (Text × Bool) → Bool
all_taken [] = true
all_taken ((to, taken) ∷ mails) = taken && all_taken mails

unfoldable pub wanted : NotificationConfig → Text → Bool
wanted config type = elim config.types [ none ↦ true | some types ↦ contains type types ]

unfoldable pub no_targets : NotificationConfig → Bool
no_targets config =
    nat_beq (length config.webhook_urls) 0 && nat_beq (length config.email_recipients) 0

module _ (retries : ℕ) (fetch : Text → ℕ → Fetched) (take_mail : Text → Bool) where
  unfoldable pub post_all : List Text → List (Text × Delivery)
  post_all [] = []
  post_all (url ∷ urls) = (url, deliver retries (fetch url)) ∷ post_all urls

  unfoldable pub mail_all : List Text → List (Text × Bool)
  mail_all [] = []
  mail_all (to ∷ recipients) = (to, take_mail to) ∷ mail_all recipients

  -- The channels webhook and email, each settled whatever the other does.
  unfoldable pub send_all : NotificationConfig → Dispatched
  send_all config =
      let posts = post_all config.webhook_urls in
      let mails = mail_all config.email_recipients in
      record {
        posts = posts;
        mails = mails;
        warned =
            (if all_returned posts then [] else codes "webhook" ∷ [])
            ++ (if all_taken mails then [] else codes "email" ∷ []);
      }

  unfoldable pub dispatch : NotificationConfig → Text → Dispatched
  dispatch config type =
      if not (wanted config type) || no_targets config then nothing else send_all config

-- The repository of settings.
abbrev pub Configs : Type 0
Configs = Dict ℕ NotificationConfig

unfoldable pub get_config : ℕ → Configs → NotificationConfig
get_config tenant configs = elim (Dict.get tenant configs) [
  | none ↦ empty_notification_config tenant
  | some config ↦ config
]

pub record Patch : Type 0 where
  pub webhook_urls : Option (List Text)
  pub email_recipients : Option (List Text)
  pub types : Option (Option (List Text))

unfoldable pub or_current {ℓ} : {A : Type ℓ} → Option A → A → A
or_current none a = a
or_current (some b) a = b

unfoldable pub merged : Patch → NotificationConfig → NotificationConfig
merged patch current = record current {
  webhook_urls = or_current patch.webhook_urls current.webhook_urls;
  email_recipients = or_current patch.email_recipients current.email_recipients;
  types = or_current patch.types current.types;
}

unfoldable pub signed : Text → NotificationConfig → NotificationConfig
signed fresh config =
    if not (nat_beq (length config.webhook_urls) 0) && nat_beq (length config.webhook_secret) 0
    then record config { webhook_secret = fresh }
    else config

unfoldable pub set_config : Text → ℕ → Patch → Configs → NotificationConfig × Configs
set_config fresh tenant patch configs =
    let config = signed fresh (merged patch (get_config tenant configs)) in
    (config, Dict.set tenant config configs)

-- What it delivers, and its answer `delivered`.
unfoldable pub send_test :
    ℕ → (Text → ℕ → Fetched) → (Text → Bool) → ℕ → Configs → Dispatched × Bool
send_test retries fetch take_mail tenant configs =
    let config = get_config tenant configs in
    (
      dispatch retries fetch take_mail config (codes "geofence_enter"),
      ltb 0 (length config.webhook_urls + length config.email_recipients),
    )
