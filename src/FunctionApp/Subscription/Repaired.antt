-- ===== src/FunctionApp/Subscription/Repaired.antt =====
-- What `_ensure_onedrive_subscription` leaves behind when it returns.
use enterprise_multi_agent_s.Prelude.{
  ℕ, String, Bool, some, ◌≡◌, refl, not, ◌||◌, ◌==◌, if_lem, subst, ap, ◌∙◌,
}
use enterprise_multi_agent_s.Python.Result
use enterprise_multi_agent_s.Python.Result.{Exn, Result, ok, err, err-ok, ok-injective}
use enterprise_multi_agent_s.Python.Exec.{lift, outcome_of_bind}
use enterprise_multi_agent_s.Python.Json.{Json}
use enterprise_multi_agent_s.Security.{is_configured_secret}
use enterprise_multi_agent_s.Settings.{Settings, is_empty, text_of}
use enterprise_multi_agent_s.OnedriveState.{aware, OneDriveSubscriptionState, new_state}
use enterprise_multi_agent_s.OnedriveState.RoundTrip.{ReadsBack, new_state_lem}
use enterprise_multi_agent_s.FunctionApp.Subscription.Checks.{
  target_at, normalized_https_url, Parsers, Target, onedrive_target, drive_resource,
}
use enterprise_multi_agent_s.FunctionApp.Subscription.{
  Drive, ensure_onedrive_subscription, seed, stored_subscription, select, keep, replace, save_state,
}

module _ {W : Type 0} (repr : Json → String) (parsers : Parsers) (drive : Drive W)
    (settings : Settings) where
  -- The state is the one of the configured drive, and the store answers it.
  pub record IsRepaired (state : OneDriveSubscriptionState) (w : W) : Type 0 where
    pub drive_id : state.drive_id ≡ text_of settings.onedrive_drive_id
    pub resource : state.resource ≡ drive_resource (text_of settings.onedrive_drive_id)
    pub stored : (drive.states.get state.drive_id w).0 ≡ ok (some state)

  abbrev pub Repairs : Result (OneDriveSubscriptionState × Bool) × W → Type 0
  Repairs (err e, w) = Unit {0}
  Repairs (ok (state, reused), w) = IsRepaired state w

  -- a target of the configured drive
  abbrev AtDrive : Result Target → Type 0
  AtDrive (err e) = Unit {0}
  AtDrive (ok target) =
      (target.drive_id ≡ text_of settings.onedrive_drive_id)
      × (target.resource ≡ drive_resource (text_of settings.onedrive_drive_id))

  base-AtDrive :
      (base : Result String)
      → AtDrive (Result.◌>>=◌ base (target_at repr parsers (text_of settings.onedrive_drive_id)))
  base-AtDrive (err e) = tt
  base-AtDrive (ok base_url) = if_lem AtDrive (base_url == "") _ _ (λ _. tt) λ _. (refl, refl)

  onedrive_target-AtDrive : AtDrive (onedrive_target repr parsers settings)
  unfolding onedrive_target
  onedrive_target-AtDrive =
      if_lem AtDrive (is_empty settings.onedrive_drive_id || is_empty settings.onedrive_tenant_id) _
        _ (λ _. tt)
        λ _.
          if_lem AtDrive (not (is_configured_secret (some settings.onedrive_client_state))) _ _
            (λ _. tt) λ _. base-AtDrive (normalized_https_url repr parsers settings.public_base_url)

  target-named :
      (target : Target) → onedrive_target repr parsers settings ≡ ok target → AtDrive (ok target)
  target-named target h = subst AtDrive h onedrive_target-AtDrive

  module _ (reads : ReadsBack drive.states) where
    save_state-Repairs :
        (target : Target) (chosen : String × ℕ × Bool) (w : W)
        → target.drive_id ≡ text_of settings.onedrive_drive_id
        → target.resource ≡ drive_resource (text_of settings.onedrive_drive_id)
        → Repairs (save_state repr parsers drive target chosen w)
    unfolding save_state
    save_state-Repairs target chosen w named placed =
        outcome_of_bind Repairs
          (lift (
            new_state chosen.0 target.drive_id (aware chosen.1) target.resource
              target.notification_url))
          _ w (λ _ _. tt)
          λ state made.
            outcome_of_bind Repairs (drive.states.save state) _ w (λ _ _. tt)
              λ _ saved.
                let (same_drive, (same_resource, valid)) =
                  new_state_lem chosen.0 target.drive_id target.resource target.notification_url
                    chosen.1 state made in
                record {
                  drive_id = same_drive ∙ named;
                  resource = same_resource ∙ placed;
                  stored = reads state w valid saved;
                }

    ensure-Repairs :
        (seed_delta : Bool) (w : W)
        → Repairs (ensure_onedrive_subscription repr parsers drive settings seed_delta w)
    unfolding ensure_onedrive_subscription
    ensure-Repairs seed_delta w =
        outcome_of_bind Repairs (lift (onedrive_target repr parsers settings)) _ w (λ _ _. tt)
          λ target read.
            let (named, placed) = target-named target read in
            outcome_of_bind Repairs (seed repr parsers drive seed_delta target) _ _ (λ _ _. tt)
              λ _ _.
                outcome_of_bind Repairs (drive.states.get target.drive_id) _ _ (λ _ _. tt)
                  λ stored _.
                    outcome_of_bind Repairs (stored_subscription repr parsers drive target stored) _
                      _ (λ _ _. tt)
                      λ known _.
                        outcome_of_bind Repairs
                          (select repr parsers drive target known.stale_ids known.selected) _ _
                          (λ _ _. tt)
                          λ found _.
                            outcome_of_bind Repairs (keep repr parsers drive found.selected) _ _
                              (λ _ _. tt)
                              λ subscription _.
                                outcome_of_bind Repairs
                                  (replace repr parsers drive settings target found.stale_ids
                                    subscription)
                                  _ _ (λ _ _. tt)
                                  λ chosen _. save_state-Repairs target chosen _ named placed

    returned :
        (outcome : Result (OneDriveSubscriptionState × Bool) × W)
        (state : OneDriveSubscriptionState) (reused : Bool)
        → Repairs outcome
        → outcome.0 ≡ ok (state, reused)
        → IsRepaired state outcome.1
    returned (err e, w) state reused p h = absurd (err-ok h)
    returned (ok (made, flag), w) state reused p h =
        subst (λ (s : OneDriveSubscriptionState). IsRepaired s w)
          (ap (λ (r : OneDriveSubscriptionState × Bool). r.0) (ok-injective h)) p

    -- For a subscription store that reads back what it saved: when _ensure_onedrive_subscription
    -- returns a state, whether the subscription was kept, renewed or made anew, the state is that
    -- of the configured drive and its root, and the store answers it for that drive.
    pub ensure-IsRepaired :
        (seed_delta : Bool) (w : W) (state : OneDriveSubscriptionState) (reused : Bool)
        → (ensure_onedrive_subscription repr parsers drive settings seed_delta w).0
          ≡ ok (state, reused)
        → IsRepaired state (ensure_onedrive_subscription repr parsers drive settings seed_delta w).1
    ensure-IsRepaired seed_delta w state reused h =
        returned (ensure_onedrive_subscription repr parsers drive settings seed_delta w) state
          reused (ensure-Repairs seed_delta w) h
