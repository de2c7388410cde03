-- ===== src/Scheduler/Started.antt =====
-- Which collecting loops run after StartScheduler.
use sensor_edge.Go.Time.{nanoseconds}
use sensor_edge.Prelude.Int.{leb_ℤ}
use sensor_edge.Scheduler.{DeviceConfig}
use sensor_edge.Prelude.{
  false, true, pos, ◌∙◌, if◌then◌else◌, Bool, ap, refl, [], inr, ◌⊎◌, ◌++◌, ◌∷◌, sym, map, ◌≡◌, inl,
  String, List,
}
use sensor_edge.Scheduler.Start.{
  start_scheduler, with_client, with_ticker, start_runner, then_start, DeviceRunner, start_devices,
}
use sensor_edge.Prelude.Dict.{Dict}
use sensor_edge.Poll.Setup.Clients.{create, Driver}
use sensor_edge.Go.{ok-injective, Error, err, ok, Outcome}
use sensor_edge.Go.{ok, err, panic}
use mathlib.Core.List.{map-append, append_assoc, append-nil}

-- Both fail in the same way.
abbrev pub SameFailure : {A B : Type 0} → Outcome A → Outcome B → Type 0
SameFailure o r = ((x : Error) × (o ≡ err x) × (r ≡ err x)) ⊎ ((o ≡ panic) × (r ≡ panic))

module _ {P : Type 0} (d : Driver P) (registry : Dict P) where
  abbrev pub runner_ids : List (DeviceRunner P) → List String
  runner_ids = map (λ (r : DeviceRunner P). r.id)

  abbrev pub device_ids : List DeviceConfig → List String
  device_ids = map (λ (dev : DeviceConfig). dev.id)

  -- All devices have a loop, or those in front of the first that failed.
  abbrev pub IsStarted :
      List DeviceConfig
      → List String
      → Outcome (List (DeviceRunner P)) × List (DeviceRunner P)
      → Type 0
  IsStarted devs seen r =
      ((r.0 ≡ ok r.1) × (runner_ids r.1 ≡ seen ++ device_ids devs))
      ⊎ ((before : List DeviceConfig) × (dev : DeviceConfig) × (after : List DeviceConfig) × (devs
            ≡ before ++ dev ∷ after)
          × (runner_ids r.1 ≡ seen ++ device_ids before)
          × SameFailure (start_runner d registry dev) r.0)

  start_runner-id :
      (dev : DeviceConfig) (r : DeviceRunner P) → start_runner d registry dev ≡ ok r → r.id ≡ dev.id
  unfolding start_runner
  start_runner-id dev r = made (create dev.protocol registry)
    where
      with_period :
          (b : Bool) (s : DeviceRunner P) → (if b then panic else ok s) ≡ ok r → r.id ≡ s.id
      with_period true s e = cc
      with_period false s e = sym (ap (λ (t : DeviceRunner P). t.id) (ok-injective s r e))

      ticking : (o : Outcome (Unit {0}) × P) → with_ticker d registry dev o ≡ ok r → r.id ≡ dev.id
      ticking (ok x, client) e =
          with_period (leb_ℤ (nanoseconds dev.interval) (pos 0))
            (record { id = dev.id; client = client; period = nanoseconds dev.interval }) e
      ticking (err x, client) e = cc
      ticking (panic, client) e = cc

      made : (o : Outcome P) → with_client d registry dev o ≡ ok r → r.id ≡ dev.id
      made (ok client) e = ticking (d.initialise dev.config client) e
      made (err x) e = cc
      made panic e = cc

  -- What is seen when one more device has its loop.
  seen_more :
      (runners : List (DeviceRunner P)) (r : DeviceRunner P) (dev : DeviceConfig)
      (devs : List DeviceConfig)
      → r.id ≡ dev.id
      → runner_ids (runners ++ r ∷ []) ++ device_ids devs
        ≡ runner_ids runners ++ dev.id ∷ device_ids devs
  seen_more runners r dev devs e =
      ap (λ l. l ++ device_ids devs) (map-append _ runners (r ∷ []))
      ∙ append_assoc (runner_ids runners) (r.id ∷ []) (device_ids devs)
      ∙ ap (λ i. runner_ids runners ++ i ∷ device_ids devs) e

  start_devices-IsStarted :
      (devs : List DeviceConfig) (runners : List (DeviceRunner P))
      → IsStarted devs (runner_ids runners) (start_devices d registry devs runners)
  unfolding start_devices
  start_devices-IsStarted [] runners = inl (refl, sym (append-nil _))
  start_devices-IsStarted (dev ∷ devs) runners =
      go (start_runner d registry dev) refl (λ more. start_devices-IsStarted devs more)
    where
      go :
          (o : Outcome (DeviceRunner P))
          → start_runner d registry dev ≡ o
          → ((more : List (DeviceRunner P))
              → IsStarted devs (runner_ids more) (start_devices d registry devs more))
          → IsStarted
              (dev ∷ devs)
              (runner_ids runners)
              (then_start d registry (start_devices d registry devs) o runners)
      go (ok r) e others = elim (others (runners ++ r ∷ [])) [
        | inl (all, ids) ↦ inl (all, ids ∙ seen_more runners r dev devs (start_runner-id dev r e))
        | inr (before, bad, after, split, ids, failure) ↦ inr (
          dev ∷ before,
          bad,
          after,
          ap (λ l. dev ∷ l) split,
          ids ∙ seen_more runners r dev before (start_runner-id dev r e),
          failure,
        )
      ]
      go (err x) e others = inr ([], dev, devs, refl, sym (append-nil _), inl (x, e, refl))
      go panic e others = inr ([], dev, devs, refl, sym (append-nil _), inr (e, refl))

  -- After StartScheduler either it returns the runners of all devices, in order, and their loops run; or
  -- it fails in the way that some device of the list does, and the loops that run are then those of the
  -- devices in front of that one.
  pub start_scheduler-IsStarted :
      (devs : List DeviceConfig) → IsStarted devs [] (start_scheduler d registry devs)
  unfolding start_scheduler
  start_scheduler-IsStarted devs = start_devices-IsStarted devs []
