-- ===== src/Poll/Setup/SharedConfig.antt =====
-- Point sets of one device share the device's own map.
use mathlib.Core.Path.{subst}
use text.Mathlib.TextEquality.{eq_iff}
use text.Mathlib.Text.{◌==◌ as str_eq}
use sensor_edge.Go.{ok-injective, panic, err, ok, Outcome}
use sensor_edge.Poll.Points.{DevicePointSetV2}
use sensor_edge.Value.{Value}
use sensor_edge.Prelude.{
  inr, inl, Bool-cases, sym, ◌∙◌, ap, false, ◌++◌, if◌then◌else◌, ℕ, ◌∷◌, refl, none, some, [], ◌≡◌,
  List, ℤ, String, Option,
}
use sensor_edge.Floats.{Floats}
use sensor_edge.Prelude.Dict.{lookup-insert_self, lookup-insert_ne, lookup, Dict}
use sensor_edge.Poll.Setup.Config.{meta_fields, effective_config, DeviceConfigWithMeta}
use sensor_edge.Poll.Setup.Precedence.{first_of_assoc, effective_config-lookup, first_of}
use sensor_edge.Poll.Setup.Start.{
  append_started, then_start, Started, start_all, start_device, fill_config, protocol_of,
  with_device, with_pooled, with_params, Acquisition, params_of,
}
use sensor_edge.Poll.Setup.Clients.{get_or_create_client, ClientPool, Driver}

-- The first of the maps that has the key.
abbrev pub first_in : String → List (Dict Value) → Option Value
first_in key [] = none
first_in key (p ∷ ps) = first_of (lookup key p) (first_in key ps)

abbrev pub of_option {ℓ} : {A : Type ℓ} → Option A → List A
of_option none = []
of_option (some a) = a ∷ []

-- The parameters that the point sets of a device are started with.
abbrev pub params_found :
    Dict (List (Dict Value))
    → String
    → DeviceConfigWithMeta
    → List DevicePointSetV2
    → List (Dict Value)
params_found protocols id dev [] = []
params_found protocols id dev (set ∷ sets) =
    (if str_eq set.device_id id then of_option (params_of protocols set dev) else [])
    ++ params_found protocols id dev sets

-- A setting that the metadata also has is looked for in the metadata once.
first_of_twice :
    (own meta p x : Option Value)
    → first_of (first_of own (first_of meta p)) (first_of meta x)
      ≡ first_of own (first_of meta (first_of p x))
first_of_twice (some v) meta p x = refl
first_of_twice none (some v) p x = refl
first_of_twice none none none x = refl
first_of_twice none none (some v) x = refl

module _ {P : Type 0} (d : Driver P) (fl : Floats) (parse_duration : String → Option ℤ)
    (registry : Dict P) (protocols : Dict (List (Dict Value))) (id : String)
    (dev : DeviceConfigWithMeta) where
  abbrev with_own : Dict Value → DeviceConfigWithMeta
  with_own own = record dev { config = some own }

  -- The device's map was filled with these parameters, one after the other.
  record IsFilled (own : Dict Value) (params : List (Dict Value)) (a : Acquisition P) : Type 0 where
    now : Dict Value
    there : lookup id a.devices ≡ some (with_own now)
    mixed :
        (key : String) (x : Option Value)
        → first_of (lookup key now) (first_of (lookup key (meta_fields dev.device_meta)) x)
          ≡ first_of (lookup key own) (
              first_of
                (lookup key (meta_fields dev.device_meta))
                (first_of (first_in key params) x))

  with_pooled-devices :
      (set : DevicePointSetV2) (config : Dict Value) (devices : Dict DeviceConfigWithMeta)
      (r : Outcome ℕ × ClientPool P)
      → (with_pooled d fl parse_duration registry set config devices r).1.devices ≡ devices
  with_pooled-devices set config devices (ok client, pool) = refl
  with_pooled-devices set config devices (err e, pool) = refl
  with_pooled-devices set config devices (panic, pool) = refl

  -- A set of another device leaves the device's map alone.
  apart :
      (set : DevicePointSetV2) (a : Acquisition P) (o : Option DeviceConfigWithMeta)
      → str_eq set.device_id id ≡ false
      → lookup id (with_device d fl parse_duration registry protocols set o a).1.devices
        ≡ lookup id a.devices
  apart set a none e = refl
  apart set a (some other) e = with_found (params_of protocols set other)
    where
      with_config :
          (own : Option (Dict Value)) (config : Dict Value)
          → lookup id (fill_config set.device_id (record other { config = own }) config a.devices)
            ≡ lookup id a.devices
      with_config none config = refl
      with_config (some own) config = lookup-insert_ne set.device_id id _ a.devices e

      with_found :
          (params : Option (Dict Value))
          → lookup id
              (with_params d fl parse_duration registry set other
                (protocol_of set other)
                params
                a).1.devices
            ≡ lookup id a.devices
      with_found none = refl
      with_found (some params) =
          ap (lookup id) (
            with_pooled-devices set (effective_config other params) _ (
              get_or_create_client d fl registry (protocol_of set other)
                (effective_config other params) a.pool))
          ∙ with_config other.config (effective_config other params)

  -- What one set of the device fills in.
  step :
      (set : DevicePointSetV2) (a : Acquisition P) (own : Dict Value) (params : Option (Dict Value))
      → set.device_id ≡ id
      → lookup id a.devices ≡ some (with_own own)
      → IsFilled own
          (of_option params)
          (with_params d fl parse_duration registry set
            (with_own own)
            (protocol_of set (with_own own))
            params
            a).1
  step set a own none e there = record { now = own; there = there; mixed = λ key x. refl }
  step set a own (some params) e there = record {
    now = effective_config (with_own own) params;
    there =
        ap (lookup id) (
          with_pooled-devices set (effective_config (with_own own) params) _ (
            get_or_create_client d fl registry (protocol_of set (with_own own))
              (effective_config (with_own own) params) a.pool))
        ∙ rw e (lookup-insert_self id _ a.devices);
    mixed = λ key x.
        ap (λ o. first_of o (first_of (lookup key (meta_fields dev.device_meta)) x))
          (effective_config-lookup key (with_own own) params)
        ∙ first_of_twice (lookup key own) (lookup key (meta_fields dev.device_meta))
            (lookup key params) x
        ∙ ap
            (λ p.
              first_of (lookup key own)
                (first_of (lookup key (meta_fields dev.device_meta)) (first_of p x)))
            (or_none (lookup key params));
  }
    where
      or_none : (o : Option Value) → o ≡ first_of o none
      or_none none = refl
      or_none (some v) = refl

  abbrev params_here : DevicePointSetV2 → List (Dict Value)
  params_here set = if str_eq set.device_id id then of_option (params_of protocols set dev) else []

  start_device-IsFilled :
      (set : DevicePointSetV2) (a : Acquisition P) (own : Dict Value)
      → lookup id a.devices ≡ some (with_own own)
      → IsFilled own (params_here set) (start_device d fl parse_duration registry protocols set a).1
  unfolding start_device
  start_device-IsFilled set a own there = elim (Bool-cases (str_eq set.device_id id)) [
    | inl e ↦
        let same = (eq_iff set.device_id id).0 e in
        rw e (
          subst
            (λ o.
              IsFilled own (of_option (params_of protocols set dev))
                (with_device d fl parse_duration registry protocols set o a).1)
            (sym (ap (λ i. lookup i a.devices) same ∙ there))
            (step set a own (params_of protocols set dev) same there))
    | inr e ↦ rw e (record {
      now = own;
      there = apart set a (lookup set.device_id a.devices) e ∙ there;
      mixed = λ key x. refl;
    })
  ]

  first_in-append :
      (key : String) (ps qs : List (Dict Value)) (x : Option Value)
      → first_of (first_in key (ps ++ qs)) x
        ≡ first_of (first_in key ps) (first_of (first_in key qs) x)
  first_in-append key [] qs x = refl
  first_in-append key (p ∷ ps) qs x =
      first_of_assoc (lookup key p) (first_in key (ps ++ qs)) x
      ∙ ap (first_of (lookup key p)) (first_in-append key ps qs x)
      ∙ sym (first_of_assoc (lookup key p) (first_in key ps) (first_of (first_in key qs) x))

  IsFilled-append :
      (own : Dict Value) (ps qs : List (Dict Value)) (a b : Acquisition P) (f : IsFilled own ps a)
      → IsFilled f.now qs b
      → IsFilled own (ps ++ qs) b
  IsFilled-append own ps qs a b f g = record {
    now = g.now;
    there = g.there;
    mixed = λ key x.
        g.mixed key x
        ∙ f.mixed key (first_of (first_in key qs) x)
        ∙ ap
            (λ o. first_of (lookup key own) (first_of (lookup key (meta_fields dev.device_meta)) o))
            (sym (first_in-append key ps qs x));
  }

  start_all-IsFilled :
      (sets : List DevicePointSetV2) (all all' : List Started) (a : Acquisition P)
      (own : Dict Value)
      → lookup id a.devices ≡ some (with_own own)
      → (start_all d fl parse_duration registry protocols sets all a).0 ≡ ok all'
      → IsFilled own
          (params_found protocols id dev sets)
          (start_all d fl parse_duration registry protocols sets all a).1
  unfolding start_all
  start_all-IsFilled [] all all' a own there e = record {
    now = own;
    there = there;
    mixed = λ key x. refl;
  }
  start_all-IsFilled (set ∷ sets) all all' a own there e =
      rest (start_device d fl parse_duration registry protocols set a)
        (start_device-IsFilled set a own there)
        (λ all'' b now h k. start_all-IsFilled sets all'' all' b now h k) e
    where
      rest :
          (r : Outcome (Option Started) × Acquisition P) (f : IsFilled own (params_here set) r.1)
          → ((all'' : List Started) (b : Acquisition P) (now : Dict Value)
              → lookup id b.devices ≡ some (with_own now)
              → (start_all d fl parse_duration registry protocols sets all'' b).0 ≡ ok all'
              → IsFilled now
                  (params_found protocols id dev sets)
                  (start_all d fl parse_duration registry protocols sets all'' b).1)
          → (then_start d fl parse_duration registry
              (start_all d fl parse_duration registry protocols sets)
              all
              r).0
            ≡ ok all'
          → IsFilled own
              (params_here set ++ params_found protocols id dev sets)
              (then_start d fl parse_duration registry
                (start_all d fl parse_duration registry protocols sets)
                all
                r).1
      rest (ok o, b) f others h =
          IsFilled-append own (params_here set) _ b _ f
            (others (append_started d fl parse_duration registry all o) b f.now f.there h)
      rest (err x, b) f others h = cc
      rest (panic, b) f others h = cc

  -- The configuration that a set is started with.
  config_of :
      (set : DevicePointSetV2) (now params : Dict Value) (b : Acquisition P) (s : Started)
      → lookup set.device_id b.devices ≡ some (with_own now)
      → params_of protocols set dev ≡ some params
      → (start_device d fl parse_duration registry protocols set b).0 ≡ ok (some s)
      → effective_config (with_own now) params ≡ s.config
  unfolding start_device
  config_of set now params b s there found e =
      pooled
        (get_or_create_client d fl registry (protocol_of set (with_own now))
          (effective_config (with_own now) params) b.pool)
        (sym (
            ap (λ o. (with_device d fl parse_duration registry protocols set o b).0) there
            ∙ ap
                (λ o.
                  (with_params d fl parse_duration registry set (with_own now)
                    (protocol_of set (with_own now)) o b).0)
                found)
          ∙ e)
    where
      pooled :
          (r : Outcome ℕ × ClientPool P)
          → (with_pooled d fl parse_duration registry set
              (effective_config (with_own now) params)
              (fill_config set.device_id
                (with_own now)
                (effective_config (with_own now) params)
                b.devices)
              r).0
            ≡ ok (some s)
          → effective_config (with_own now) params ≡ s.config
      pooled (ok client, pool) h = ap config_or (ok-injective _ _ h)
        where
          config_or : Option Started → Dict Value
          config_or none = []
          config_or (some x) = x.config
      pooled (err x, pool) h = cc
      pooled (panic, pool) h = cc

  -- Where a device has a map of its own in devices.yaml, a point set is started with the settings of
  -- that map, else of the metadata, else of the parameters of the first point set of the device that was
  -- started with this setting, whatever protocol instances the later ones name.
  pub start_all-shared_config :
      (sets : List DevicePointSetV2) (set : DevicePointSetV2) (all all' : List Started)
      (a : Acquisition P) (own params : Dict Value) (s : Started)
      → set.device_id ≡ id
      → lookup id a.devices ≡ some (with_own own)
      → params_of protocols set dev ≡ some params
      → (start_all d fl parse_duration registry protocols sets all a).0 ≡ ok all'
      → (start_device d fl parse_duration registry protocols set
          (start_all d fl parse_duration registry protocols sets all a).1).0
        ≡ ok (some s)
      → (key : String)
      → lookup key s.config
        ≡ first_of (lookup key own) (
            first_of
              (lookup key (meta_fields dev.device_meta))
              (first_of (first_in key (params_found protocols id dev sets)) (lookup key params)))
  unfolding start_device
  start_all-shared_config sets set all all' a own params s same there found started e key =
      let f = start_all-IsFilled sets all all' a own there started in
      let b = (start_all d fl parse_duration registry protocols sets all a).1 in
      ap (lookup key)
        (sym (config_of set f.now params b s (ap (λ i. lookup i b.devices) same ∙ f.there) found e))
      ∙ effective_config-lookup key (with_own f.now) params
      ∙ f.mixed key (lookup key params)
