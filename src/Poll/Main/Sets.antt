-- ===== src/Poll/Main/Sets.antt =====
-- The start of the acquisition for all point sets, one after the other.
use mathlib.Core.Path.{subst}
use mathlib.Core.List.{append_assoc, append-nil}
use text.Mathlib.Text.{◌==◌ as str_eq}
use text.Mathlib.TextEquality.{eq_iff}
use Prim.Native.String
use sensor_edge.Poll.Main.Launched.{IsRefused, IsLeftOut, Launched, no_sets, launched, left_out}
use sensor_edge.Poll.Setup.Config.{effective_config, DeviceConfigWithMeta}
use sensor_edge.Value.{Value}
use sensor_edge.Prelude.Dict.{lookup, lookup-insert, lookup-insert_ne, Dict}
use sensor_edge.Floats.{Floats}
use sensor_edge.Poll.Points.{DevicePointSetV2}
use sensor_edge.Prelude.{
  ◌∙◌, ◌⊎◌, inl, inr, Bool-cases, ap, sym, arith, refl, ◌≢◌, none, ◌≡◌, ℤ, [], some, Option, ◌++◌,
  String, ℕ, ◌∷◌, List,
}
use sensor_edge.Go.{msg, Error, panic, err, ok, Outcome}
use sensor_edge.Poll.Setup.Start.{
  then_start, params_of, with_device, fill_config, protocol_of, with_params, with_pooled, start_all,
  start_device, Started, Acquisition,
}
use sensor_edge.Poll.Setup.Clients.{
  Driver, ClientPool, get_or_create_client, found_or_new, new_client, keep_client, create, cached,
  ClientKey, client_key,
}

-- A result that is no error, and that panics only in the case C.
abbrev pub Goes : {A : Type 0} → Type 0 → (A → Type 0) → Outcome A → Type 0
Goes C Q (ok a) = Q a
Goes C Q (err e) = ⊥
Goes C Q panic = C

module _ {P : Type 0} (d : Driver P) (fl : Floats) (parse_duration : String → Option ℤ)
    (registry : Dict P) (C : Type 0)
    (case : (config : Dict Value) (p : P) → (d.initialise config p).0 ≡ panic → C) where
  keep_client-case :
      (key : ClientKey) (pool : ClientPool P) (r : Outcome (Unit {0}) × P)
      → (r.0 ≡ panic → C)
      → (keep_client d fl registry key pool r).0 ≡ panic
      → C
  keep_client-case key pool (ok x, p) h e = cc
  keep_client-case key pool (err x, p) h e = cc
  keep_client-case key pool (panic, p) h e = h refl

  new_client-case :
      (key : ClientKey) (config : Dict Value) (pool : ClientPool P) (r : Outcome P)
      → r ≢ panic
      → (new_client d fl registry key config pool r).0 ≡ panic
      → C
  new_client-case key config pool (ok p) h =
      keep_client-case key pool (d.initialise config p) (case config p)
  new_client-case key config pool (err e) h = λ p. cc
  new_client-case key config pool panic h = absurd (h refl)

  create-ne-panic : (name : String) → create name registry ≢ panic
  unfolding create
  create-ne-panic name = ground arith

  found_or_new-case :
      (protocol : String) (config : Dict Value) (pool : ClientPool P) (o : Option ℕ)
      → (found_or_new d fl registry protocol config pool o).0 ≡ panic
      → C
  found_or_new-case protocol config pool (some client) = λ e. cc
  found_or_new-case protocol config pool none =
      new_client-case (client_key fl protocol config) config pool (create protocol registry)
        (create-ne-panic protocol)

  keep_client-IsRefused :
      (key : ClientKey) (protocol : String) (p : P) (config : Dict Value) (pool : ClientPool P)
      (r : Outcome (Unit {0}) × P) (e : Error)
      → lookup protocol registry ≡ some p
      → d.initialise config p ≡ r
      → (keep_client d fl registry key pool r).0 ≡ err e
      → IsRefused d registry protocol
  keep_client-IsRefused key protocol p config pool (ok x, q) e here init_ h = cc
  keep_client-IsRefused key protocol p config pool (err x, q) e here init_ h =
      inr (p, config, x, here, ap (λ r. r.0) init_)
  keep_client-IsRefused key protocol p config pool (panic, q) e here init_ h = cc

  found_or_new-IsRefused :
      (protocol : String) (config : Dict Value) (pool : ClientPool P) (o : Option ℕ) (e : Error)
      → (found_or_new d fl registry protocol config pool o).0 ≡ err e
      → IsRefused d registry protocol
  unfolding create
  found_or_new-IsRefused protocol config pool (some client) e h = cc
  found_or_new-IsRefused protocol config pool none e h = by_name (lookup protocol registry) refl h
    where
      by_name :
          (o : Option P)
          → lookup protocol registry ≡ o
          → (new_client d fl registry
              (client_key fl protocol config)
              config
              pool
              (elim o as (λ _. Outcome P) [
                | none ↦ err (msg (String.◌++◌ "unknown protocol: " protocol))
                | some client ↦ ok client
              ])).0
            ≡ err e
          → IsRefused d registry protocol
      by_name none here k = inl here
      by_name (some p) here k =
          keep_client-IsRefused (client_key fl protocol config) protocol p config pool
            (d.initialise config p) e here refl k

  module _ (protocols : Dict (List (Dict Value))) (devices : Dict DeviceConfigWithMeta) where
    abbrev OfSet : DevicePointSetV2 → Option Started → Type 0
    OfSet set none = IsLeftOut d registry protocols devices set
    OfSet set (some s) = s.set ≡ set

    -- The devices are still the same, but for what was filled into their configurations.
    abbrev pub IsSameMap : Dict DeviceConfigWithMeta → Type 0
    IsSameMap now =
        (id : String)
        → ((lookup id now ≡ none) × (lookup id devices ≡ none))
          ⊎ ((dev : DeviceConfigWithMeta) × (own : Option (Dict Value)) × (lookup id now
                ≡ some (record dev { config = own }))
              × (lookup id devices ≡ some dev))

    fill_config-IsSameMap :
        (id : String) (dev : DeviceConfigWithMeta) (own : Option (Dict Value)) (config : Dict Value)
        (now : Dict DeviceConfigWithMeta)
        → lookup id devices ≡ some dev
        → IsSameMap now
        → IsSameMap (fill_config id (record dev { config = own }) config now)
    fill_config-IsSameMap id dev none config now here same other = same other
    fill_config-IsSameMap id dev (some own) config now here same other =
        elim (Bool-cases (str_eq id other)) [
          | inl e ↦ inr (
            dev,
            some config,
            lookup-insert id other _ now ∙ rw e refl,
            ap (λ k. lookup k devices) (sym ((eq_iff id other).0 e)) ∙ here,
          )
          | inr e ↦ elim (same other) [
            | inl (a, b) ↦ inl (lookup-insert_ne id other _ now e ∙ a, b)
            | inr (dev', own', a, b) ↦ inr (dev', own', lookup-insert_ne id other _ now e ∙ a, b)
          ]
        ]

    -- What is known after a point set, or after some.
    abbrev IsDone : {A : Type 0} → (A → Type 0) → Outcome A × Acquisition P → Type 0
    IsDone Q r = Goes C Q r.0 × IsSameMap r.1.devices

    with_pooled-IsDone :
        (set : DevicePointSetV2) (config : Dict Value) (now : Dict DeviceConfigWithMeta)
        (r : Outcome ℕ × ClientPool P)
        → (r.0 ≡ panic → C)
        → ((e : Error) → r.0 ≡ err e → IsLeftOut d registry protocols devices set)
        → IsSameMap now
        → IsDone (OfSet set) (with_pooled d fl parse_duration registry set config now r)
    with_pooled-IsDone set config now (ok client, pool) h k same = (refl, same)
    with_pooled-IsDone set config now (err e, pool) h k same = (k e refl, same)
    with_pooled-IsDone set config now (panic, pool) h k same = (h refl, same)

    start_device-IsDone :
        (set : DevicePointSetV2) (a : Acquisition P)
        → IsSameMap a.devices
        → IsDone (OfSet set) (start_device d fl parse_duration registry protocols set a)
    unfolding start_device get_or_create_client
    start_device-IsDone set a same = elim (same set.device_id) [
      | inl (absent, never) ↦
          subst
            (λ o. IsDone (OfSet set) (with_device d fl parse_duration registry protocols set o a))
            (sym absent) (inl never, same)
      | inr (dev, own, here, known) ↦
          subst
            (λ o. IsDone (OfSet set) (with_device d fl parse_duration registry protocols set o a))
            (sym here) (with_parameters dev own known (params_of protocols set dev) refl)
    ]
      where
        with_parameters :
            (dev : DeviceConfigWithMeta) (own : Option (Dict Value))
            → lookup set.device_id devices ≡ some dev
            → (o : Option (Dict Value)) → params_of protocols set dev ≡ o
            → IsDone (OfSet set) (
                with_params d fl parse_duration registry set
                  (record dev { config = own })
                  (protocol_of set dev)
                  o
                  a)
        with_parameters dev own known none e = (inr (dev, known, inl e), same)
        with_parameters dev own known (some params) e =
            let config = effective_config (record dev { config = own }) params in
            let found = cached (client_key fl (protocol_of set dev) config) a.pool.cache in
            with_pooled-IsDone set config
              (fill_config set.device_id (record dev { config = own }) config a.devices)
              (get_or_create_client d fl registry (protocol_of set dev) config a.pool)
              (found_or_new-case (protocol_of set dev) config a.pool found)
              (λ x k. inr (
                dev,
                known,
                inr (found_or_new-IsRefused (protocol_of set dev) config a.pool found x k),
              ))
              (fill_config-IsSameMap set.device_id dev own config a.devices known same)

    -- The goroutines that were started are those from before and those of the point sets.
    abbrev pub AreMore : List DevicePointSetV2 → List Started → List Started → Type 0
    AreMore sets all all' =
        (ss : List Started) × (all' ≡ all ++ ss) × Launched d registry protocols devices sets ss

    pub start_all-Goes :
        (sets : List DevicePointSetV2) (all : List Started) (a : Acquisition P)
        → IsSameMap a.devices
        → Goes C (AreMore sets all) (start_all d fl parse_duration registry protocols sets all a).0
    unfolding start_all
    start_all-Goes [] all a same = ([], sym (append-nil all), no_sets)
    start_all-Goes (set ∷ sets) all a same =
        then_ (start_device d fl parse_duration registry protocols set a)
          (start_device-IsDone set a same) (λ all' b k. start_all-Goes sets all' b k)
      where
        grown :
            (b : Outcome (List Started)) (s : Started)
            → s.set ≡ set
            → Goes C (AreMore sets (all ++ s ∷ [])) b
            → Goes C (AreMore (set ∷ sets) all) b
        grown (ok all') s own (ss, e, more) =
            (s ∷ ss, e ∙ append_assoc all (s ∷ []) ss, launched own more)
        grown (err e) s own h = h
        grown panic s own h = h

        skipped :
            (b : Outcome (List Started))
            → IsLeftOut d registry protocols devices set
            → Goes C (AreMore sets all) b
            → Goes C (AreMore (set ∷ sets) all) b
        skipped (ok all') out (ss, e, more) = (ss, e, left_out out more)
        skipped (err e) out h = h
        skipped panic out h = h

        then_ :
            (r : Outcome (Option Started) × Acquisition P)
            → IsDone (OfSet set) r
            → ((all' : List Started) (b : Acquisition P)
                → IsSameMap b.devices
                → Goes C
                    (AreMore sets all')
                    (start_all d fl parse_duration registry protocols sets all' b).0)
            → Goes C
                (AreMore (set ∷ sets) all)
                (then_start d fl parse_duration registry
                  (start_all d fl parse_duration registry protocols sets)
                  all
                  r).0
        then_ (ok none, b) (out, k) others = skipped _ out (others all b k)
        then_ (ok (some s), b) (own, k) others = grown _ s own (others (all ++ s ∷ []) b k)
        then_ (err e, b) (h, k) others = absurd h
        then_ (panic, b) (h, k) others = h
