-- ===== src/Poll/Main/Starts.antt =====
-- When main gets to its goroutines, and which they are.
use sensor_edge.Poll.Main.Sets.{Goes, start_all-Goes}
use sensor_edge.Uplink.Manager.{Uplink, Channels}
use sensor_edge.Bacnet.Sockets.{Udp}
use sensor_edge.Loaders.{Decoders, Loaded}
use mathlib.Core.Path.{subst}
use sensor_edge.Poll.Main.Launched.{Launched}
use sensor_edge.Poll.Setup.Config.{DeviceConfigWithMeta}
use sensor_edge.Value.{Value}
use sensor_edge.Prelude.Dict.{lookup, Dict}
use sensor_edge.Floats.{Floats}
use sensor_edge.Poll.Points.{DevicePointSetV2}
use sensor_edge.Prelude.{
  ◌⊎◌, inl, inr, ap, false, map, refl, ◌≢◌, none, ◌≡◌, ℤ, [], some, Option, String, ℕ, List,
}
use sensor_edge.Go.{◌>>=◌, panic, err, ok, Outcome}
use sensor_edge.Bacnet.Sockets.{discover_devices_real}
use sensor_edge.Poll.Setup.Devices.{device_map}
use sensor_edge.Uplink.Manager.{new_uplink_manager_from_config}
use sensor_edge.Poll.Main.{
  load_uplinks, with_discovered, main_start, must, Program, program_of, start_with, load_protocols,
  load_devices, load_point_sets, new_loop,
}
use sensor_edge.Poll.Setup.Start.{Started, Acquisition}
use sensor_edge.Poll.Setup.Clients.{Driver}

-- The goroutines are those of the point sets that are not left out, and have not taken a step.
pub record IsNew {P W : Type 0} (d : Driver P) (registry : Dict P)
    (protocols : Dict (List (Dict Value))) (devices : Dict DeviceConfigWithMeta)
    (sets : List DevicePointSetV2) (prog : Program P W) : Type 0 where
  pub started : List Started
  pub are_loops : prog.system.loops ≡ map new_loop started
  pub of_sets : Launched d registry protocols devices sets started
  pub nothing_sent : prog.system.shared.sent ≡ []
  pub running : prog.system.crashed ≡ false

module _ {P W : Type 0} (read_file : String → Loaded (List ℕ)) (decode : Decoders)
    (decode_protocols : List ℕ → Loaded (Dict (List (Dict Value)))) (udp : Udp W) (lib : Channels W)
    (d : Driver P) (fl : Floats) (parse_duration : String → Option ℤ) (registry : Dict P) where
  abbrev pub main_at : W → Outcome (Program P W)
  main_at = main_start read_file decode decode_protocols udp lib d fl parse_duration registry

  abbrev pub protocols_loaded : Loaded (Dict (List (Dict Value)))
  protocols_loaded =
      load_protocols read_file decode decode_protocols udp lib d fl parse_duration registry

  abbrev pub devices_loaded : Loaded (List DeviceConfigWithMeta)
  devices_loaded =
      load_devices read_file decode decode_protocols udp lib d fl parse_duration registry

  abbrev pub sets_loaded : List DevicePointSetV2
  sets_loaded =
      load_point_sets read_file decode decode_protocols udp lib d fl parse_duration registry

  -- The devices of devices.yaml, and those that the discovery found.
  abbrev pub devices_at : List DeviceConfigWithMeta → W → Dict DeviceConfigWithMeta
  devices_at devs w =
      let ups =
        load_uplinks read_file decode decode_protocols udp lib d fl parse_duration registry in
      let (found, w') = discover_devices_real udp (new_uplink_manager_from_config lib ups w).1 in
      with_discovered found (device_map devs [])

  abbrev pub NewAt : Dict (List (Dict Value)) → List DeviceConfigWithMeta → W → Program P W → Type 0
  NewAt protocols devs w = IsNew d registry protocols (devices_at devs w) sets_loaded

  program_of-Goes :
      (C : Type 0) (protocols : Dict (List (Dict Value))) (devs : List DeviceConfigWithMeta) (v : W)
      (ups : List Uplink) (w : W) (r : Outcome (List Started) × Acquisition P)
      → Goes C
          (λ all.
            (ss : List Started) × (all ≡ ss)
            × Launched d registry protocols (devices_at devs v) sets_loaded ss)
          r.0
      → Goes C (NewAt protocols devs v) (
          program_of read_file decode decode_protocols udp lib d fl parse_duration registry ups w r)
  program_of-Goes C protocols devs v ups w (ok started, a) (ss, e, h) = record {
    started = ss;
    are_loops = ap (map new_loop) e;
    of_sets = h;
    nothing_sent = refl;
    running = refl;
  }
  program_of-Goes C protocols devs v ups w (err e, a) h = h
  program_of-Goes C protocols devs v ups w (panic, a) h = h

  same_map :
      (devices : Dict DeviceConfigWithMeta) (id : String)
      → ((lookup id devices ≡ none) × (lookup id devices ≡ none))
        ⊎ ((dev : DeviceConfigWithMeta) × (own : Option (Dict Value)) × (lookup id devices
              ≡ some (record dev { config = own }))
            × (lookup id devices ≡ some dev))
  same_map devices id = by_entry (lookup id devices) refl
    where
      by_entry :
          (o : Option DeviceConfigWithMeta)
          → lookup id devices ≡ o
          → ((lookup id devices ≡ none) × (lookup id devices ≡ none))
            ⊎ ((dev : DeviceConfigWithMeta) × (own : Option (Dict Value)) × (lookup id devices
                  ≡ some (record dev { config = own }))
                × (lookup id devices ≡ some dev))
      by_entry none e = inl (e, e)
      by_entry (some dev) e = inr (dev, dev.config, e, e)

  pub main_start-Goes :
      (C : Type 0) (w : W)
      → ((config : Dict Value) (p : P) → (d.initialise config p).0 ≡ panic → C)
      → (must protocols_loaded ≡ panic → C)
      → (must devices_loaded ≡ panic → C)
      → Goes C (NewAt protocols_loaded.0 devices_loaded.0 w) (main_at w)
  unfolding main_start
  main_start-Goes C w case no_protocols no_devices = with_protocols protocols_loaded no_protocols
    where
      with_devices :
          (protocols : Dict (List (Dict Value))) (l : Loaded (List DeviceConfigWithMeta))
          → (must l ≡ panic → C)
          → Goes C (NewAt protocols l.0 w) (
              must l >>= λ devs.
              start_with read_file decode decode_protocols udp lib d fl parse_duration registry
                protocols devs w)
      with_devices protocols (devs, none) k = program_of-Goes C protocols devs w _ _ _ (
          start_all-Goes d fl parse_duration registry C case protocols (devices_at devs w)
            sets_loaded [] _ (same_map (devices_at devs w)))
      with_devices protocols (devs, some e) k = k refl

      with_protocols :
          (l : Loaded (Dict (List (Dict Value))))
          → (must l ≡ panic → C)
          → Goes C (NewAt l.0 devices_loaded.0 w) (
              must l >>= λ protocols. must devices_loaded >>= λ devs.
              start_with read_file decode decode_protocols udp lib d fl parse_duration registry
                protocols devs w)
      with_protocols (protocols, none) k = with_devices protocols devices_loaded no_devices
      with_protocols (protocols, some e) k = k refl

  -- What main does, by what loading protocols.yaml and devices.yaml gave.
  abbrev pub IsLaunched :
      W
      → Loaded (Dict (List (Dict Value)))
      → Loaded (List DeviceConfigWithMeta)
      → Outcome (Program P W)
      → Type 0
  IsLaunched w (protocols, none) (devs, none) r = Goes ⊥ (NewAt protocols devs w) r
  IsLaunched w (protocols, none) (devs, some e) r = r ≡ panic
  IsLaunched w (protocols, some e) m r = r ≡ panic

  -- Where no driver's Init panics, main, without its two BACnet listeners, panics if protocols.yaml or
  -- devices.yaml cannot be loaded, and otherwise it starts: no error of another file, of a device, of an
  -- uplink or of the discovery stops it. Then the goroutines are, in the order of points.yaml, one for
  -- each point set but those that are left out: no device of devices.yaml or of the discovery has the
  -- set's id, no instance of the protocol has the name, there is no such protocol, or an Init of the
  -- protocol's client gave an error.
  pub main_start-IsLaunched :
      ((config : Dict Value) (p : P) → (d.initialise config p).0 ≢ panic)
      → (w : W) → IsLaunched w protocols_loaded devices_loaded (main_at w)
  unfolding main_start
  main_start-IsLaunched quiet w = by_files protocols_loaded devices_loaded refl refl
    where
      at :
          Loaded (Dict (List (Dict Value)))
          → Loaded (List DeviceConfigWithMeta)
          → Outcome (Program P W)
      at l m = must l >>= λ protocols. must m >>= λ devs.
          start_with read_file decode decode_protocols udp lib d fl parse_duration registry
            protocols devs w

      by_files :
          (l : Loaded (Dict (List (Dict Value)))) (m : Loaded (List DeviceConfigWithMeta))
          → protocols_loaded ≡ l
          → devices_loaded ≡ m
          → IsLaunched w l m (at l m)
      by_files (protocols, none) (devs, none) e f =
          subst
            (λ (z : Loaded (Dict (List (Dict Value))) × Loaded (List DeviceConfigWithMeta)).
              Goes ⊥ (NewAt z.0.0 z.1.0 w) (at z.0 z.1))
            (λ i. (e i, f i))
            (main_start-Goes ⊥ w quiet (λ p. cc (ap must e)) (λ p. cc (ap must f)))
      by_files (protocols, none) (devs, some x) e f = refl
      by_files (protocols, some x) m e f = refl
