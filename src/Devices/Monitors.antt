-- ===== src/Devices/Monitors.antt =====
-- The health monitors of the device manager only look at devices that are there.
use mathlib.Core.Path.{subst}
use Prim.Native.String
use sensor_edge.Drivers.Net.{string_at}
use text.Mathlib.Text.{◌==◌ as str_eq}
use sensor_edge.Value.{Value}
use sensor_edge.Poll.Setup.Config.{entries, DeviceConfigWithMeta}
use sensor_edge.Prelude.Dict.{
  lookup-insert_self, lookup-insert_ne, lookup-insert, insert, lookup, Dict,
}
use sensor_edge.Poll.Setup.Clients.{create, Driver}
use sensor_edge.Prelude.{
  refl, if◌then◌else◌, Option-cases, inr, ◌∙◌, ◌⊎◌, ◌≡◌, Bool-cases, inl, ◌++◌, List, Bool, String,
  some, [], ◌∷◌, true, false,
}
use sensor_edge.Go.{Outcome, ok, err, panic}
use sensor_edge.Devices.{
  written, Device, DeviceManager, new_device_manager, register_device, with_client, keep_device,
  set_healthy, check_health,
}

-- What changes the manager: a registration, and a round of a monitor whose dial had a result.
pub data Event : Type 0 where
  registered : DeviceConfigWithMeta → Event
  dialled : String → Bool → Event

abbrev pub HasDevice : {P : Type 0} → Dict (Device P) → String → Type 0
HasDevice {P = P} devices id = (dev : Device P) × (lookup id devices ≡ some dev)

-- The monitors all have a device.
abbrev pub AllThere : {P : Type 0} → Dict (Device P) → List (String × Dict Value) → Type 0
AllThere devices [] = Unit
AllThere devices ((id, config) ∷ rest) = HasDevice devices id × AllThere devices rest

-- A monitor runs for the id with the settings.
abbrev pub IsMonitored : String → Dict Value → List (String × Dict Value) → Type 0
IsMonitored id config [] = ⊥
IsMonitored id config ((i, c) ∷ rest) = ((i ≡ id) × (c ≡ config)) ⊎ IsMonitored id config rest

module _ {P : Type 0} where
  HasDevice-insert :
      (k id : String) (dev : Device P) (devices : Dict (Device P))
      → HasDevice devices id
      → HasDevice (insert k dev devices) id
  HasDevice-insert k id dev devices (old, e) = elim (Bool-cases (str_eq k id)) [
    | inl same ↦ (dev, lookup-insert k id dev devices ∙ rw same)
    | inr apart ↦ (old, lookup-insert_ne k id dev devices apart ∙ e)
  ]

  AllThere-insert :
      (k : String) (dev : Device P) (devices : Dict (Device P)) (ms : List (String × Dict Value))
      → AllThere devices ms
      → AllThere (insert k dev devices) ms
  AllThere-insert k dev devices [] h = tt
  AllThere-insert k dev devices ((id, config) ∷ rest) (h, hs) =
      (HasDevice-insert k id dev devices h, AllThere-insert k dev devices rest hs)

  AllThere-append :
      (devices : Dict (Device P)) (id : String) (config : Dict Value)
      (ms : List (String × Dict Value))
      → AllThere devices ms
      → HasDevice devices id
      → AllThere devices (ms ++ (id, config) ∷ [])
  AllThere-append devices id config [] h d = (d, tt)
  AllThere-append devices id config ((i, c) ∷ rest) (h, hs) d =
      (h, AllThere-append devices id config rest hs d)

  AllThere-IsMonitored :
      (devices : Dict (Device P)) (id : String) (config : Dict Value)
      (ms : List (String × Dict Value))
      → AllThere devices ms
      → IsMonitored id config ms
      → HasDevice devices id
  AllThere-IsMonitored devices id config [] h m = absurd m
  AllThere-IsMonitored devices id config ((i, c) ∷ rest) (h, hs) (inl (same, _)) =
      subst (HasDevice devices) same h
  AllThere-IsMonitored devices id config ((i, c) ∷ rest) (h, hs) (inr m) =
      AllThere-IsMonitored devices id config rest hs m

  -- The manager after a round; a panic ends the program, and leaves nothing to say.
  abbrev manager_or : DeviceManager P → Outcome (DeviceManager P) → DeviceManager P
  manager_or m (ok m') = m'
  manager_or m _ = m

  module _ (d : Driver P) (write : String → Value → P → P) (registry : Dict P) where
    unfoldable pub happen : List Event → DeviceManager P → DeviceManager P
    happen [] m = m
    happen (registered dev ∷ events) m = happen events (register_device d write registry dev m).1
    happen (dialled id up ∷ events) m = happen events (manager_or m (set_healthy id up m))

    keep_device-AllThere :
        (dev : DeviceConfigWithMeta) (m : DeviceManager P) (r : Outcome (Unit {0}) × P)
        → AllThere m.devices m.monitors
        → let m' = (keep_device d write registry dev m r).1 in AllThere m'.devices m'.monitors
    keep_device-AllThere dev m (err e, client) h = h
    keep_device-AllThere dev m (panic, client) h = h
    keep_device-AllThere dev m (ok x, client) h =
        let id = dev.device_meta.id in
        let made : Device P = record {
          meta = dev.device_meta;
          client = written d write registry dev.device_meta client;
          healthy = true;
        } in
        let there = AllThere-insert id made m.devices m.monitors h in
        monitored _ _ _ dev.device_meta.enable_ping there (
          AllThere-append (insert id made m.devices) id (entries dev.config) m.monitors there
            (made, lookup-insert_self id made m.devices))
      where
        monitored :
            (devices : Dict (Device P)) (ms more : List (String × Dict Value)) (b : Bool)
            → AllThere devices ms
            → AllThere devices more
            → AllThere devices (if b then more else ms)
        monitored devices ms more true h k = k
        monitored devices ms more false h k = h

    with_client-AllThere :
        (dev : DeviceConfigWithMeta) (m : DeviceManager P) (r : Outcome P)
        → AllThere m.devices m.monitors
        → let m' = (with_client d write registry dev m r).1 in AllThere m'.devices m'.monitors
    with_client-AllThere dev m (ok client) h =
        keep_device-AllThere dev m (d.initialise (entries dev.config) client) h
    with_client-AllThere dev m (err e) h = h
    with_client-AllThere dev m panic h = h

    set_healthy-AllThere :
        (id : String) (up : Bool) (m : DeviceManager P)
        → AllThere m.devices m.monitors
        → let m' = manager_or m (set_healthy id up m) in AllThere m'.devices m'.monitors
    set_healthy-AllThere id up m h = elim (Option-cases (lookup id m.devices)) [
      | inl e ↦ rw e h
      | inr (dev, e) ↦
          rw e (AllThere-insert id (record dev { healthy = up }) m.devices m.monitors h)
    ]

    happen-AllThere :
        (events : List Event) (m : DeviceManager P)
        → AllThere m.devices m.monitors
        → AllThere (happen events m).devices (happen events m).monitors
    unfolding happen register_device
    happen-AllThere [] m h = h
    happen-AllThere (registered dev ∷ events) m h =
        happen-AllThere events (register_device d write registry dev m).1
          (with_client-AllThere dev m (create dev.device_meta.protocol registry) h)
    happen-AllThere (dialled id up ∷ events) m h =
        happen-AllThere events (manager_or m (set_healthy id up m)) (set_healthy-AllThere id up m h)

    -- However many devices were registered and however many rounds of their monitors ran, a round of a
    -- monitor whose settings have a text as the ip does not panic: its device is there, with its flag set to
    -- whether the address answered.
    pub check_health-IsMonitored :
        {W : Type 0} (dial : String → W → Bool × W) (events : List Event) (id ip : String)
        (config : Dict Value) (w : W)
        → IsMonitored id config (happen events new_device_manager).monitors
        → string_at "ip" config ≡ ok ip
        → (m' : DeviceManager P) × (dev : Device P) × ((check_health dial id config
              (happen events new_device_manager)
              w).0
            ≡ ok m')
          × (lookup id m'.devices ≡ some dev)
          × (dev.healthy ≡ (dial (String.◌++◌ ip ":80") w).0)
    unfolding check_health
    check_health-IsMonitored dial events id ip config w mon text =
        let m = happen events new_device_manager in
        let (dev, e) =
          AllThere-IsMonitored m.devices id config m.monitors
            (happen-AllThere events new_device_manager tt) mon in
        let up = (dial (String.◌++◌ ip ":80") w).0 in
        let dev' : Device P = record dev { healthy = up } in
        (
          record m { devices = insert id dev' m.devices },
          dev',
          rw (text, e) refl,
          lookup-insert_self id dev' m.devices,
          refl,
        )
