-- ===== src/Bacnet/Once.antt =====
-- Every discovered device is registered and polled once.
use text.Mathlib.TextEquality.{eq_iff}
use text.Mathlib.Text.{◌==◌ as str_eq}
use sensor_edge.Bacnet.Iam.{DeviceInfo}
use sensor_edge.Prelude.Dict.{lookup-insert, insert, Dict, lookup}
use sensor_edge.Bacnet.Registry.{
  new_device, add_device, generate_points_task, device_key, start_polling_task, no_devices,
  register_and_start_polling, Device, Task, Registry, register_device,
}
use sensor_edge.Prelude.{
  sym, false, true, inr, Bool, arith, inl, ap, refl, Bool-cases, map, if◌then◌else◌, none, ◌++◌, [],
  some, ◌∙◌, ◌≡◌, ◌∷◌, Option, List, String,
}

-- A datagram that was heard, by ListenIAM with RegisterDevice, or by the other loop of main.go with
-- RegisterAndStartPolling.
pub data Heard : Type 0 where
  by_listener by_main : DeviceInfo → Heard

abbrev pub info_in : Heard → DeviceInfo
info_in (by_listener info) = info
info_in (by_main info) = info

abbrev register : Heard → Registry → Registry
register (by_listener info) r = register_device info r
register (by_main info) r = register_and_start_polling info r

unfoldable pub register_all : List Heard → Registry → Registry
register_all [] r = r
register_all (h ∷ hs) r = register_all hs (register h r)

-- The device of the first datagram with the key.
abbrev pub first_device : String → List Heard → Option Device
first_device key [] = none
first_device key (h ∷ hs) =
    if str_eq (device_key (info_in h).device_id) key
    then some (new_device (info_in h))
    else first_device key hs

abbrev pub or_else : Option Device → Option Device → Option Device
or_else (some d) later = some d
or_else none later = later

-- The keys of the devices that were given a polling goroutine.
abbrev pub polled : List Task → List String
polled [] = []
polled (start_polling_task key ∷ ts) = key ∷ polled ts
polled (generate_points_task key ∷ ts) = polled ts

abbrev pub keys : Dict Device → List String
keys = map (λ (entry : String × Device). entry.0)

polled-append : (ts us : List Task) → polled (ts ++ us) ≡ polled ts ++ polled us
polled-append [] us = refl
polled-append (start_polling_task key ∷ ts) us = ap (λ l. key ∷ l) (polled-append ts us)
polled-append (generate_points_task key ∷ ts) us = polled-append ts us

-- A new key is put at the end.
keys-insert :
    (key : String) (dev : Device) (devices : Dict Device)
    → lookup key devices ≡ none
    → keys (insert key dev devices) ≡ keys devices ++ key ∷ []
unfolding lookup insert
keys-insert key dev [] e = refl
keys-insert key dev ((k, d) ∷ devices) e = elim (Bool-cases (str_eq k key)) [
  | inl same ↦ absurd (cc (sym (ap (λ b. if b then some d else lookup key devices) same) ∙ e))
  | inr apart ↦ rw apart (
      ap (λ l. k ∷ l)
        (keys-insert key dev devices
          (sym (ap (λ b. if b then some d else lookup key devices) apart) ∙ e)))
]

-- What one registration does to the registry: the first one of a key counts.
record Registers (info : DeviceInfo) (r r' : Registry) : Type 0 where
  found :
      (key : String)
      → lookup key r'.devices
        ≡ or_else
            (lookup key r.devices)
            (if str_eq (device_key info.device_id) key then some (new_device info) else none)
  once : polled r.tasks ≡ keys r.devices → polled r'.tasks ≡ keys r'.devices

add_device-Registers :
    (tasks : List Task) (info : DeviceInfo) (r : Registry) (o : Option Device)
    → polled tasks ≡ device_key info.device_id ∷ []
    → lookup (device_key info.device_id) r.devices ≡ o
    → Registers info r (add_device tasks info r o)
add_device-Registers tasks info r (some dev) p e = record { found = same; once = λ h. h }
  where
    same :
        (key : String)
        → lookup key r.devices
          ≡ or_else
              (lookup key r.devices)
              (if str_eq (device_key info.device_id) key then some (new_device info) else none)
    same key = ground (arith, eq_iff (device_key info.device_id) key)
add_device-Registers tasks info r none p e = record {
  found = λ key. ground (
    arith,
    lookup-insert (device_key info.device_id) key (new_device info) r.devices,
    eq_iff (device_key info.device_id) key,
  );
  once = λ h.
      polled-append r.tasks tasks
      ∙ ap (λ l. polled r.tasks ++ l) p
      ∙ ap (λ l. l ++ device_key info.device_id ∷ []) h
      ∙ sym (keys-insert (device_key info.device_id) (new_device info) r.devices e);
}

register-Registers : (h : Heard) (r : Registry) → Registers (info_in h) r (register h r)
unfolding register_device register_and_start_polling
register-Registers (by_listener info) r = add_device-Registers _ info r _ refl refl
register-Registers (by_main info) r = add_device-Registers _ info r _ refl refl

first_device-cons :
    (key : String) (h : Heard) (hs : List Heard) (known : Option Device)
    → or_else
        (or_else known (
          if str_eq (device_key (info_in h).device_id) key
          then some (new_device (info_in h))
          else none))
        (first_device key hs)
      ≡ or_else known (first_device key (h ∷ hs))
first_device-cons key h hs (some d) = refl
first_device-cons key h hs none = choose (str_eq (device_key (info_in h).device_id) key)
  where
    choose :
        (b : Bool)
        → or_else (if b then some (new_device (info_in h)) else none) (first_device key hs)
          ≡ (if b then some (new_device (info_in h)) else first_device key hs)
    choose true = refl
    choose false = refl

register_all-lookup :
    (key : String) (hs : List Heard) (r : Registry)
    → lookup key (register_all hs r).devices ≡ or_else (lookup key r.devices) (first_device key hs)
unfolding register_all
register_all-lookup key [] r = or_none (lookup key r.devices)
  where
    or_none : (o : Option Device) → o ≡ or_else o none
    or_none none = refl
    or_none (some d) = refl
register_all-lookup key (h ∷ hs) r =
    register_all-lookup key hs (register h r)
    ∙ ap (λ o. or_else o (first_device key hs)) ((register-Registers h r).found key)
    ∙ first_device-cons key h hs (lookup key r.devices)

register_all-polled :
    (hs : List Heard) (r : Registry)
    → polled r.tasks ≡ keys r.devices
    → polled (register_all hs r).tasks ≡ keys (register_all hs r).devices
unfolding register_all
register_all-polled [] r h = h
register_all-polled (x ∷ hs) r h =
    register_all-polled hs (register x r) ((register-Registers x r).once h)

-- However often devices are heard, and by whichever loop, a key stands for the device of the first
-- datagram with it, as it was registered, and the polling goroutines that were started are one for each
-- key, in the order of the registrations.
pub register_all-first_device :
    (hs : List Heard) (key : String)
    → let r = register_all hs no_devices in
      (lookup key r.devices ≡ first_device key hs) × (polled r.tasks ≡ keys r.devices)
register_all-first_device hs key = (
  register_all-lookup key hs no_devices ∙ unfold lookup in refl,
  register_all-polled hs no_devices refl,
)
