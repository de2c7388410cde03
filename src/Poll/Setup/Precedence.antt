-- ===== src/Poll/Setup/Precedence.antt =====
-- Which source a setting of a device comes from.
use sensor_edge.Poll.Setup.Clients.{slave_or_one, client_key}
use sensor_edge.Poll.Setup.Config.{
  entries, meta_fields, inject_device_meta, put_all_missing, DeviceConfigWithMeta, effective_config,
  put_missing,
}
use sensor_edge.Floats.{Floats}
use text.Mathlib.TextEquality.{eq_iff}
use text.Mathlib.Text.{◌==◌ as str_eq}
use sensor_edge.Prelude.Dict.{lookup-insert, lookup, Dict}
use sensor_edge.Value.{int, string, Value}
use sensor_edge.Prelude.{
  [], ◌∷◌, ap, sym, ◌∙◌, false, true, Bool, refl, arith, if◌then◌else◌, ◌≡◌, none, some, String,
  Option,
}

abbrev pub first_of : Option Value → Option Value → Option Value
first_of (some v) later = some v
first_of none later = later

lookup-put_missing :
    (key other : String) (v : Value) (config : Dict Value)
    → lookup other (put_missing key v config)
      ≡ first_of (lookup other config) (if str_eq key other then some v else none)
unfolding put_missing
lookup-put_missing key other v config =
    ground (arith, lookup-insert key other v config, eq_iff key other)

pub first_of_assoc : (a b c : Option Value) → first_of (first_of a b) c ≡ first_of a (first_of b c)
first_of_assoc none b c = refl
first_of_assoc (some v) b c = refl

first_entry :
    (same : Bool) (v : Value) (later : Option Value)
    → first_of (if same then some v else none) later ≡ (if same then some v else later)
first_entry true v later = refl
first_entry false v later = refl

lookup-put_all_missing :
    (key : String) (more config : Dict Value)
    → lookup key (put_all_missing more config) ≡ first_of (lookup key config) (lookup key more)
unfolding put_all_missing lookup
lookup-put_all_missing key [] config = or_none (lookup key config)
  where
    or_none : (o : Option Value) → o ≡ first_of o none
    or_none none = refl
    or_none (some x) = refl
lookup-put_all_missing key ((k, v) ∷ more) config =
    lookup-put_all_missing key more (put_missing k v config)
    ∙ ap (λ o. first_of o (lookup key more)) (lookup-put_missing k key v config)
    ∙ first_of_assoc (lookup key config) (if str_eq k key then some v else none) (lookup key more)
    ∙ ap (first_of (lookup key config)) (first_entry (str_eq k key) v (lookup key more))

-- A setting comes from the device's own config if it has it, else from the device's metadata, else
-- from the parameters of the protocol instance.
pub effective_config-lookup :
    (key : String) (dev : DeviceConfigWithMeta) (params : Dict Value)
    → lookup key (effective_config dev params)
      ≡ first_of
          (lookup key (entries dev.config))
          (first_of (lookup key (meta_fields dev.device_meta)) (lookup key params))
unfolding effective_config inject_device_meta
effective_config-lookup key dev params =
    lookup-put_all_missing key params
      (put_all_missing (meta_fields dev.device_meta) (entries dev.config))
    ∙ ap (λ o. first_of o (lookup key params))
        (lookup-put_all_missing key (meta_fields dev.device_meta) (entries dev.config))
    ∙ first_of_assoc (lookup key (entries dev.config)) (lookup key (meta_fields dev.device_meta))
        (lookup key params)

shadowed :
    (own meta params params' : Option Value) (v : Value)
    → meta ≡ some v
    → first_of own (first_of meta params) ≡ first_of own (first_of meta params')
shadowed own none params params' v e = cc
shadowed own (some w) params params' v e = refl

-- The address, the port and the slave id of a device never come from the parameters of its protocol
-- instance: two that differ in any way give the same client key and the same initial slave.
pub client_key-effective_config :
    (fl : Floats) (protocol : String) (dev : DeviceConfigWithMeta) (params params' : Dict Value)
    → (client_key fl protocol (effective_config dev params)
        ≡ client_key fl protocol (effective_config dev params'))
      × (slave_or_one fl (lookup "slave_id" (effective_config dev params))
          ≡ slave_or_one fl (lookup "slave_id" (effective_config dev params')))
client_key-effective_config fl protocol dev params params' =
    let ip = same_setting "ip" (string dev.device_meta.ip) (unfold lookup in refl) in
    let port = same_setting "port" (int dev.device_meta.port) (unfold lookup in refl) in
    (
      rw (ip, port) refl,
      ap (slave_or_one fl)
          (same_setting "slave_id" (int dev.device_meta.slave_id) (unfold lookup in refl)),
    )
  where
    same_setting :
        (key : String) (v : Value)
        → lookup key (meta_fields dev.device_meta) ≡ some v
        → lookup key (effective_config dev params) ≡ lookup key (effective_config dev params')
    same_setting key v e =
        effective_config-lookup key dev params
        ∙ shadowed (lookup key (entries dev.config)) (lookup key (meta_fields dev.device_meta))
            (lookup key params) (lookup key params') v e
        ∙ sym (effective_config-lookup key dev params')
