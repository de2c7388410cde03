-- ===== src/Poll/Setup/Config.antt =====
-- main.go and types/device.go: the configuration of a device out of its own settings, its metadata and
-- the parameters of its protocol instance.
use text.Mathlib.Text.{◌==◌ as str_eq}
use sensor_edge.Prelude.Dict.{lookup, insert, Dict}
use sensor_edge.Prelude.{[], false, none, if◌then◌else◌, some, ℤ, ◌∷◌, List, String, Option, Bool}
use sensor_edge.Value.{Value, string, int, bool}

-- types.DeviceMeta
pub record DeviceMeta : Type 0 where
  pub id : String
  pub name : String
  pub description : String
  pub protocol : String
  pub protocol_name : String
  pub interval : String
  pub enable_ping : Bool
  pub ip : String
  pub port : ℤ
  pub slave_id : ℤ

-- types.DeviceConfigWithMeta; a nil Config is `none`.
pub record DeviceConfigWithMeta : Type 0 where
  pub device_meta : DeviceMeta
  pub config : Option (Dict Value)

-- What reading a map finds: a nil one has no entries.
abbrev pub entries : Option (Dict Value) → Dict Value
entries none = []
entries (some config) = config

-- The fields of DeviceMeta under their yaml tags, which are what reflection finds.
abbrev pub meta_fields : DeviceMeta → Dict Value
meta_fields meta =
    ("id", string meta.id)
    ∷ ("name", string meta.name)
    ∷ ("description", string meta.description)
    ∷ ("protocol", string meta.protocol)
    ∷ ("protocol_name", string meta.protocol_name)
    ∷ ("interval", string meta.interval)
    ∷ ("enable_ping", bool meta.enable_ping)
    ∷ ("ip", string meta.ip)
    ∷ ("port", int meta.port)
    ∷ ("slave_id", int meta.slave_id)
    ∷ []

-- `if _, exists := config[key]; !exists { config[key] = v }`
unfoldable pub put_missing : String → Value → Dict Value → Dict Value
put_missing key v config = elim (lookup key config) [
  | none ↦ insert key v config
  | some old ↦ config
]

unfoldable pub put_all_missing : Dict Value → Dict Value → Dict Value
put_all_missing [] config = config
put_all_missing ((key, v) ∷ rest) config = put_all_missing rest (put_missing key v config)

unfoldable pub inject_device_meta : DeviceConfigWithMeta → DeviceMeta → DeviceConfigWithMeta
inject_device_meta dev meta = record dev {
  config = some (put_all_missing (meta_fields meta) (entries dev.config));
}

-- The metadata first, then the parameters of the protocol instance.
unfoldable pub effective_config : DeviceConfigWithMeta → Dict Value → Dict Value
effective_config dev params =
    put_all_missing params (entries (inject_device_meta dev dev.device_meta).config)

-- name, ok := p["name"].(string); ok && name == protocolName
abbrev is_named : String → Option Value → Bool
is_named name (some (string s)) = str_eq s name
is_named name _ = false

unfoldable pub find_params : String → List (Dict Value) → Option (Dict Value)
find_params name [] = none
find_params name (p ∷ ps) = if is_named name (lookup "name" p) then some p else find_params name ps

abbrev pub or_default : String → String → String
or_default set_value device_value = if str_eq set_value "" then device_value else set_value
