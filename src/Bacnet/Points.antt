-- ===== src/Bacnet/Points.antt =====
-- protocols/bacnet/type.go and bacnet.go: a point of the BACnet client, and how Init reads one from
-- the configuration.
use sensor_edge.Prelude.Int.{leb_ℤ}
use text.Mathlib.Text.{◌==◌ as str_eq}
use sensor_edge.Prelude.Dict.{lookup, Dict}
use sensor_edge.Value.{float64, bool, int, nil, string, Value}
use sensor_edge.Floats.{Floats}
use sensor_edge.Prelude.{◌&&◌, false, none, some, ◌||◌, ℤ, Bool, String, pos, Option, if◌then◌else◌}
use sensor_edge.Go.{msg, err, ok, Outcome}
use Prim.Native.String
use sensor_edge.Go.Show.{Printer, sprint, sprint_s}

-- PropertyValueType, in the order of its codes 0 to 12.
pub data PropertyValueType : Type 0 where
  type_null type_boolean type_unsigned_int type_signed_int type_real type_double : PropertyValueType
  type_octet_string type_character_string type_bit_string type_enumerated : PropertyValueType
  type_date type_time type_object_id : PropertyValueType

pub record BacnetPoint : Type 0 where
  pub id : String
  pub object_type : String
  pub instance_number : ℤ
  pub description : String
  pub access : String
  pub name : String
  pub address : String
  pub kind : String  -- Type
  pub format : String
  pub unit : String
  pub value : Value
  pub property : String
  pub property_value_type : PropertyValueType
  pub writable : Bool
  pub transform : String

-- BacnetPoint{}, which a map gives where it has no entry
abbrev pub zero_point : BacnetPoint
zero_point = record {
  id = "";
  object_type = "";
  instance_number = pos 0;
  description = "";
  access = "";
  name = "";
  address = "";
  kind = "";
  format = "";
  unit = "";
  value = nil;
  property = "";
  property_value_type = type_null;
  writable = false;
  transform = "";
}

-- m[key], nil where it is missing
abbrev pub field : String → Dict Value → Value
field key m = elim (lookup key m) [ none ↦ nil | some v ↦ v ]

abbrev value_type_named : String → PropertyValueType
value_type_named s =
    if str_eq s "REAL"
    then type_real
    else if str_eq s "INTEGER"
    then type_signed_int
    else if str_eq s "BOOLEAN"
    then type_boolean
    else if str_eq s "ENUMERATED"
    then type_enumerated
    else if str_eq s "CHARACTERSTRING"
    then type_character_string
    else if str_eq s "OCTETSTRING"
    then type_octet_string
    else if str_eq s "BITSTRING"
    then type_bit_string
    else if str_eq s "OBJECTID"
    then type_object_id
    else type_null

abbrev value_type_of : Value → PropertyValueType
value_type_of (string s) = value_type_named s
value_type_of _ = type_null

abbrev bool_or_false : Value → Bool
bool_or_false (bool b) = b
bool_or_false _ = false

-- fmt.Sscanf(addr, "%[^:]:%d", &objType, &inst): Go's fmt has no verb %[, so that the scan of the
-- first operand fails whatever the text is.
abbrev sscanf_set : String → Outcome (String × ℤ)
sscanf_set addr = err (msg "bad verb '%[' for string")

abbrev no_error : Outcome (String × ℤ) → Option (String × ℤ)
no_error (ok r) = some r
no_error _ = none

unfoldable pub parse_address_fields : String → Option (String × ℤ)
parse_address_fields addr = if str_eq addr "" then none else no_error (sscanf_set addr)

abbrev fill : BacnetPoint → Option (String × ℤ) → BacnetPoint
fill pt none = pt
fill pt (some (type_name, number)) = record pt {
  object_type = if str_eq pt.object_type "" then type_name else pt.object_type;
  instance_number =
      if leb_ℤ pt.instance_number (pos 0) && leb_ℤ (pos 0) pt.instance_number
      then number
      else pt.instance_number;
}

-- `if pt.ObjectType == "" || pt.Instance == 0 { … }`
unfoldable pub fill_from_address : BacnetPoint → BacnetPoint
fill_from_address pt =
    if str_eq pt.object_type ""
      || (leb_ℤ pt.instance_number (pos 0) && leb_ℤ (pos 0) pt.instance_number)
    then fill pt (parse_address_fields pt.address)
    else pt

module _ (pr : Printer) (fl : Floats) where
  -- `if v, ok := m[key]; ok { … = fmt.Sprintf("%v", v) }`
  abbrev text_field : String → Dict Value → String
  text_field key m = elim (lookup key m) [ none ↦ "" | some v ↦ sprint pr v ]

  -- The id, or the device and the name where there is no id.
  abbrev dotted_name : String → Value → String
  dotted_name device nil = ""
  dotted_name device name =
      if str_eq device "" then "" else String.◌++◌ device (String.◌++◌ "." (sprint_s pr name))

  abbrev id_field : String → Dict Value → String
  id_field device m = elim (lookup "id" m) [
    | none ↦ dotted_name device (field "name" m)
    | some v ↦ sprint pr v
  ]

  abbrev instance_of : Value → ℤ
  instance_of (int i) = i
  instance_of (float64 f) = fl.to_int f
  instance_of _ = pos 0

  -- One entry of config["points"], for the client's device.
  unfoldable pub point_of : String → Dict Value → BacnetPoint
  point_of device m = fill_from_address (record {
    id = id_field device m;
    object_type = text_field "object_type" m;
    instance_number = instance_of (field "instance" m);
    description = text_field "description" m;
    access = text_field "access" m;
    name = text_field "name" m;
    address = text_field "address" m;
    kind = text_field "type" m;
    format = text_field "format" m;
    unit = text_field "unit" m;
    value = field "init_value" m;
    property = text_field "property" m;
    property_value_type = value_type_of (field "property_value_type" m);
    writable = bool_or_false (field "writable" m);
    transform = text_field "transform" m;
  })
