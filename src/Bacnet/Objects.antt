-- ===== src/Bacnet/Objects.antt =====
-- protocols/bacnet/type.go: the object types with their numbers, object identifiers and property values.
use sensor_edge.Prelude.{ℕ}
use sensor_edge.Value.{Value}
use sensor_edge.Bacnet.Points.{PropertyValueType}

pub data ObjectType : Type 0 where
  analog_input analog_output analog_value binary_input binary_output binary_value calendar :
      ObjectType
  command bacnet_device event_enrollment file group loop multi_state_input multi_state_output :
      ObjectType
  notification_class program schedule averaging multi_state_value trendlog life_safety_point :
      ObjectType
  life_safety_zone accumulator pulse_converter event_log global_group trend_log_multiple :
      ObjectType
  load_control structured_view access_door timer access_credential access_point access_rights :
      ObjectType
  access_user access_zone credential_data_input network_security bitstring_value : ObjectType
  characterstring_value date_pattern_value date_value datetime_pattern_value datetime_value :
      ObjectType
  integer_value large_analog_value octetstring_value positive_integer_value time_pattern_value :
      ObjectType
  time_value notification_forwarder alert_enrollment channel lighting_output : ObjectType
  binary_lighting_output network_port proprietary_min proprietarymax : ObjectType

-- uint16(t)
unfoldable pub object_number : ObjectType → ℕ
object_number analog_input = 0x00
object_number analog_output = 0x01
object_number analog_value = 0x02
object_number binary_input = 0x03
object_number binary_output = 0x04
object_number binary_value = 0x05
object_number calendar = 0x06
object_number command = 0x07
object_number bacnet_device = 0x08
object_number event_enrollment = 0x09
object_number file = 0x0A
object_number group = 0x0B
object_number loop = 0x0C
object_number multi_state_input = 0x0D
object_number multi_state_output = 0x0E
object_number notification_class = 0x0F
object_number program = 0x10
object_number schedule = 0x11
object_number averaging = 0x12
object_number multi_state_value = 0x13
object_number trendlog = 0x14
object_number life_safety_point = 0x15
object_number life_safety_zone = 0x16
object_number accumulator = 0x17
object_number pulse_converter = 0x18
object_number event_log = 0x19
object_number global_group = 0x1A
object_number trend_log_multiple = 0x1B
object_number load_control = 0x1C
object_number structured_view = 0x1D
object_number access_door = 0x1E
object_number timer = 0x1F
object_number access_credential = 0x20
object_number access_point = 0x21
object_number access_rights = 0x22
object_number access_user = 0x23
object_number access_zone = 0x24
object_number credential_data_input = 0x25
object_number network_security = 0x26
object_number bitstring_value = 0x27
object_number characterstring_value = 0x28
object_number date_pattern_value = 0x29
object_number date_value = 0x2a
object_number datetime_pattern_value = 0x2b
object_number datetime_value = 0x2c
object_number integer_value = 0x2d
object_number large_analog_value = 0x2e
object_number octetstring_value = 0x2f
object_number positive_integer_value = 0x30
object_number time_pattern_value = 0x31
object_number time_value = 0x32
object_number notification_forwarder = 0x33
object_number alert_enrollment = 0x34
object_number channel = 0x35
object_number lighting_output = 0x36
object_number binary_lighting_output = 0x37
object_number network_port = 0x38
object_number proprietary_min = 0x80
object_number proprietarymax = 0x3ff

pub record ObjectId : Type 0 where
  pub object_type : ObjectType
  pub number : ℕ  -- Instance

pub record PropertyValue : Type 0 where
  pub value_type : PropertyValueType
  pub value : Value
