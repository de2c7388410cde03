-- ===== src/Value.antt =====
-- The values that the program carries as interface{}: one constructor for each dynamic type that it
-- tests for or makes. A float is its IEEE 754 bit pattern. protocols/protocol.go and
-- protocols/point_config.go: the values of points.
use sensor_edge.Prelude.{ℕ, ℤ, Bool, String, List}

pub data Value : Type 0 where
  nil : Value
  bool : Bool → Value
  int int16 int32 int64 : ℤ → Value
  uint uint16 uint32 uint64 : ℕ → Value
  float32 float64 : ℕ → Value
  string : String → Value
  bytes : List ℕ → Value  -- []byte
  words : List ℕ → Value  -- []uint16
  bools : List Bool → Value  -- []bool
  object_id : ℕ → ℕ → Value  -- bacnet.ObjectID
  other : Value  -- any other type

pub record PointValue : Type 0 where
  pub point_id : String
  pub value : Value
  pub quality : String
  pub timestamp : ℕ

pub record PointConfig : Type 0 where
  pub point_id : String
  pub address : String
  pub kind : String  -- Type
  pub unit : String
  pub transform : String
  pub format : String
