-- ===== src/Bacnet/Template.antt =====
-- protocols/bacnet/discover.go: the template of points that is written for a discovered device.
use text.Mathlib.Text.{◌==◌ as str_eq}
use sensor_edge.Prelude.Dict.{lookup, insert, Dict}
use sensor_edge.Prelude.Decimal.{decimal_text}
use sensor_edge.Prelude.{
  ◌++◌, none, ◌||◌, some, map, ℕ, [], Bool, ◌∷◌, if◌then◌else◌, List, String, Option,
}
use Prim.Native.String

pub record ObjectIdentifier : Type 0 where
  pub object_type : String
  pub number : ℕ  -- Instance

pub record PointModel : Type 0 where
  pub name : String
  pub address : String
  pub object_type : String
  pub number : ℕ
  pub property : String
  pub kind : String  -- Type
  pub unit : String
  pub writable : Bool

unfoldable pub guess_value_type : String → String
guess_value_type object_type =
    if str_eq object_type "analogInput" || str_eq object_type "analogValue"
    then "float"
    else if str_eq object_type "binaryInput" || str_eq object_type "binaryValue"
    then "bool"
    else "float"

unfoldable pub is_writable : String → Bool
is_writable object_type =
    str_eq object_type "analogValue"
    || str_eq object_type "binaryValue"
    || str_eq object_type "multiStateValue"

-- ReadObjectList gives the same three objects for every device.
abbrev pub read_object_list : List ObjectIdentifier
read_object_list =
    record { object_type = "analogInput"; number = 0 }
    ∷ record { object_type = "analogInput"; number = 1 }
    ∷ record { object_type = "binaryInput"; number = 2 }
    ∷ []

-- The body of the loop of AutoGeneratePoints.
unfoldable pub point_model : ObjectIdentifier → PointModel
point_model obj = record {
  name = String.◌++◌ obj.object_type (String.◌++◌ "_" (decimal_text obj.number));
  address = String.◌++◌ obj.object_type (String.◌++◌ ":" (decimal_text obj.number));
  object_type = obj.object_type;
  number = obj.number;
  property = "presentValue";
  kind = guess_value_type obj.object_type;
  unit = "";
  writable = is_writable obj.object_type;
}

abbrev or_none : Option (List PointModel) → List PointModel
or_none none = []
or_none (some pts) = pts

-- funcMap of WritePointsToFile: the points by their object type, from the groups so far.
unfoldable pub group_points : List PointModel → Dict (List PointModel) → Dict (List PointModel)
group_points [] groups = groups
group_points (pt ∷ pts) groups =
    group_points pts
      (insert pt.object_type (or_none (lookup pt.object_type groups) ++ pt ∷ []) groups)

-- What WritePointsToFile writes, as a YAML document, and the name of its file.
pub record PointsFile : Type 0 where
  pub path : String
  pub device_id : String
  pub protocol : String
  pub functions : Dict (List PointModel)

unfoldable pub auto_generate_points : String → PointsFile
auto_generate_points id = record {
  path = String.◌++◌ "bacnet_points_" (String.◌++◌ id ".yaml");
  device_id = id;
  protocol = "bacnet";
  functions = group_points (map point_model read_object_list) [];
}
