-- ===== src/Poll/Points.antt =====
-- types/point.go, and the helpers of main.go over points.
use sensor_edge.Value.{PointConfig}
use sensor_edge.Prelude.{[], ◌∷◌, Bool, String, List}

pub record AlarmRule : Type 0 where
  pub enable : Bool
  pub condition : String
  pub level : String
  pub message : String

pub record PointMapping : Type 0 where
  pub address : String
  pub name : String
  pub kind : String  -- Type
  pub unit : String
  pub transform : String
  pub format : String
  pub alarm : AlarmRule

pub record FunctionPointGroup : Type 0 where
  pub function : String
  pub points : List PointMapping

pub record DevicePointSetV2 : Type 0 where
  pub device_id : String
  pub protocol : String
  pub protocol_name : String
  pub functions : List FunctionPointGroup

-- toPointConfig, and MapPointsToConfig of protocols/point_mapper.go: the format is not carried over.
unfoldable pub to_point_config : List PointMapping → List PointConfig
to_point_config [] = []
to_point_config (p ∷ ps) =
    record {
      point_id = p.name;
      address = p.address;
      kind = p.kind;
      unit = p.unit;
      transform = p.transform;
      format = "";
    }
    ∷ to_point_config ps

unfoldable pub extract_point_addresses : List PointMapping → List String
extract_point_addresses [] = []
extract_point_addresses (p ∷ ps) = p.address ∷ extract_point_addresses ps
