-- ===== src/Bacnet/Client.antt =====
-- protocols/bacnet/bacnet.go: the client. Each method holds the client's lock for its whole run, so
-- that the calls come one after another. The fields that nothing reads or writes (covSubs,
-- priorityWrite, retryCount, offline) are left out; a nil map is an empty one, since the code writes
-- only to maps that Init made.
use text.Mathlib.Text.{◌==◌ as str_eq}
use sensor_edge.Prelude.Dict.{insert, Dict, lookup}
use sensor_edge.Value.{float64, bool, nil, PointValue, Value}
use sensor_edge.Floats.{Floats}
use sensor_edge.Edge.{eval_expression, Govaluate}
use sensor_edge.Go.{err, ok, msg, Outcome, Error}
use sensor_edge.Bacnet.Points.{point_of, zero_point, field, BacnetPoint}
use sensor_edge.Prelude.{
  true, map, none, ◌∷◌, List, [], some, if◌then◌else◌, Bool, false, ℕ, String, Option,
}
use sensor_edge.Go.Show.{Printer, sprint}

pub record BacnetClient : Type 0 where
  pub device_id : String
  pub connected : Bool
  pub points : Dict BacnetPoint
  pub id_to_name : Dict String
  pub address_to_name : Dict String
  pub discovered : Bool

-- &BacnetClient{}
abbrev pub new_bacnet_client : BacnetClient
new_bacnet_client = record {
  device_id = "";
  connected = false;
  points = [];
  id_to_name = [];
  address_to_name = [];
  discovered = false;
}

-- `if key != "" { names[key] = name }`
abbrev pub index : String → String → Dict String → Dict String
index key name names = if str_eq key "" then names else insert key name names

unfoldable pub store_point : BacnetPoint → BacnetClient → BacnetClient
store_point pt c = record c {
  points = insert pt.name pt c.points;
  id_to_name = index pt.id pt.name c.id_to_name;
  address_to_name = index pt.address pt.name c.address_to_name;
}

module _ (pr : Printer) (fl : Floats) where
  -- The loop over config["points"]: an entry that is no map is left out.
  unfoldable pub store_all : List (Option (Dict Value)) → BacnetClient → BacnetClient
  store_all [] c = c
  store_all (none ∷ entries) c = store_all entries c
  store_all (some m ∷ entries) c = store_all entries (store_point (point_of pr fl c.device_id m) c)

  -- `points` is config["points"] where it is a slice; the entry of `config` itself is not read.
  unfoldable pub init :
      Dict Value → Option (List (Option (Dict Value))) → BacnetClient → BacnetClient
  init config points c =
      let empty = record c {
        device_id = elim (lookup "object_device" config) [
          | some v ↦ sprint pr v
          | none ↦ sprint pr (field "device_id" config)
        ];
        connected = true;
        points = [];
        id_to_name = [];
        address_to_name = [];
      } in
      elim points [ none ↦ empty | some entries ↦ store_all entries empty ]

abbrev pub point_or_zero : Option BacnetPoint → BacnetPoint
point_or_zero (some pt) = pt
point_or_zero none = zero_point

-- The name and the point that a key stands for: a name, an address or an id, in this order.
abbrev pub by_name : BacnetClient → String → String × BacnetPoint
by_name c name = (name, point_or_zero (lookup name c.points))

abbrev pub by_id : BacnetClient → Option String → Option (String × BacnetPoint)
by_id c (some name) = some (by_name c name)
by_id c none = none

abbrev pub by_address : BacnetClient → Option String → Option String → Option (String × BacnetPoint)
by_address c (some name) id = some (by_name c name)
by_address c none id = by_id c id

abbrev pub by_point : BacnetClient → String → Option BacnetPoint → Option (String × BacnetPoint)
by_point c key (some pt) = some (key, pt)
by_point c key none = by_address c (lookup key c.address_to_name) (lookup key c.id_to_name)

unfoldable pub resolve : BacnetClient → String → Option (String × BacnetPoint)
resolve c key = by_point c key (lookup key c.points)

abbrev pub not_connected : Error
not_connected = msg "bacnet: not connected"

-- The point's value, or false or 42.0 where it has none.
abbrev pub current : BacnetPoint → Value
current pt = elim pt.value [
  | nil ↦ if str_eq pt.kind "bool" then bool false else float64 0x4045000000000000
  | v ↦ v
]

abbrev read_value : ℕ → String × BacnetPoint → PointValue
read_value now (name, pt) = record {
  point_id = name;
  value = current pt;
  quality = "good";
  timestamp = now;
}

-- Read: every point. `now` is the time of the call.
unfoldable pub read : ℕ → BacnetClient → Outcome (List PointValue)
read now c = if c.connected then ok (map (read_value now) c.points) else err not_connected

-- parseTransform; `none` is an error.
unfoldable pub parse_transform : Govaluate → String → Value → Option Value
parse_transform g expr v = if str_eq expr "" then some v else eval_expression g expr v

abbrev pub value_or : Value → Option Value → Value
value_or v (some w) = w
value_or v none = v

-- One key of ReadBatch.
abbrev pub value_at : Govaluate → ℕ → String → Option (String × BacnetPoint) → PointValue
value_at g now key none = record { point_id = key; value = nil; quality = "bad"; timestamp = now }
value_at g now key (some (name, pt)) = record {
  point_id = pt.name;
  value = value_or (current pt) (parse_transform g pt.transform (current pt));
  quality = "good";
  timestamp = now;
}

unfoldable pub read_batch : Govaluate → ℕ → List String → BacnetClient → Outcome (List PointValue)
read_batch g now keys c =
    if c.connected
    then ok (map (λ key. value_at g now key (resolve c key)) keys)
    else err not_connected
