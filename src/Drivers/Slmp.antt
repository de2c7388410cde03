-- ===== src/Drivers/Slmp.antt =====
-- protocols/slmp/slmp.go.
use sensor_edge.Drivers.Batch.{ask_points}
use sensor_edge.Go.{err, ok, panic, Error, Outcome}
use sensor_edge.Prelude.Dict.{Dict}
use sensor_edge.Value.{int, PointValue, Value}
use sensor_edge.Drivers.Net.{string_at, Net}
use sensor_edge.Prelude.{
  ◌^◌, ◌*◌, ◌+◌, get_or, pos, length, ltb, if◌then◌else◌, some, [], ◌∷◌, Option, List, none, ℕ,
  String,
}
use Prim.Native.String
use sensor_edge.Drivers.Tcp.{conn_of, without_value}

pub record SlmpClient : Type 0 where
  pub conn : Option ℕ
  pub ip : String
  pub port : String

pub record SlmpSession (W : Type 0) : Type 0 where
  pub s : SlmpClient
  pub world : W

-- NewSLMPClient
abbrev pub new_slmp_client : SlmpClient
new_slmp_client = record { conn = none; ip = ""; port = "" }

-- The request for D100.
abbrev pub read_command : List ℕ
read_command =
    0x50 ∷ 0x00 ∷ 0x00 ∷ 0xFF ∷ 0xFF ∷ 0x03 ∷ 0x00 ∷ 0x0C ∷ 0x00 ∷ 0x10 ∷ 0x00 ∷ 0x01 ∷ 0x04 ∷ 0x00
    ∷ 0x00 ∷ 0x00 ∷ 0x64 ∷ 0x00 ∷ 0x00 ∷ 0xA8 ∷ 0x00 ∷ []

-- The buffer behind the bytes that were read holds zeros.
abbrev value_from : List ℕ × Option Error → Option Value
value_from (bytes, some e) = none
value_from (bytes, none) =
    if ltb (length bytes) 14
    then none
    else some (int (pos (get_or bytes 14 0 + get_or bytes 15 0 * 2 ^ 8)))

abbrev read_result : ℕ → List ℕ × Option Error → Outcome (List PointValue)
read_result now (bytes, some e) = err e
read_result now (bytes, none) = ok (elim (value_from (bytes, none)) [
  | none ↦ []
  | some v ↦ record { point_id = "d100"; value = v; quality = "good"; timestamp = now } ∷ []
])

module _ {W : Type 0} (net : Net W) where
  dial_to : SlmpClient → W → Outcome (Unit {0}) × SlmpSession W
  dial_to c w =
      let (r, w') = net.dial (String.◌++◌ c.ip (String.◌++◌ ":" c.port)) w in
      (without_value r, record { s = record c { conn = conn_of r }; world = w' })

  abbrev init_with :
      Outcome String → Outcome String → SlmpSession W → Outcome (Unit {0}) × SlmpSession W
  init_with (ok ip) (ok port) c = dial_to (record c.s { ip = ip; port = port }) c.world
  init_with (ok ip) _ c = (panic, record c { s = record c.s { ip = ip } })
  init_with _ _ c = (panic, c)

  unfoldable pub init : Dict Value → SlmpSession W → Outcome (Unit {0}) × SlmpSession W
  unfolding dial_to
  init config c = init_with (string_at "ip" config) (string_at "port" config) c

  abbrev exchange : ℕ → W → (List ℕ × Option Error) × W
  exchange conn w = net.read conn (net.write conn read_command w)

  unfoldable pub read : SlmpSession W → Outcome (List PointValue) × SlmpSession W
  read c = elim c.s.conn [
    | none ↦ (panic, c)
    | some conn ↦
        let (answer, w) = exchange conn c.world in
        (read_result (net.unix w) answer, record c { world = w })
  ]

  -- The point is not looked at: every one is D100.
  unfoldable pub ask : SlmpClient → String → W → Outcome (Option Value) × W
  ask c pt w = elim c.conn [
    | none ↦ (panic, w)
    | some conn ↦ let (answer, w') = exchange conn w in (ok (value_from answer), w')
  ]

  unfoldable pub read_batch :
      List String → SlmpSession W → Outcome (List PointValue) × SlmpSession W
  read_batch points c =
      let (r, w) = ask_points net.unix (ask c.s) points c.world in (r, record c { world = w })

  unfoldable pub close : SlmpSession W → Outcome (Option Error) × SlmpSession W
  close c = elim c.s.conn [
    | none ↦ (panic, c)
    | some conn ↦ let (e, w) = net.close conn c.world in (ok e, record c { world = w })
  ]

  unfoldable pub reconnect : SlmpSession W → Outcome (Unit {0}) × SlmpSession W
  unfolding dial_to
  reconnect c = elim c.s.conn [
    | none ↦ dial_to c.s c.world
    | some conn ↦ dial_to c.s (net.close conn c.world).1
  ]

abbrev pub write : String → Value → Outcome (Unit {0})
write point value = ok tt
