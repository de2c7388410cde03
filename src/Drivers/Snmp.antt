-- ===== src/Drivers/Snmp.antt =====
-- protocols/snmp/snmp.go. The library gosnmp is a parameter: the world `W` holds its clients, which are
-- named by numbers, and the clock.
use sensor_edge.Drivers.Net.{string_at}
use sensor_edge.Drivers.Batch.{ask_points}
use sensor_edge.Go.{err, ◌>>=◌, ok, panic, Error, Outcome}
use sensor_edge.Prelude.Dict.{lookup, Dict}
use sensor_edge.Prelude.{◌∷◌, [], some, Option, List, none, ℕ, String}
use sensor_edge.Value.{nil, int, bytes, float64, string, PointValue, Value}

-- The settings of gosnmp.GoSNMP that Init fills in; the others are fixed (Version2c, 2 s, 2 retries).
pub record Target : Type 0 where
  pub target : String
  pub port : ℕ
  pub community : String

pub data VariableType : Type 0 where
  integer octet_string other_type : VariableType

pub record Variable : Type 0 where
  pub kind : VariableType
  pub value : Value

pub record Gosnmp (W : Type 0) : Type 0 where
  pub new : Target → W → ℕ × W
  pub connect : ℕ → W → Option Error × W
  pub get : ℕ → List String → W → (List Variable × Option Error) × W
  -- Conn.Close(), which panics where there is no Conn
  pub close : ℕ → W → Outcome (Option Error) × W
  pub unix : W → ℕ
  pub uint16_of : ℕ → ℕ  -- uint16(v) of a float64
  pub string_of : List ℕ → String  -- string(b)

pub record SnmpClient : Type 0 where
  pub client : Option ℕ
  pub oids : List String

pub record SnmpSession (W : Type 0) : Type 0 where
  pub s : SnmpClient
  pub world : W

-- NewSNMPClient
abbrev pub new_snmp_client : SnmpClient
new_snmp_client = record { client = none; oids = [] }

-- config["port"].(float64)
abbrev pub float_at : String → Dict Value → Outcome ℕ
float_at key config = must_float (lookup key config)
  where
    must_float : Option Value → Outcome ℕ
    must_float (some (float64 v)) = ok v
    must_float _ = panic

abbrev pub error_result : Option Error → Outcome (Unit {0})
error_result (some e) = err e
error_result none = ok tt

module _ {W : Type 0} (lib : Gosnmp W) where
  abbrev target_at : Dict Value → Outcome Target
  target_at config = string_at "ip" config >>= (λ ip. float_at "port" config >>= (λ port.
      string_at "community" config >>= (λ community.
        ok (record { target = ip; port = lib.uint16_of port; community = community }))))

  abbrev init_oid : ℕ → Outcome String → SnmpSession W → Outcome (Unit {0}) × SnmpSession W
  init_oid n (ok oid) c =
      let (e, w) = lib.connect n c.world in
      (error_result e, record { s = record c.s { oids = oid ∷ [] }; world = w })
  init_oid n _ c = (panic, c)

  abbrev init_with :
      Outcome Target → Outcome String → SnmpSession W → Outcome (Unit {0}) × SnmpSession W
  init_with (ok target) oid c =
      let (n, w) = lib.new target c.world in
      init_oid n oid (record { s = record c.s { client = some n }; world = w })
  init_with _ oid c = (panic, c)

  -- A setting that is missing or of another type panics, an int port too; the oid is looked at when
  -- the client is already set.
  unfoldable pub init : Dict Value → SnmpSession W → Outcome (Unit {0}) × SnmpSession W
  init config c = init_with (target_at config) (string_at "oid" config) c

  abbrev variable_value : Variable → Outcome Value
  variable_value v = by_type v.kind v.value
    where
      by_type : VariableType → Value → Outcome Value
      by_type integer (int n) = ok (int n)
      by_type integer _ = panic
      by_type octet_string (bytes b) = ok (string (lib.string_of b))
      by_type octet_string _ = panic
      by_type other_type value = ok value

  -- The last variable wins; without one the value is nil.
  abbrev last_value : List Variable → Value → Outcome Value
  last_value [] val = ok val
  last_value (v ∷ vs) val = variable_value v >>= last_value vs

  abbrev read_result : ℕ → List Variable × Option Error → Outcome (List PointValue)
  read_result now (vs, some e) = err e
  read_result now (vs, none) = last_value vs nil >>= (λ v.
      ok (record { point_id = "snmp_metric"; value = v; quality = "good"; timestamp = now } ∷ []))

  unfoldable pub read : SnmpSession W → Outcome (List PointValue) × SnmpSession W
  read c = elim c.s.client [
    | none ↦ (panic, c)
    | some n ↦
        let (r, w) = lib.get n c.s.oids c.world in
        (read_result (lib.unix w) r, record c { world = w })
  ]

  abbrev first_value : List Variable × Option Error → Option Value
  first_value (vs, some e) = none
  first_value ([], none) = none
  first_value (v ∷ vs, none) = some v.value

  unfoldable pub ask : SnmpClient → String → W → Outcome (Option Value) × W
  ask c pt w = elim c.client [
    | none ↦ (panic, w)
    | some n ↦ let (r, w') = lib.get n (pt ∷ []) w in (ok (first_value r), w')
  ]

  unfoldable pub read_batch :
      List String → SnmpSession W → Outcome (List PointValue) × SnmpSession W
  read_batch points c =
      let (r, w) = ask_points lib.unix (ask c.s) points c.world in (r, record c { world = w })

  unfoldable pub close : SnmpSession W → Outcome (Option Error) × SnmpSession W
  close c = elim c.s.client [
    | none ↦ (panic, c)
    | some n ↦ let (r, w) = lib.close n c.world in (r, record c { world = w })
  ]

  unfoldable pub reconnect : SnmpSession W → Outcome (Unit {0}) × SnmpSession W
  reconnect c = elim c.s.client [
    | none ↦ (ok tt, c)
    | some n ↦ let (e, w) = lib.connect n c.world in (error_result e, record c { world = w })
  ]

-- Write does nothing.
abbrev pub write : String → Value → Outcome (Unit {0})
write point value = ok tt
