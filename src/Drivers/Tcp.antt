-- ===== src/Drivers/Tcp.antt =====
-- protocols/tcpclient/tcp_client.go.
use sensor_edge.Drivers.Batch.{ask_points}
use sensor_edge.Prelude.Dict.{Dict}
use sensor_edge.Value.{int, PointValue, Value}
use sensor_edge.Go.{panic, err, ok, Error, Outcome}
use sensor_edge.Drivers.Net.{string_at, bytes_of, Net}
use sensor_edge.Prelude.{
  ◌+◌, ◌^◌, ◌*◌, get_or, pos, length, ltb, ◌∷◌, if◌then◌else◌, some, [], Option, List, none, ℕ,
  String,
}
use Prim.Native.String

pub record TcpClient : Type 0 where
  pub conn : Option ℕ
  pub ip : String
  pub port : String
  pub request : List ℕ

pub record TcpSession (W : Type 0) : Type 0 where
  pub t : TcpClient
  pub world : W

-- NewTCPClient
abbrev pub new_tcp_client : TcpClient
new_tcp_client = record { conn = none; ip = ""; port = ""; request = [] }

abbrev pub conn_of : Outcome ℕ → Option ℕ
conn_of (ok conn) = some conn
conn_of _ = none

-- The error of a call as its result.
abbrev pub without_value {ℓ} : {A : Type ℓ} → Outcome A → Outcome (Unit {0})
without_value (ok a) = ok tt
without_value (err e) = err e
without_value panic = panic

abbrev value_from : List ℕ × Option Error → Option Value
value_from (bytes, some e) = none
value_from (bytes, none) =
    if ltb (length bytes) 7
    then none
    else some (int (pos (get_or bytes 3 0 * 2 ^ 8 + get_or bytes 4 0)))

-- Read returns its error, which is nil after an answer that is too short.
abbrev read_result : ℕ → List ℕ × Option Error → Outcome (List PointValue)
read_result now (bytes, some e) = err e
read_result now (bytes, none) = ok (elim (value_from (bytes, none)) [
  | none ↦ []
  | some v ↦ record { point_id = "tcp_data"; value = v; quality = "good"; timestamp = now } ∷ []
])

module _ {W : Type 0} (net : Net W) where
  dial_to : TcpClient → W → Outcome (Unit {0}) × TcpSession W
  dial_to t w =
      let (r, w') = net.dial (String.◌++◌ t.ip (String.◌++◌ ":" t.port)) w in
      (without_value r, record { t = record t { conn = conn_of r }; world = w' })

  -- The three settings must be texts; the request is the bytes of its text.
  abbrev init_with :
      Outcome String
      → Outcome String
      → Outcome String
      → TcpSession W
      → Outcome (Unit {0}) × TcpSession W
  init_with (ok ip) (ok port) (ok request) s =
      dial_to (record s.t { ip = ip; port = port; request = bytes_of request }) s.world
  init_with (ok ip) (ok port) _ s = (panic, record s { t = record s.t { ip = ip; port = port } })
  init_with (ok ip) _ _ s = (panic, record s { t = record s.t { ip = ip } })
  init_with _ _ _ s = (panic, s)

  unfoldable pub init : Dict Value → TcpSession W → Outcome (Unit {0}) × TcpSession W
  unfolding dial_to
  init config s =
      init_with (string_at "ip" config) (string_at "port" config) (string_at "request_hex" config) s

  -- One request and its answer; a nil connection panics.
  abbrev exchange : ℕ → List ℕ → W → (List ℕ × Option Error) × W
  exchange conn request w = net.read conn (net.write conn request w)

  unfoldable pub read : TcpSession W → Outcome (List PointValue) × TcpSession W
  read s = elim s.t.conn [
    | none ↦ (panic, s)
    | some conn ↦
        let (answer, w) = exchange conn s.t.request s.world in
        (read_result (net.unix w) answer, record s { world = w })
  ]

  -- The point is not looked at.
  unfoldable pub ask : TcpClient → String → W → Outcome (Option Value) × W
  ask t pt w = elim t.conn [
    | none ↦ (panic, w)
    | some conn ↦ let (answer, w') = exchange conn t.request w in (ok (value_from answer), w')
  ]

  unfoldable pub read_batch : List String → TcpSession W → Outcome (List PointValue) × TcpSession W
  read_batch points s =
      let (r, w) = ask_points net.unix (ask s.t) points s.world in (r, record s { world = w })

  unfoldable pub close : TcpSession W → Outcome (Option Error) × TcpSession W
  close s = elim s.t.conn [
    | none ↦ (panic, s)
    | some conn ↦ let (e, w) = net.close conn s.world in (ok e, record s { world = w })
  ]

  unfoldable pub reconnect : TcpSession W → Outcome (Unit {0}) × TcpSession W
  unfolding dial_to
  reconnect s = elim s.t.conn [
    | none ↦ dial_to s.t s.world
    | some conn ↦ dial_to s.t (net.close conn s.world).1
  ]

-- Write does nothing.
abbrev pub write : String → Value → Outcome (Unit {0})
write point value = ok tt
