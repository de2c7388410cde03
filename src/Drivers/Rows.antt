-- ===== src/Drivers/Rows.antt =====
-- ReadBatch of the drivers tcpclient, slmp, s7 and snmp gives one value for each point, also for those
-- that fail.
use sensor_edge.Drivers.Snmp.{Gosnmp}
use sensor_edge.Drivers.Batch.{ask_points-point_id}
use sensor_edge.Value.{PointValue}
use sensor_edge.Drivers.Net.{Net}
use sensor_edge.Drivers.S7.{Gos7}
use sensor_edge.Go.{ok, Outcome}
use sensor_edge.Prelude.{refl, map, some, ◌≡◌, ℕ, String, List}
use sensor_edge.Drivers.Tcp
use sensor_edge.Drivers.Slmp
use sensor_edge.Drivers.S7
use sensor_edge.Drivers.Snmp

-- No error, and a value for each of the points, in their order.
abbrev pub IsRows : List String → Outcome (List PointValue) → Type 0
IsRows points r =
    (vs : List PointValue) × (r ≡ ok vs) × (map (λ (v : PointValue). v.point_id) vs ≡ points)

module _ {W : Type 0} (points : List String) (w : W) where
  pub tcp-IsRows :
      (net : Net W) (t : Tcp.TcpClient) (conn : ℕ)
      → IsRows points
          (Tcp.read_batch net points (record { t = record t { conn = some conn }; world = w })).0
  unfolding Tcp.read_batch Tcp.ask
  tcp-IsRows net t conn = ask_points-point_id _ _ points w (λ pt w. (_, refl))

  pub slmp-IsRows :
      (net : Net W) (s : Slmp.SlmpClient) (conn : ℕ)
      → IsRows points
          (Slmp.read_batch net points (record { s = record s { conn = some conn }; world = w })).0
  unfolding Slmp.read_batch Slmp.ask
  slmp-IsRows net s conn = ask_points-point_id _ _ points w (λ pt w. (_, refl))

  pub s7-IsRows :
      (lib : Gos7 W) (s : S7.S7Client) (h : ℕ)
      → IsRows points
          (S7.read_batch lib points (record { s = record s { client = some h }; world = w })).0
  unfolding S7.read_batch S7.ask
  s7-IsRows lib s h = ask_points-point_id _ _ points w (λ pt w. (_, refl))

  pub snmp-IsRows :
      (lib : Gosnmp W) (s : Snmp.SnmpClient) (n : ℕ)
      → IsRows points
          (Snmp.read_batch lib points (record { s = record s { client = some n }; world = w })).0
  unfolding Snmp.read_batch Snmp.ask
  snmp-IsRows lib s n = ask_points-point_id _ _ points w (λ pt w. (_, refl))
