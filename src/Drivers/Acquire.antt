-- ===== src/Drivers/Acquire.antt =====
-- The drivers tcpclient, slmp, s7 and snmp behind the interface that readWithRetry of main.go uses.
use sensor_edge.Drivers.Rows.{snmp-IsRows, s7-IsRows, slmp-IsRows, tcp-IsRows, IsRows}
use sensor_edge.Poll.Retry.{read_with_retry-first, read_with_retry, Protocol}
use sensor_edge.Drivers.S7.{Gos7}
use sensor_edge.Drivers.Snmp.{Gosnmp}
use sensor_edge.Drivers.Net.{Net}
use sensor_edge.Go.{ok, err, panic, Error, Outcome}
use sensor_edge.Prelude.{◌∙◌, ap, ◌≡◌, suc, ℕ, List, String, Option, none, some}
use sensor_edge.Drivers.Tcp
use sensor_edge.Drivers.Slmp
use sensor_edge.Drivers.S7
use sensor_edge.Drivers.Snmp

-- The error that Reconnect returns.
abbrev with_error : {S : Type 0} → Outcome (Unit {0}) × S → Outcome (Option Error) × S
with_error (ok x, s) = (ok none, s)
with_error (err e, s) = (ok (some e), s)
with_error (panic, s) = (panic, s)

module _ {W : Type 0} where
  abbrev pub tcp_protocol : Net W → Protocol (Tcp.TcpSession W)
  tcp_protocol net = record {
    read_batch = λ device function points s. Tcp.read_batch net points s;
    reconnect = λ s. with_error (Tcp.reconnect net s);
    set_slave = λ slave s. s;
  }

  abbrev pub slmp_protocol : Net W → Protocol (Slmp.SlmpSession W)
  slmp_protocol net = record {
    read_batch = λ device function points s. Slmp.read_batch net points s;
    reconnect = λ s. with_error (Slmp.reconnect net s);
    set_slave = λ slave s. s;
  }

  abbrev pub s7_protocol : Gos7 W → Protocol (S7.S7Session W)
  s7_protocol lib = record {
    read_batch = λ device function points s. S7.read_batch lib points s;
    reconnect = λ s. with_error (S7.reconnect lib s);
    set_slave = λ slave s. s;
  }

  abbrev pub snmp_protocol : Gosnmp W → Protocol (Snmp.SnmpSession W)
  snmp_protocol lib = record {
    read_batch = λ device function points s. Snmp.read_batch lib points s;
    reconnect = λ s. with_error (Snmp.reconnect lib s);
    set_slave = λ slave s. s;
  }

-- readWithRetry makes one attempt, whose values are one for each of the points, in their order.
abbrev pub IsOneAttempt : {P : Type 0} → Protocol P → String → String → List String → ℕ → P → Type 0
IsOneAttempt c device function points max_retry p =
    (read_with_retry c device function points max_retry p ≡ c.read_batch device function points p)
    × IsRows points (read_with_retry c device function points max_retry p).0

one_attempt :
    {P : Type 0} (c : Protocol P) (device function : String) (points : List String) (n : ℕ) (p : P)
    → IsRows points (c.read_batch device function points p).0
    → IsOneAttempt c device function points (suc n) p
one_attempt c device function points n p (vs, e, ids) =
    let same = read_with_retry-first c device function points n p vs e in
    (same, (vs, ap (λ r. r.0) same ∙ e, ids))

module _ {W : Type 0} (device function : String) (points : List String) (n : ℕ) (w : W) where
  -- Whatever the network answers, readWithRetry makes just one attempt on a connected client of each of
  -- the four drivers, and never a reconnect: ReadBatch returns no error and one value for each of the
  -- points, in the order of the points.
  pub read_with_retry-IsOneAttempt :
      (net : Net W) (t : Tcp.TcpClient) (s : Slmp.SlmpClient) (conn : ℕ) (gos7 : Gos7 W)
      (p : S7.S7Client) (h : ℕ) (gosnmp : Gosnmp W) (c : Snmp.SnmpClient) (k : ℕ)
      → IsOneAttempt
          (tcp_protocol net)
          device
          function
          points
          (suc n)
          (record { t = record t { conn = some conn }; world = w })
        × IsOneAttempt
            (slmp_protocol net)
            device
            function
            points
            (suc n)
            (record { s = record s { conn = some conn }; world = w })
        × IsOneAttempt
            (s7_protocol gos7)
            device
            function
            points
            (suc n)
            (record { s = record p { client = some h }; world = w })
        × IsOneAttempt
            (snmp_protocol gosnmp)
            device
            function
            points
            (suc n)
            (record { s = record c { client = some k }; world = w })
  read_with_retry-IsOneAttempt net t s conn gos7 p h gosnmp c k = (
    one_attempt (tcp_protocol net) device function points n _ (tcp-IsRows points w net t conn),
    one_attempt (slmp_protocol net) device function points n _ (slmp-IsRows points w net s conn),
    one_attempt (s7_protocol gos7) device function points n _ (s7-IsRows points w gos7 p h),
    one_attempt (snmp_protocol gosnmp) device function points n _ (snmp-IsRows points w gosnmp c k),
  )
