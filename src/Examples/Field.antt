-- ===== src/Examples/Field.antt =====
-- The small drivers before a network that is down.
use sensor_edge.Drivers.Acquire.{
  read_with_retry-IsOneAttempt, snmp_protocol, s7_protocol, slmp_protocol, tcp_protocol,
  IsOneAttempt,
}
use sensor_edge.Drivers.Snmp.{Gosnmp}
use sensor_edge.Drivers.Net.{Net}
use sensor_edge.Drivers.S7.{Gos7}
use sensor_edge.Go.{eof, ok}
use sensor_edge.Prelude.{◌==◌, ◌%◌, ◌+◌, if◌then◌else◌, ℕ, List, String, none, some, [], ◌∷◌}
use sensor_edge.Drivers.Tcp
use sensor_edge.Drivers.Slmp
use sensor_edge.Drivers.S7
use sensor_edge.Drivers.Snmp

-- The world counts the exchanges; every third read of a socket fails, and the others are short.
abbrev sockets : Net ℕ
sockets = record {
  dial = λ address w. (ok 1, w);
  write = λ conn bytes w. w;
  read = λ conn w. (if w % 3 == 2 then ([], some eof) else (1 ∷ 2 ∷ [], none), w + 1);
  close = λ conn w. (none, w);
  unix = λ w. w;
}

abbrev siemens : Gos7 ℕ
siemens = record {
  new_handler = λ ip rack slot w. (0, w);
  connect = λ h w. (none, w);
  close = λ h w. (none, w);
  ag_read_db = λ h db start size w. ((1 ∷ 0 ∷ [], none), w + 1);
  unix = λ w. w;
}

abbrev agent : Gosnmp ℕ
agent = record {
  new = λ target w. (0, w);
  connect = λ n w. (none, w);
  get = λ n oids w. (([], some eof), w);
  close = λ n w. (ok none, w);
  unix = λ w. w;
  uint16_of = λ v. v;
  string_of = λ b. "";
}

abbrev asked : List String
asked = "a" ∷ "b" ∷ "c" ∷ []

read_with_retry-IsOneAttempt_example :
    IsOneAttempt
      (tcp_protocol sockets)
      "plc"
      "03"
      asked
      3
      (record { t = record Tcp.new_tcp_client { conn = some 1 }; world = 0 })
    × IsOneAttempt
        (slmp_protocol sockets)
        "plc"
        "03"
        asked
        3
        (record { s = record Slmp.new_slmp_client { conn = some 1 }; world = 0 })
    × IsOneAttempt
        (s7_protocol siemens)
        "plc"
        "03"
        asked
        3
        (record { s = record S7.new_s7_client { client = some 0 }; world = 0 })
    × IsOneAttempt
        (snmp_protocol agent)
        "plc"
        "03"
        asked
        3
        (record { s = record Snmp.new_snmp_client { client = some 0 }; world = 0 })
read_with_retry-IsOneAttempt_example =
    read_with_retry-IsOneAttempt "plc" "03" asked 2 0 sockets Tcp.new_tcp_client
      Slmp.new_slmp_client 1 siemens S7.new_s7_client 0 agent Snmp.new_snmp_client 0
