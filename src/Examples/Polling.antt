-- ===== src/Examples/Polling.antt =====
-- Polling a driver that fails twice and then answers.
use sensor_edge.Poll.Attempts.{read_with_retry-cases, IsGivenUp, IsDecided}
use sensor_edge.Prelude.Dict.{lookup, insert}
use sensor_edge.Value.{uint16, PointValue, nil}
use sensor_edge.Edge.{apply_rules, new_rule_engine}
use sensor_edge.Go.{eof, ok, err}
use sensor_edge.Poll.Round.{
  store_values, declare_points, poll_group, poll_groups, Poll, DataReport, poll_round,
}
use sensor_edge.Poll.Points.{DevicePointSetV2}
use sensor_edge.Prelude.{◌⊎◌, none, refl, ◌-◌, ◌==◌, if◌then◌else◌, List, ◌≡◌, ℕ, [], ◌∷◌}
use sensor_edge.Examples.Values.{doubling, mapping}
use sensor_edge.Examples.Engine.{equality}
use sensor_edge.Poll.Retry.{Protocol, read_with_retry}
use sensor_edge.Poll.Round.{choose_slave}

abbrev answered : List PointValue
answered = record { point_id = "40011"; value = uint16 21; quality = "good"; timestamp = 7 } ∷ []

-- The state is the number of reads that still fail.
abbrev pub slow : Protocol ℕ
slow = record {
  read_batch = λ dev function addrs n. if n == 0 then (ok answered, 0) else (err eof, n - 1);
  reconnect = λ n. (ok none, 0);
  set_slave = λ slave n. n;
}

read_with_retry-cases_example :
    IsDecided slow "boiler" "03"
      ("40011" ∷ [])
      3
      2
      (read_with_retry slow "boiler" "03" ("40011" ∷ []) 3 2)
    ⊎ IsGivenUp slow "boiler" "03"
        ("40011" ∷ [])
        2
        2
        (read_with_retry slow "boiler" "03" ("40011" ∷ []) 3 2)
read_with_retry-cases_example = read_with_retry-cases slow "boiler" "03" ("40011" ∷ []) 2 2

abbrev boiler : DevicePointSetV2
boiler = record {
  device_id = "boiler";
  protocol = "modbus_tcp";
  protocol_name = "plc1";
  functions =
      record { function = "03"; points = mapping "t1" "UINT" "" ∷ mapping "t2" "" "value * 2" ∷ [] }
      ∷ [];
}

abbrev polling : Poll ℕ
polling = record { driver = 5; engine = new_rule_engine [] [] [] }

-- All three reads fail: both points are reported without a value.
abbrev report : DataReport
report = record {
  device_id = "boiler";
  timestamp = 100;
  values = ("t1", nil) ∷ ("t2", nil) ∷ [];
  alarms = [];
  metrics = [];
}

round_reports : (poll_round slow doubling equality boiler [] 100 polling).0 ≡ ok report
unfolding poll_round poll_groups poll_group read_with_retry declare_points store_values insert
    apply_rules choose_slave lookup
round_reports = refl
