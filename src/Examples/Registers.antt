-- ===== src/Examples/Registers.antt =====
-- Two groups of points of a small device, from its memory to the report.
use text.Mathlib.Text.{◌==◌ as str_eq}
use text.Mathlib.TextEquality.{eq_iff}
use sensor_edge.Modbus.Batch.{plain}
use sensor_edge.Edge.{new_rule_engine}
use sensor_edge.Examples.Device.{
  memory-input_registers, memory-holding_registers, plant, cell, cell_in, flag, flag_in, memory,
  online, memory-coils, memory-discrete_inputs,
}
use sensor_edge.Go.{ok-injective, ok}
use sensor_edge.Examples.Values.{doubling, mapping}
use sensor_edge.Value.{bool, int, float64, uint16, Value}
use sensor_edge.Modbus.Session.{Session}
use sensor_edge.Poll.Points.{DevicePointSetV2, extract_point_addresses, PointMapping}
use sensor_edge.Prelude.Dict.{lookup, Dict}
use sensor_edge.Poll.Convert.{type_value, transform_value, format_value, convert}
use sensor_edge.Modbus.Points.{AddrPoint, collect_points}
use sensor_edge.Poll.Round.{Poll, find_point}
use sensor_edge.Prelude.{
  false, ◌≢◌, true, pos, inr, inl, ap, ◌∙◌, sym, refl, [], map, ◌∷◌, some, ◌≡◌, ℕ, List,
}
use sensor_edge.Modbus.Address.{sscanf_d, parse_address}
use sensor_edge.Modbus.Batch.Outage.{modbus_protocol}
use sensor_edge.Examples.Engine.{equality}
use sensor_edge.Poll.Owned.{Own, Quiet}
use sensor_edge.Poll.Stored
use sensor_edge.Poll.Stored.{In}
use sensor_edge.Modbus.Batch.Codes.{Memory, held}
use sensor_edge.Poll.Plant.Rounds.{poll_round-memory}
use sensor_edge.Modbus.Session.{set_slave}
use sensor_edge.Modbus.Batch.Memory.{Through}
use sensor_edge.Poll.Round.{poll_round, choose_slave, DataReport}

abbrev cells : Memory
cells = record { coil_at = flag; discrete_at = flag_in; holding_at = cell; input_at = cell_in }

abbrev level : PointMapping
level = record (mapping "level" "" "") { address = "40012"; kind = "" }

abbrev tank : List PointMapping
tank = mapping "t1" "" "" ∷ level ∷ []

abbrev tank_at : List AddrPoint
tank_at =
    record { addr = 10; name = "40011"; format = "" }
    ∷ record { addr = 11; name = "40012"; format = "" }
    ∷ []

tank_parsed : collect_points (map (plain memory) (extract_point_addresses tank)) ≡ ok tank_at
unfolding collect_points parse_address sscanf_d extract_point_addresses
tank_parsed = refl

at_11 : parse_address "40012" ≡ ok 11
unfolding parse_address sscanf_d
at_11 = refl

at_10 : parse_address "40011" ≡ ok 10
unfolding parse_address sscanf_d
at_10 = refl

level_at_11 : convert doubling level (held cells "03" 11) ≡ ok (uint16 33)
unfolding convert format_value transform_value type_value
level_at_11 = refl

t1_at_10 : convert doubling (mapping "t1" "" "") (held cells "03" 10) ≡ ok (float64 30)
unfolding convert format_value transform_value type_value
t1_at_10 = refl

converts :
    (points : List PointMapping) (value : ℕ → Value) (q : PointMapping) (b : ℕ) (x : Value)
    → parse_address q.address ≡ ok b
    → convert doubling q (value b) ≡ ok x
    → Quiet doubling points value q
converts points value q b x at e a parsed bad =
    let same = ok-injective b a (sym at ∙ parsed) in
    let stays = sym e ∙ ap (λ i. convert doubling q (value i)) same ∙ bad in cc

abbrev valve : PointMapping
valve = record (mapping "valve" "" "") { address = "40020"; kind = "" }

abbrev pump : List PointMapping
pump = valve ∷ []

abbrev pump_at : List AddrPoint
pump_at = record { addr = 19; name = "40020"; format = "" } ∷ []

pump_parsed : collect_points (map (plain memory) (extract_point_addresses pump)) ≡ ok pump_at
unfolding collect_points parse_address sscanf_d extract_point_addresses
pump_parsed = refl

at_19 : parse_address "40020" ≡ ok 19
unfolding parse_address sscanf_d
at_19 = refl

valve_at_19 : convert doubling valve (held cells "01" 19) ≡ ok (bool true)
unfolding convert format_value transform_value type_value
valve_at_19 = refl

tank-Own : Stored.All (Own tank) tank
unfolding find_point
tank-Own = (refl, (refl, tt))

pump-Own : Stored.All (Own pump) pump
unfolding find_point
pump-Own = (refl, tt)

tank-Quiet : Stored.All (Quiet doubling tank (held cells "03")) tank
tank-Quiet = (
  converts tank (held cells "03") (mapping "t1" "" "") 10 (float64 30) at_10 t1_at_10,
  (converts tank (held cells "03") level 11 (uint16 33) at_11 level_at_11, tt),
)

pump-Quiet : Stored.All (Quiet doubling pump (held cells "01")) pump
pump-Quiet = (converts pump (held cells "01") valve 19 (bool true) at_19 valve_at_19, tt)

names_differ : (q r : PointMapping) → str_eq q.name r.name ≡ false → q.name ≢ r.name
names_differ q r apart e = let same = (eq_iff q.name r.name).1 e in cc

not-In-tank : ¬ In valve tank
not-In-tank here = elim here [
  | inl e ↦ names_differ (mapping "t1" "" "") valve refl (ap (λ (q : PointMapping). q.name) e)
  | inr more ↦ elim more [
    | inl e ↦ names_differ level valve refl (ap (λ (q : PointMapping). q.name) e)
    | inr none_ ↦ none_
  ]
]

abbrev station : DevicePointSetV2
station = record {
  device_id = "station";
  protocol = "modbus_tcp";
  protocol_name = "plc1";
  functions =
      record { function = "03"; points = tank } ∷ record { function = "01"; points = pump } ∷ [];
}

abbrev station_config : Dict Value
station_config = ("slave_id", int (pos 1)) ∷ []

abbrev idle : Poll (Session ℕ)
idle = record { driver = online; engine = new_rule_engine [] [] [] }

slave_is_set : Through plant (
    choose_slave
      (modbus_protocol memory)
      doubling
      equality
      (lookup "slave_id" station_config)
      online)
unfolding choose_slave lookup set_slave
slave_is_set = (refl, refl)

poll_round-memory_example :
    (report : DataReport) × (u : Poll (Session ℕ)) × (poll_round
        (modbus_protocol memory)
        doubling
        equality
        station
        station_config
        100
        idle
      ≡ (ok report, u))
    × (lookup "valve" report.values ≡ some (bool true))
    × Through plant u.driver
poll_round-memory_example =
    poll_round-memory memory doubling equality cells plant station station_config 100 idle valve 19
      (bool true)
      (memory-holding_registers, memory-input_registers, memory-coils, memory-discrete_inputs)
      (
        ((tank_at, tank_parsed), tank-Own, tank-Quiet),
        (((pump_at, pump_parsed), pump-Own, pump-Quiet), tt),
      )
      slave_is_set
      (
        (
          (
            (λ e. absurd (names_differ (mapping "t1" "" "") valve refl e)),
            ((λ e. absurd (names_differ level valve refl e)), tt),
          ),
          λ here. absurd (not-In-tank here),
        ),
        ((((λ e. refl), tt), λ here. valve_at_19), tt),
      )
      (inr (inl (inl refl))) at_19
