-- ===== src/Examples/Engine.antt =====
-- The rule engine over one boiler.
use text.Mathlib.Text.{◌==◌ as str_eq}
use sensor_edge.Value.{float64, bool, Value}
use sensor_edge.Prelude.Dict.{insert, lookup, Dict}
use sensor_edge.Edge.{
  PointBuffer, add, aggregate, buffer_key, aggregate_all, new_rule_engine, AggregateRule,
  apply_rules, Govaluate, AlarmRuleEdge, RuleEngine, LinkageRule,
}
use sensor_edge.Prelude.{
  none, if◌then◌else◌, false, refl, ◌==◌, some, true, Bool, pos, ◌≤◌, String, ◌≡◌, length, List, ℤ,
  [], ◌∷◌,
}
use sensor_edge.Examples.Values.{counting}
use sensor_edge.Edge.Alarms.{AreAlarms, apply_rules-AreAlarms}
use sensor_edge.Edge.Buffers.{apply_all}
use sensor_edge.Edge.Shared.{Rounds}
use sensor_edge.Edge.Window.{last_of, add_all, add_all-last_of}
use sensor_edge.Edge.Extract.{DeviceEdgeRules}

-- An expression is true for one value.
abbrev pub equality : Govaluate
equality = record {
  Expression = Value;
  parse = λ s. if str_eq s "value == 90" then some (float64 90) else none;
  evaluate = λ e v. some (bool (same e v));
}
  where
    same : Value → Value → Bool
    same (float64 a) (float64 b) = a == b
    same _ _ = false

abbrev pub averaging : ℤ → AggregateRule
averaging window = record {
  id = "a1";
  description = "";
  kind = "aggregate";
  device_id = "boiler";
  point = "temperature";
  method = "avg";
  window = window;
}

abbrev overheating : AlarmRuleEdge
overheating = record {
  id = "h1";
  description = "";
  kind = "alarm";
  device_id = "boiler";
  point = "temperature";
  condition = "value == 90";
  level = "high";
  message = "boiler too hot";
}

abbrev linking : LinkageRule
linking = record {
  id = "l1";
  description = "";
  kind = "linkage";
  source_device = "boiler";
  source_point = "temperature";
  condition = "value == 90";
  action_device = "valve";
  action_address = "00001";
  action_value = bool true;
}

abbrev hot : Dict Value
hot = ("temperature", float64 90) ∷ []

abbrev engine : RuleEngine
engine = new_rule_engine (averaging (pos 2) ∷ []) (overheating ∷ []) (linking ∷ [])

apply_rules-AreAlarms_example :
    let r = (apply_rules equality counting "boiler" hot engine).0 in
    AreAlarms equality counting "boiler" hot (overheating ∷ []) r.last_alarms
    × (r.agg_rules ≡ engine.agg_rules)
    × (r.alarm_rules ≡ engine.alarm_rules)
    × (r.linkage_rules ≡ engine.linkage_rules)
unfolding new_rule_engine
apply_rules-AreAlarms_example = apply_rules-AreAlarms equality counting "boiler" hot engine

abbrev three_rounds : List (String × Dict Value)
three_rounds = ("boiler", hot) ∷ ("boiler", hot) ∷ ("boiler", hot) ∷ []

buffer_found :
    lookup
      (buffer_key "boiler" "temperature")
      (apply_all equality counting three_rounds
        (new_rule_engine (averaging (pos 2) ∷ []) [] [])).buffers
    ≡ some (record { values = 90 ∷ 90 ∷ []; size = pos 2 })
unfolding apply_all apply_rules aggregate_all aggregate lookup insert add new_rule_engine
buffer_found = refl

abbrev held : PointBuffer
held = record { values = 90 ∷ 90 ∷ []; size = pos 2 }

add_all-last_of_example :
    let b = add_all (record { values = []; size = pos 2 }) (1 ∷ 2 ∷ 3 ∷ []) in
    (b.values ≡ last_of 2 (1 ∷ 2 ∷ 3 ∷ [])) × (length b.values ≤ 2)
add_all-last_of_example = add_all-last_of 2 (1 ∷ 2 ∷ 3 ∷ [])

-- Two rounds, and two rules for the point.
abbrev two_rounds : Rounds
two_rounds = (hot, 90) ∷ (hot, 90) ∷ []

abbrev twice : RuleEngine
twice = new_rule_engine (averaging (pos 5) ∷ averaging (pos 2) ∷ []) [] []

abbrev pub grouped : List DeviceEdgeRules
grouped =
    record { device_id = "boiler"; aggregates = averaging (pos 2) ∷ []; alarms = []; linkages = [] }
    ∷ record { device_id = "pump"; aggregates = averaging (pos 3) ∷ []; alarms = []; linkages = [] }
    ∷ []
