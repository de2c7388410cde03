-- ===== src/Edge.antt =====
-- Edge computing: types/edge_rule.go, schema/data_report.go, mapping/mapper.go and
-- edgecompute/rule_engine.go.
pub mod Window
pub mod Buffers
pub mod Shared
pub mod Raised
pub mod Alarms
pub mod Extract
use sensor_edge.Prelude.Int.{ltb_ℤ}
use text.Mathlib.Text.{◌==◌ as str_eq}
use sensor_edge.Value.{uint64, uint32, uint16, int64, int32, int, bool, float64, float32, Value}
use sensor_edge.Floats.{Floats}
use sensor_edge.Prelude.{
  ◌&&◌, ◌==◌, pos, none, false, length, ◌∷◌, ◌++◌, if◌then◌else◌, [], some, Bool, String, ℤ, ℕ,
  List, Option,
}
use Prim.Native.String
use sensor_edge.Prelude.Dict.{Dict, lookup, insert}

pub record AggregateRule : Type 0 where
  pub id : String
  pub description : String
  pub kind : String  -- Type
  pub device_id : String
  pub point : String
  pub method : String
  pub window : ℤ

pub record AlarmRuleEdge : Type 0 where
  pub id : String
  pub description : String
  pub kind : String
  pub device_id : String
  pub point : String
  pub condition : String
  pub level : String
  pub message : String

pub record LinkageRule : Type 0 where
  pub id : String
  pub description : String
  pub kind : String
  pub source_device : String
  pub source_point : String
  pub condition : String
  pub action_device : String
  pub action_address : String
  pub action_value : Value

-- A sliding window of float64 values.
pub record PointBuffer : Type 0 where
  pub values : List ℕ
  pub size : ℤ

-- b.Values[1:]
abbrev pub tail {ℓ} : {A : Type ℓ} → List A → List A
tail [] = []
tail (x ∷ xs) = xs

unfoldable pub add : PointBuffer → ℕ → PointBuffer
add b v =
    let grown = b.values ++ v ∷ [] in
    record b { values = if ltb_ℤ b.size (pos (length grown)) then tail grown else grown }

sum_from : Floats → ℕ → List ℕ → ℕ
sum_from fl sum [] = sum
sum_from fl sum (v ∷ vs) = sum_from fl (fl.add sum v) vs

-- The bit pattern of 0.0 is 0.
unfoldable pub avg : Floats → PointBuffer → ℕ
unfolding sum_from
avg fl b =
    if length b.values == 0
    then 0
    else fl.div (sum_from fl 0 b.values) (fl.of_int (pos (length b.values)))

pub record AlarmInfo : Type 0 where
  pub name : String
  pub level : String
  pub message : String

-- github.com/Knetic/govaluate: parsing, and evaluation with the parameter `value`. `none` is an
-- error; its text is only printed.
pub record Govaluate : Type 1 where
  pub Expression : Type 0
  pub parse : String → Option Expression
  pub evaluate : Expression → Value → Option Value

unfoldable pub eval_expression : Govaluate → String → Value → Option Value
eval_expression g expr v = elim (g.parse expr) [ none ↦ none | some e ↦ g.evaluate e v ]

pub record RuleEngine : Type 0 where
  pub agg_rules : List AggregateRule
  pub alarm_rules : List AlarmRuleEdge
  pub linkage_rules : List LinkageRule
  pub buffers : Dict PointBuffer
  pub last_alarms : List AlarmInfo

unfoldable pub new_rule_engine :
    List AggregateRule → List AlarmRuleEdge → List LinkageRule → RuleEngine
new_rule_engine agg alarm linkage = record {
  agg_rules = agg;
  alarm_rules = alarm;
  linkage_rules = linkage;
  buffers = [];
  last_alarms = [];
}

abbrev pub buffer_key : String → String → String
buffer_key device point = String.◌++◌ device (String.◌++◌ "." point)

-- val, ok := pointMap[point]; fval, ok := val.(float64)
abbrev pub float_of : Option Value → Option ℕ
float_of (some (float64 v)) = some v
float_of _ = none

abbrev pub buffer_or_new : ℤ → Option PointBuffer → PointBuffer
buffer_or_new window (some b) = b
buffer_or_new window none = record { values = []; size = window }

abbrev pub aggregate_value : String → AggregateRule → Dict PointBuffer → Option ℕ → Dict PointBuffer
aggregate_value device rule buffers none = buffers
aggregate_value device rule buffers (some v) =
    let key = buffer_key device rule.point in
    insert key (add (buffer_or_new rule.window (lookup key buffers)) v) buffers

-- One round of the loop over the aggregate rules.
unfoldable pub aggregate : String → Dict Value → AggregateRule → Dict PointBuffer → Dict PointBuffer
aggregate device points rule buffers =
    if str_eq rule.device_id device
    then aggregate_value device rule buffers (float_of (lookup rule.point points))
    else buffers

unfoldable pub aggregate_all :
    String → Dict Value → List AggregateRule → Dict PointBuffer → Dict PointBuffer
aggregate_all device points [] buffers = buffers
aggregate_all device points (rule ∷ rules) buffers =
    aggregate_all device points rules (aggregate device points rule buffers)

-- The conversion in front of an alarm's condition: govaluate knows float64 only.
unfoldable pub widen : Floats → Value → Value
widen fl (float32 v) = float64 (fl.of_float32 v)
widen fl (int v) = float64 (fl.of_int v)
widen fl (int32 v) = float64 (fl.of_int v)
widen fl (int64 v) = float64 (fl.of_int v)
widen fl (uint16 v) = float64 (fl.of_int (pos v))
widen fl (uint32 v) = float64 (fl.of_int (pos v))
widen fl (uint64 v) = float64 (fl.of_int (pos v))
widen fl v = v

-- err == nil, and the result is the bool true
abbrev pub is_true : Option Value → Bool
is_true (some (bool b)) = b
is_true _ = false

abbrev pub value_triggers : Govaluate → (Value → Value) → String → Option Value → Bool
value_triggers g convert condition none = false
value_triggers g convert condition (some v) = is_true (eval_expression g condition (convert v))

abbrev pub alarm_triggers : Govaluate → Floats → String → Dict Value → AlarmRuleEdge → Bool
alarm_triggers g fl device points rule =
    str_eq rule.device_id device
    && value_triggers g (widen fl) rule.condition (lookup rule.point points)

abbrev pub alarm_info : AlarmRuleEdge → AlarmInfo
alarm_info rule = record { name = rule.point; level = rule.level; message = rule.message }

-- The loop over the alarm rules, from the alarms so far.
unfoldable pub alarm_all :
    Govaluate → Floats → String → Dict Value → List AlarmRuleEdge → List AlarmInfo → List AlarmInfo
alarm_all g fl device points [] alarms = alarms
alarm_all g fl device points (rule ∷ rules) alarms =
    alarm_all g fl device points rules
      (if alarm_triggers g fl device points rule then alarms ++ alarm_info rule ∷ [] else alarms)

-- The controls that the linkage rules print: device, address, value. The value is not converted.
unfoldable pub linkage_all :
    Govaluate → String → Dict Value → List LinkageRule → List (String × String × Value)
linkage_all g device points [] = []
linkage_all g device points (rule ∷ rules) =
    let more = linkage_all g device points rules in
    if str_eq rule.source_device device
      && value_triggers g (λ v. v) rule.condition (lookup rule.source_point points)
    then (rule.action_device, rule.action_address, rule.action_value) ∷ more
    else more

-- ApplyRules: the new state, and the controls that the linkage rules print. The log files and the
-- printed averages are not modelled.
unfoldable pub apply_rules :
    Govaluate
    → Floats
    → String
    → Dict Value
    → RuleEngine
    → RuleEngine × List (String × String × Value)
apply_rules g fl device points r = (
  record r {
    buffers = aggregate_all device points r.agg_rules r.buffers;
    last_alarms = alarm_all g fl device points r.alarm_rules [];
  },
  linkage_all g device points r.linkage_rules,
)
