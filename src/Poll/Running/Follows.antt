-- ===== src/Poll/Running/Follows.antt =====
-- What the steps of the goroutines do to the rule engine that they share.
use sensor_edge.Edge.Buffers.{AllBounded, aggregate_all-AllBounded}
use sensor_edge.Go.{◌>>=◌, panic, err, ok, Outcome}
use sensor_edge.Poll.Points.{extract_point_addresses, FunctionPointGroup}
use sensor_edge.Poll.Round.{
  apply_to, declare_points, store_values, values_or_none, Poll, poll_group, DataReport,
}
use sensor_edge.Uplink.Manager.{encode_data_report, send_to_all, Uplink, Channels}
use sensor_edge.Poll.Convert.{Numerics}
use sensor_edge.Poll.Retry.{read_with_retry, Protocol}
use text.Mathlib.TextEquality.{eq_iff}
use text.Mathlib.Text.{◌==◌ as str_eq}
use sensor_edge.Floats.{Floats}
use sensor_edge.Value.{PointValue, Value}
use sensor_edge.Prelude.Dict.{lookup-insert, lookup-insert_ne, lookup, Dict}
use sensor_edge.Prelude.{
  ◌++◌, get_elem?, false, true, none, [], ap, inl, inr, if◌then◌else◌, Bool-cases, refl, Bool, ◌∷◌,
  ℕ, some, Option, ◌∙◌, ◌≡◌, List, String,
}
use sensor_edge.Poll.Running.{
  turn_of, report_for, after_step, sent_to, advances, with_own_client, step_in, Phase, starting,
  waiting, collecting, Loop, Shared, System, turn, step,
}
use sensor_edge.Edge.{
  buffer_key, Govaluate, add, aggregate, aggregate_all, aggregate_value, apply_rules, buffer_or_new,
  float_of, PointBuffer, AggregateRule, RuleEngine,
}
use sensor_edge.Edge.Extract.{
  DeviceEdgeRules, extract_aggregate_rules, extract_alarm_rules, extract_linkage_rules,
}

-- Every buffer that was there is there, with its window.
abbrev pub KeepsWindows : Dict PointBuffer → Dict PointBuffer → Type 0
KeepsWindows before after =
    (k : String) (b : PointBuffer)
    → lookup k before ≡ some b
    → (b' : PointBuffer) × (lookup k after ≡ some b') × (b'.size ≡ b.size)

pub KeepsWindows-trans :
    (x y z : Dict PointBuffer) → KeepsWindows x y → KeepsWindows y z → KeepsWindows x z
KeepsWindows-trans x y z f g k b e =
    let (c, there, same) = f k b e in let (d, here, again) = g k c there in (d, here, again ∙ same)

aggregate_value-KeepsWindows :
    (device : String) (rule : AggregateRule) (buffers : Dict PointBuffer) (o : Option ℕ)
    → KeepsWindows buffers (aggregate_value device rule buffers o)
aggregate_value-KeepsWindows device rule buffers none k b e = (b, e, refl)
aggregate_value-KeepsWindows device rule buffers (some v) k b e = elim (Bool-cases (str_eq key k)) [
  | inr apart ↦ (b, lookup-insert_ne key k grown buffers apart ∙ e, refl)
  | inl same ↦ (
    grown,
    lookup-insert key k grown buffers ∙ rw same,
    grown_size (lookup key buffers) (ap (λ j. lookup j buffers) ((eq_iff key k).0 same) ∙ e),
  )
]
  where
    key : String
    key = buffer_key device rule.point

    grown : PointBuffer
    grown = add (buffer_or_new rule.window (lookup key buffers)) v

    grown_size :
        (o : Option PointBuffer) → o ≡ some b → (add (buffer_or_new rule.window o) v).size ≡ b.size
    grown_size none h = cc
    grown_size (some c) h = unfold add in cc

aggregate_all-KeepsWindows :
    (device : String) (points : Dict Value) (rules : List AggregateRule)
    (buffers : Dict PointBuffer)
    → KeepsWindows buffers (aggregate_all device points rules buffers)
unfolding aggregate_all aggregate
aggregate_all-KeepsWindows device points [] buffers = λ k b e. (b, e, refl)
aggregate_all-KeepsWindows device points (rule ∷ rules) buffers =
    KeepsWindows-trans buffers (aggregate device points rule buffers) _
      (of_device (str_eq rule.device_id device))
      (aggregate_all-KeepsWindows device points rules (aggregate device points rule buffers))
  where
    of_device :
        (b : Bool)
        → KeepsWindows buffers (
            if b
            then aggregate_value device rule buffers (float_of (lookup rule.point points))
            else buffers)
    of_device true = aggregate_value-KeepsWindows device rule buffers _
    of_device false = λ k b e. (b, e, refl)

-- The rules are those of the groups of a file.
pub record HasRules (drs : List DeviceEdgeRules) (r : RuleEngine) : Type 0 where
  pub aggregates : r.agg_rules ≡ extract_aggregate_rules drs
  pub alarms : r.alarm_rules ≡ extract_alarm_rules drs
  pub linkages : r.linkage_rules ≡ extract_linkage_rules drs

-- What a goroutine's step does to the engine: the rules stay, and so do the windows and their bounds.
pub record Follows (r r' : RuleEngine) : Type 0 where
  pub rules : (drs : List DeviceEdgeRules) → HasRules drs r → HasRules drs r'
  pub windows : KeepsWindows r.buffers r'.buffers
  pub bounded : AllBounded r.buffers → AllBounded r'.buffers

Follows-refl : (r : RuleEngine) → Follows r r
Follows-refl r = record { rules = λ drs h. h; windows = λ k b e. (b, e, refl); bounded = λ h. h }

apply_rules-Follows :
    (g : Govaluate) (fl : Floats) (device : String) (points : Dict Value) (r : RuleEngine)
    → Follows r (apply_rules g fl device points r).0
unfolding apply_rules
apply_rules-Follows g fl device points r = record {
  rules = λ drs h. record { aggregates = h.aggregates; alarms = h.alarms; linkages = h.linkages };
  windows = aggregate_all-KeepsWindows device points r.agg_rules r.buffers;
  bounded = aggregate_all-AllBounded device points r.agg_rules r.buffers;
}

module _ {P W : Type 0} (c : Protocol P) (n : Numerics) (g : Govaluate) (lib : Channels W)
    (marshal : DataReport → List ℕ) (now : W → ℕ) (uplinks : List Uplink) where
  poll_group-Follows :
      (device : String) (f : FunctionPointGroup) (all : Dict Value) (s : Poll P)
      → Follows s.engine (poll_group c n g device f all s).1.engine
  unfolding poll_group
  poll_group-Follows device f all s = applied stored p
    where
      read : Outcome (List PointValue) × P
      read = read_with_retry c device f.function (extract_point_addresses f.points) 3 s.driver

      stored : Outcome (Dict Value)
      stored =
          values_or_none read.0 >>= λ vs. store_values n f.points vs (declare_points f.points all)

      p : P
      p = read.1

      applied :
          (r : Outcome (Dict Value)) (q : P)
          → Follows s.engine (apply_to c n g device r (record s { driver = q })).1.engine
      applied (ok all') q = apply_rules-Follows g n.floats device all' s.engine
      applied (err e) q = Follows-refl s.engine
      applied panic q = Follows-refl s.engine

  step_in-Follows :
      (l : Loop) (ph : Phase) (p : P) (s : Shared P W)
      → Follows s.engine (step_in c n g lib marshal now uplinks l ph p s).1.engine
  step_in-Follows l starting p s = Follows-refl s.engine
  step_in-Follows l waiting p s = Follows-refl s.engine
  step_in-Follows l (collecting [] all) p s = to (
      send_to_all lib uplinks
        (encode_data_report marshal (now s.world) l.started.set.device_id all [] []) s.world)
    where
      to :
          (r : Outcome (Unit {0}) × W)
          → Follows s.engine
              (sent_to c n g lib marshal now uplinks l r (record s {
                sent = s.sent ++ report_for c n g lib marshal now uplinks l all s.world ∷ [];
              })).1.engine
      to (ok x, w) = Follows-refl s.engine
      to (err e, w) = Follows-refl s.engine
      to (panic, w) = Follows-refl s.engine
  step_in-Follows l (collecting (f ∷ left) all) p s =
      poll_group-Follows l.started.set.device_id f all (record { driver = p; engine = s.engine })

  step-Follows :
      (l : Loop) (s : Shared P W)
      → Follows s.engine (step c n g lib marshal now uplinks l s).1.engine
  unfolding step
  step-Follows l s = own (get_elem? s.clients l.started.client)
    where
      own :
          (o : Option P)
          → Follows s.engine (with_own_client c n g lib marshal now uplinks l o s).1.engine
      own none = Follows-refl s.engine
      own (some p) = step_in-Follows l l.phase p s

  pub turn-Follows :
      (i : ℕ) (sys : System P W)
      → Follows sys.shared.engine
          (advances c n g lib marshal now uplinks (turn i) sys).shared.engine
  turn-Follows i sys = of_loop (get_elem? sys.loops i)
    where
      after :
          (r : Outcome Loop × Shared P W)
          → Follows sys.shared.engine r.1.engine
          → Follows sys.shared.engine
              (after_step c n g lib marshal now uplinks i sys r).shared.engine
      after (ok l, s) h = h
      after (err e, s) h = h
      after (panic, s) h = h

      of_loop :
          (o : Option Loop)
          → Follows sys.shared.engine (turn_of c n g lib marshal now uplinks i o sys).shared.engine
      of_loop none = Follows-refl sys.shared.engine
      of_loop (some l) =
          after (step c n g lib marshal now uplinks l sys.shared) (step-Follows l sys.shared)
