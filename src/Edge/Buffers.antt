-- ===== src/Edge/Buffers.antt =====
-- The buffers of the rule engine over any number of rounds.
use text.Mathlib.Text.{◌==◌ as str_eq}
use sensor_edge.Floats.{Floats}
use sensor_edge.Value.{Value}
use sensor_edge.Prelude.Int.{pos_part}
use sensor_edge.Prelude.Dict.{lookup-insert_ne, lookup-insert, insert, lookup, Dict}
use sensor_edge.Prelude.{
  sym, if◌then◌else◌, ap, ◌∙◌, inr, ◌++◌, inl, [], length-append, Option-cases, ◌-◌, Bool-cases,
  ◌∷◌, List, ℤ, arith, some, ◌≡◌, String, ◌≤◌, length, ℕ,
}
use mathlib.Core.Path.{subst}
use sensor_edge.Edge.{
  float_of, LinkageRule, AlarmRuleEdge, Govaluate, new_rule_engine, tail, buffer_or_new,
  AggregateRule, PointBuffer, RuleEngine, add, aggregate, aggregate_all, apply_rules,
}

-- No buffer holds more values than its size; one with a negative size holds none.
abbrev pub IsBounded : PointBuffer → Type 0
IsBounded b = length b.values ≤ pos_part b.size

unfoldable pub AllBounded : Dict PointBuffer → Type 0
AllBounded buffers = (k : String) (b : PointBuffer) → lookup k buffers ≡ some b → IsBounded b

length-tail : (xs : List ℕ) → length (tail xs) ≡ length xs - 1
length-tail [] = omega arith
length-tail (x ∷ xs) = omega arith

add-IsBounded : (b : PointBuffer) (v : ℕ) → IsBounded b → IsBounded (add b v)
unfolding add
add-IsBounded b v h =
    ground (arith, length-append b.values (v ∷ []), length-tail (b.values ++ v ∷ []))

buffer_or_new-IsBounded :
    (window : ℤ) (k : String) (buffers : Dict PointBuffer)
    → AllBounded buffers
    → IsBounded (buffer_or_new window (lookup k buffers))
unfolding AllBounded
buffer_or_new-IsBounded window k buffers h = elim (Option-cases (lookup k buffers)) [
  | inl e ↦ rw e (omega arith)
  | inr (b, e) ↦ rw e (h k b e)
]

insert-AllBounded :
    (k : String) (b : PointBuffer) (buffers : Dict PointBuffer)
    → IsBounded b
    → AllBounded buffers
    → AllBounded (insert k b buffers)
unfolding AllBounded
insert-AllBounded k b buffers hb h j c e = elim (Bool-cases (str_eq k j)) [
  | inl same ↦
      subst IsBounded {x = b} {y = c}
        (cc (lookup-insert k j b buffers ∙ ap (λ t. if t then some b else lookup j buffers) same))
        hb
  | inr other ↦ h j c (sym (lookup-insert_ne k j b buffers other) ∙ e)
]

aggregate-AllBounded :
    (device : String) (points : Dict Value) (rule : AggregateRule) (buffers : Dict PointBuffer)
    → AllBounded buffers
    → AllBounded (aggregate device points rule buffers)
unfolding aggregate
aggregate-AllBounded device points rule buffers h =
    elim (Bool-cases (str_eq rule.device_id device)) [
      | inr e ↦ rw e h
      | inl e ↦ rw e (elim (Option-cases (float_of (lookup rule.point points))) [
        | inl f ↦ rw f h
        | inr (v, f) ↦ rw f (
            insert-AllBounded _ _ buffers
              (add-IsBounded _ v (buffer_or_new-IsBounded rule.window _ buffers h)) h)
      ])
    ]

pub aggregate_all-AllBounded :
    (device : String) (points : Dict Value) (rules : List AggregateRule)
    (buffers : Dict PointBuffer)
    → AllBounded buffers
    → AllBounded (aggregate_all device points rules buffers)
unfolding aggregate_all
aggregate_all-AllBounded device points [] buffers h = h
aggregate_all-AllBounded device points (rule ∷ rules) buffers h =
    aggregate_all-AllBounded device points rules (aggregate device points rule buffers)
      (aggregate-AllBounded device points rule buffers h)

-- Rounds of ApplyRules, each for a device with its points.
unfoldable pub apply_all : Govaluate → Floats → List (String × Dict Value) → RuleEngine → RuleEngine
apply_all g fl [] r = r
apply_all g fl ((device, points) ∷ rounds) r =
    apply_all g fl rounds (apply_rules g fl device points r).0

apply_all-AllBounded :
    (g : Govaluate) (fl : Floats) (rounds : List (String × Dict Value)) (r : RuleEngine)
    → AllBounded r.buffers
    → AllBounded (apply_all g fl rounds r).buffers
unfolding apply_all apply_rules
apply_all-AllBounded g fl [] r h = h
apply_all-AllBounded g fl ((device, points) ∷ rounds) r h =
    apply_all-AllBounded g fl rounds (apply_rules g fl device points r).0
      (aggregate_all-AllBounded device points r.agg_rules r.buffers h)

pub new_rule_engine-AllBounded :
    (agg : List AggregateRule) (alarm : List AlarmRuleEdge) (linkage : List LinkageRule)
    → AllBounded (new_rule_engine agg alarm linkage).buffers
unfolding AllBounded new_rule_engine lookup
new_rule_engine-AllBounded agg alarm linkage k b e = absurd (cc e)

-- However often a new engine is applied, for whatever devices and points, no buffer of it ever holds
-- more values than its window, and one with a negative window holds none.
pub apply_all-new_rule_engine :
    (g : Govaluate) (fl : Floats) (agg : List AggregateRule) (alarm : List AlarmRuleEdge)
    (linkage : List LinkageRule) (rounds : List (String × Dict Value)) (k : String)
    (b : PointBuffer)
    → lookup k (apply_all g fl rounds (new_rule_engine agg alarm linkage)).buffers ≡ some b
    → length b.values ≤ pos_part b.size
unfolding AllBounded new_rule_engine
apply_all-new_rule_engine g fl agg alarm linkage rounds =
    apply_all-AllBounded g fl rounds (new_rule_engine agg alarm linkage)
      (new_rule_engine-AllBounded agg alarm linkage)
