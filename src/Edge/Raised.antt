-- ===== src/Edge/Raised.antt =====
-- When an alarm rule is raised, as a relation.
use text.Mathlib.TextEquality.{eq_iff}
use text.Mathlib.Text.{◌==◌ as str_eq}
use sensor_edge.Edge.{
  AlarmRuleEdge, Govaluate, alarm_triggers, eval_expression, is_true, widen, value_triggers,
}
use sensor_edge.Floats.{Floats}
use sensor_edge.Prelude.{
  arith, ap, refl, ◌∙◌, ◌≡◌, true, false, some, none, pos, Bool, Bool-cases, inl, inr, ℕ, ℤ, List,
  Option, String,
}
use sensor_edge.Prelude.Dict.{Dict, lookup}
use sensor_edge.Value.{
  Value, nil, bool, int, int16, int32, int64, uint, uint16, uint32, uint64, float32, float64,
  string, bytes, words, bools, object_id, other,
}

-- The types that become float64 before a condition is evaluated, with the number that a value stands
-- for; a value of any other type is left as it is.
pub data IsWidened (fl : Floats) : Value → Value → Type 0 where
  single : (v : ℕ) → IsWidened fl (float32 v) (float64 (fl.of_float32 v))
  from_int : (z : ℤ) → IsWidened fl (int z) (float64 (fl.of_int z))
  from_int32 : (z : ℤ) → IsWidened fl (int32 z) (float64 (fl.of_int z))
  from_int64 : (z : ℤ) → IsWidened fl (int64 z) (float64 (fl.of_int z))
  from_uint16 : (v : ℕ) → IsWidened fl (uint16 v) (float64 (fl.of_int (pos v)))
  from_uint32 : (v : ℕ) → IsWidened fl (uint32 v) (float64 (fl.of_int (pos v)))
  from_uint64 : (v : ℕ) → IsWidened fl (uint64 v) (float64 (fl.of_int (pos v)))
  same_nil : IsWidened fl nil nil
  same_bool : (b : Bool) → IsWidened fl (bool b) (bool b)
  same_int16 : (z : ℤ) → IsWidened fl (int16 z) (int16 z)
  same_uint : (v : ℕ) → IsWidened fl (uint v) (uint v)
  same_float64 : (v : ℕ) → IsWidened fl (float64 v) (float64 v)
  same_string : (s : String) → IsWidened fl (string s) (string s)
  same_bytes : (bs : List ℕ) → IsWidened fl (bytes bs) (bytes bs)
  same_words : (ws : List ℕ) → IsWidened fl (words ws) (words ws)
  same_bools : (bs : List Bool) → IsWidened fl (bools bs) (bools bs)
  same_object_id : (t i : ℕ) → IsWidened fl (object_id t i) (object_id t i)
  same_other : IsWidened fl other other

module _ (g : Govaluate) (fl : Floats) where
  widen-IsWidened : (v : Value) → IsWidened fl v (widen fl v)
  unfolding widen
  widen-IsWidened nil = same_nil
  widen-IsWidened (bool b) = same_bool b
  widen-IsWidened (int z) = from_int z
  widen-IsWidened (int16 z) = same_int16 z
  widen-IsWidened (int32 z) = from_int32 z
  widen-IsWidened (int64 z) = from_int64 z
  widen-IsWidened (uint v) = same_uint v
  widen-IsWidened (uint16 v) = from_uint16 v
  widen-IsWidened (uint32 v) = from_uint32 v
  widen-IsWidened (uint64 v) = from_uint64 v
  widen-IsWidened (float32 v) = single v
  widen-IsWidened (float64 v) = same_float64 v
  widen-IsWidened (string s) = same_string s
  widen-IsWidened (bytes bs) = same_bytes bs
  widen-IsWidened (words ws) = same_words ws
  widen-IsWidened (bools bs) = same_bools bs
  widen-IsWidened (object_id t i) = same_object_id t i
  widen-IsWidened other = same_other

  IsWidened-widen : (v x : Value) → IsWidened fl v x → widen fl v ≡ x
  unfolding widen
  IsWidened-widen _ _ (single v) = refl
  IsWidened-widen _ _ (from_int z) = refl
  IsWidened-widen _ _ (from_int32 z) = refl
  IsWidened-widen _ _ (from_int64 z) = refl
  IsWidened-widen _ _ (from_uint16 v) = refl
  IsWidened-widen _ _ (from_uint32 v) = refl
  IsWidened-widen _ _ (from_uint64 v) = refl
  IsWidened-widen _ _ same_nil = refl
  IsWidened-widen _ _ (same_bool b) = refl
  IsWidened-widen _ _ (same_int16 z) = refl
  IsWidened-widen _ _ (same_uint v) = refl
  IsWidened-widen _ _ (same_float64 v) = refl
  IsWidened-widen _ _ (same_string s) = refl
  IsWidened-widen _ _ (same_bytes bs) = refl
  IsWidened-widen _ _ (same_words ws) = refl
  IsWidened-widen _ _ (same_bools bs) = refl
  IsWidened-widen _ _ (same_object_id t i) = refl
  IsWidened-widen _ _ same_other = refl

  -- The condition parses, and evaluates to the bool true for the value.
  pub record IsTrueFor (condition : String) (x : Value) : Type 0 where
    pub expression : g.Expression
    pub parses : g.parse condition ≡ some expression
    pub evaluates : g.evaluate expression x ≡ some (bool true)

  pub eval-IsTrueFor :
      (condition : String) (x : Value)
      → is_true (eval_expression g condition x) ≡ true
      → IsTrueFor condition x
  unfolding eval_expression
  eval-IsTrueFor condition x h = parsed (g.parse condition) refl h
    where
      evaluated : (o : Option Value) → is_true o ≡ true → o ≡ some (bool true)
      evaluated none k = absurd (cc k)
      evaluated (some v) k = ground arith

      parsed :
          (o : Option g.Expression)
          → g.parse condition ≡ o
          → is_true (elim o as (λ _. Option Value) [ none ↦ none | some e ↦ g.evaluate e x ]) ≡ true
          → IsTrueFor condition x
      parsed none e k = absurd (cc k)
      parsed (some e) p k = record {
        expression = e;
        parses = p;
        evaluates = evaluated (g.evaluate e x) k;
      }

  pub IsTrueFor-eval :
      (condition : String) (x : Value)
      → IsTrueFor condition x
      → is_true (eval_expression g condition x) ≡ true
  unfolding eval_expression
  IsTrueFor-eval condition x t =
      ap (λ o. is_true (elim o as (λ _. Option Value) [ none ↦ none | some e ↦ g.evaluate e x ]))
        t.parses
      ∙ ap is_true t.evaluates

  module _ (device : String) (points : Dict Value) where
    -- The rule is one of the device, and its condition is true for the value of its point.
    pub record IsRaised (rule : AlarmRuleEdge) : Type 0 where
      pub of_device : rule.device_id ≡ device
      pub value : Value
      pub there : lookup rule.point points ≡ some value
      pub number : Value
      pub widened : IsWidened fl value number
      pub holds : IsTrueFor rule.condition number

    pub triggers-IsRaised :
        (rule : AlarmRuleEdge) → alarm_triggers g fl device points rule ≡ true → IsRaised rule
    triggers-IsRaised rule h = elim (Bool-cases (str_eq rule.device_id device)) [
      | inr apart ↦ absurd (not_true apart)
      | inl same ↦ found same (lookup rule.point points) refl (value_true same)
    ]
      where
        not_true : str_eq rule.device_id device ≡ false → ⊥
        not_true apart = ground arith

        value_true :
            str_eq rule.device_id device ≡ true
            → value_triggers g (widen fl) rule.condition (lookup rule.point points) ≡ true
        value_true same = ground arith

        found :
            str_eq rule.device_id device ≡ true
            → (o : Option Value) → lookup rule.point points ≡ o
            → value_triggers g (widen fl) rule.condition o ≡ true
            → IsRaised rule
        found same none e k = absurd (cc k)
        found same (some v) e k = record {
          of_device = (eq_iff rule.device_id device).0 same;
          value = v;
          there = e;
          number = widen fl v;
          widened = widen-IsWidened v;
          holds = eval-IsTrueFor rule.condition (widen fl v) k;
        }

    pub IsRaised-triggers :
        (rule : AlarmRuleEdge) → IsRaised rule → alarm_triggers g fl device points rule ≡ true
    IsRaised-triggers rule r = rw ((eq_iff rule.device_id device).1 r.of_device) (
        rw r.there (
          ap (λ x. is_true (eval_expression g rule.condition x))
            (IsWidened-widen r.value r.number r.widened)
          ∙ IsTrueFor-eval rule.condition r.number r.holds))
