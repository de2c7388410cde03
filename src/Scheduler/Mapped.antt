-- ===== src/Scheduler/Mapped.antt =====
-- What the points of a tick are mapped to and which alarms they raise, as relations.
use text.Mathlib.Text.{◌==◌ as str_eq}
use text.Mathlib.TextEquality.{eq_iff}
use sensor_edge.Edge.{AlarmInfo, Govaluate, eval_expression, is_true}
use sensor_edge.Edge.Raised.{IsTrueFor, eval-IsTrueFor, IsTrueFor-eval}
use sensor_edge.Floats.{Floats}
use sensor_edge.Poll.Points.{PointMapping}
use sensor_edge.Prelude.{
  arith, ap, sym, refl, ◌∙◌, ◌≡◌, ◌≢◌, ◌&&◌, ◌++◌, if◌then◌else◌, Bool, Bool-cases, true, false,
  inl, inr, some, none, ◌∷◌, [], List, Option, String,
}
use sensor_edge.Prelude.Dict.{Dict, lookup, insert, lookup-insert, lookup-insert_ne}
use sensor_edge.Scheduler.{map_points, mapped_value, point_alarm, raw_values, result_or}
use sensor_edge.Value.{nil, PointValue, Value}
use mathlib.Core.Path.{subst}
use mathlib.Core.List.{append_assoc, append-nil}

-- The value of the last result with the address as its point, or else x.
pub read_at : List PointValue → String → Value → Value
read_at [] address x = x
read_at (v ∷ vs) address x = read_at vs address (if str_eq v.point_id address then v.value else x)

-- The last point with the name.
pub last_named : String → List PointMapping → Option PointMapping
last_named name [] = none
last_named name (p ∷ ps) =
    let later = last_named name ps in
    elim later [ none ↦ if str_eq p.name name then some p else none | some q ↦ some q ]

module _ (g : Govaluate) (fl : Floats) where
  -- The value that a point gets out of the one that was read. A transform that does not parse or does
  -- not evaluate is passed over.
  pub data IsMapped (p : PointMapping) (v : Value) : Value → Type 0 where
    untouched : p.transform ≡ "" → IsMapped p v v
    unparsed : p.transform ≢ "" → g.parse p.transform ≡ none → IsMapped p v v
    failed :
        (e : g.Expression)
        → p.transform ≢ ""
        → g.parse p.transform ≡ some e
        → g.evaluate e v ≡ none
        → IsMapped p v v
    transformed :
        (e : g.Expression) (x : Value)
        → p.transform ≢ ""
        → g.parse p.transform ≡ some e
        → g.evaluate e v ≡ some x
        → IsMapped p v x

  raw_values-read_at :
      (address : String) (vs : List PointValue) (raw : Dict Value)
      → result_or g fl nil (lookup address (raw_values vs raw))
        ≡ read_at vs address (result_or g fl nil (lookup address raw))
  unfolding raw_values read_at
  raw_values-read_at address [] raw = refl
  raw_values-read_at address (v ∷ vs) raw =
      raw_values-read_at address vs (insert v.point_id v.value raw)
      ∙ ap (read_at vs address) (
          ap (result_or g fl nil) (lookup-insert v.point_id address v.value raw)
          ∙ by_id (str_eq v.point_id address))
    where
      by_id :
          (b : Bool)
          → result_or g fl nil (if b then some v.value else lookup address raw)
            ≡ (if b then v.value else result_or g fl nil (lookup address raw))
      by_id true = refl
      by_id false = refl

  -- What a read value of the point is mapped to.
  mapped : PointMapping → Value → Value
  mapped p v =
      if str_eq p.transform "" then v else result_or g fl v (eval_expression g p.transform v)

  mapped-IsMapped : (p : PointMapping) (v : Value) → IsMapped p v (mapped p v)
  unfolding mapped eval_expression
  mapped-IsMapped p v = elim (Bool-cases (str_eq p.transform "")) [
    | inl e ↦ rw e (untouched ((eq_iff p.transform "").0 e))
    | inr e ↦ rw e (parsed (not_empty e) (g.parse p.transform) refl)
  ]
    where
      not_empty : str_eq p.transform "" ≡ false → p.transform ≢ ""
      not_empty e same = let is = (eq_iff p.transform "").1 same in cc

      evaluated :
          p.transform ≢ ""
          → (e : g.Expression) → g.parse p.transform ≡ some e
          → (o : Option Value) → g.evaluate e v ≡ o
          → IsMapped p v (result_or g fl v o)
      evaluated ne e k none h = failed e ne k h
      evaluated ne e k (some x) h = transformed e x ne k h

      parsed :
          p.transform ≢ ""
          → (o : Option g.Expression) → g.parse p.transform ≡ o
          → IsMapped p v (
              result_or g fl v
                (elim o as (λ _. Option Value) [ none ↦ none | some e ↦ g.evaluate e v ]))
      parsed ne none k = unparsed ne k
      parsed ne (some e) k = evaluated ne e k (g.evaluate e v) refl

  IsMapped-mapped : (p : PointMapping) (v x : Value) → IsMapped p v x → mapped p v ≡ x
  unfolding mapped eval_expression
  IsMapped-mapped p v x m = by_test (str_eq p.transform "") x refl m
    where
      after : Bool → Option g.Expression → Value
      after b o =
          if b
          then v
          else result_or g fl v
              (elim o as (λ _. Option Value) [ none ↦ none | some e ↦ g.evaluate e v ])

      by_test :
          (b : Bool) (y : Value)
          → str_eq p.transform "" ≡ b
          → IsMapped p v y
          → after b (g.parse p.transform) ≡ y
      by_test true _ e (untouched same) = refl
      by_test true _ e (unparsed ne k) = absurd (ne ((eq_iff p.transform "").0 e))
      by_test true _ e (failed x ne k h) = absurd (ne ((eq_iff p.transform "").0 e))
      by_test true _ e (transformed x y ne k h) = absurd (ne ((eq_iff p.transform "").0 e))
      by_test false _ e (untouched same) = let is = (eq_iff p.transform "").1 same in cc
      by_test false _ e (unparsed ne k) = ap (after false) k
      by_test false _ e (failed x ne k h) = ap (after false) k ∙ ap (result_or g fl v) h
      by_test false _ e (transformed x y ne k h) = ap (after false) k ∙ ap (result_or g fl v) h

  module _ (values : List PointValue) where
    abbrev raw : Dict Value
    raw = raw_values values []

    -- The value that was read for a point.
    abbrev pub read_for : PointMapping → Value
    read_for p = read_at values p.address nil

    value-IsMapped : (p : PointMapping) → IsMapped p (read_for p) (mapped_value g fl raw p)
    unfolding mapped lookup
    value-IsMapped p =
        subst (λ v. IsMapped p v (mapped_value g fl raw p)) (raw_values-read_at p.address values [])
          (mapped-IsMapped p (result_or g fl nil (lookup p.address raw)))

    -- The entry for a name.
    abbrev pub IsEntry : Option PointMapping → Option Value → Type 0
    IsEntry none o = o ≡ none
    IsEntry (some p) o = (x : Value) × (o ≡ some x) × IsMapped p (read_for p) x

    -- The entry for a name that may have had one before.
    abbrev Kept : Option Value → Option PointMapping → Option Value → Type 0
    Kept before none o = o ≡ before
    Kept before (some p) o = IsEntry (some p) o

    abbrev last_or : Bool → PointMapping → Option PointMapping → Option PointMapping
    last_or b p later = elim later [ none ↦ if b then some p else none | some q ↦ some q ]

    map_points-Kept :
        (name : String) (ps : List PointMapping) (all : Dict Value) (alarms : List AlarmInfo)
        → Kept
            (lookup name all)
            (last_named name ps)
            (lookup name (map_points g fl raw ps (all, alarms)).0)
    unfolding map_points last_named
    map_points-Kept name [] all alarms = refl
    map_points-Kept name (p ∷ ps) all alarms =
        here (last_named name ps) (str_eq p.name name) refl
          (map_points-Kept name ps (insert p.name (mapped_value g fl raw p) all) _)
      where
        here :
            (later : Option PointMapping) (b : Bool)
            → str_eq p.name name ≡ b
            → Kept
                (lookup name (insert p.name (mapped_value g fl raw p) all))
                later
                (lookup name (map_points g fl raw (p ∷ ps) (all, alarms)).0)
            → Kept
                (lookup name all)
                (last_or b p later)
                (lookup name (map_points g fl raw (p ∷ ps) (all, alarms)).0)
        here (some q) b e k = k
        here none true e k = (
          mapped_value g fl raw p,
          k ∙ lookup-insert p.name name (mapped_value g fl raw p) all ∙ rw e refl,
          value-IsMapped p,
        )
        here none false e k = k ∙ lookup-insert_ne p.name name (mapped_value g fl raw p) all e

    pub map_points-IsEntry :
        (name : String) (ps : List PointMapping) (alarms : List AlarmInfo)
        → IsEntry (last_named name ps) (lookup name (map_points g fl raw ps ([], alarms)).0)
    unfolding lookup
    map_points-IsEntry name ps alarms =
        no_more (last_named name ps) (map_points-Kept name ps [] alarms)
      where
        no_more :
            (o : Option PointMapping)
            → Kept none o (lookup name (map_points g fl raw ps ([], alarms)).0)
            → IsEntry o (lookup name (map_points g fl raw ps ([], alarms)).0)
        no_more none k = k
        no_more (some p) k = k

    -- The point's alarm is enabled, and its condition is true for the value that the point is mapped to.
    pub record IsAlarmed (p : PointMapping) : Type 0 where
      pub enabled : p.alarm.enable ≡ true
      pub value : Value
      pub is_mapped : IsMapped p (read_for p) value
      pub holds : IsTrueFor g fl p.alarm.condition value

    -- The alarms of some points, in their order.
    pub data ArePointAlarms : List PointMapping → List AlarmInfo → Type 0 where
      no_points : ArePointAlarms [] []
      with_alarm :
          {p : PointMapping} {ps : List PointMapping} {alarms : List AlarmInfo}
          → IsAlarmed p
          → ArePointAlarms ps alarms
          → ArePointAlarms
              (p ∷ ps)
              (record { name = p.name; level = p.alarm.level; message = p.alarm.message } ∷ alarms)
      without_alarm :
          {p : PointMapping} {ps : List PointMapping} {alarms : List AlarmInfo}
          → (IsAlarmed p → ⊥)
          → ArePointAlarms ps alarms
          → ArePointAlarms (p ∷ ps) alarms

    point_alarms : List PointMapping → List AlarmInfo
    point_alarms [] = []
    point_alarms (p ∷ ps) = point_alarm g fl p (mapped_value g fl raw p) ++ point_alarms ps

    map_points-alarms :
        (ps : List PointMapping) (all : Dict Value) (alarms : List AlarmInfo)
        → (map_points g fl raw ps (all, alarms)).1 ≡ alarms ++ point_alarms ps
    unfolding map_points point_alarms
    map_points-alarms [] all alarms = sym (append-nil alarms)
    map_points-alarms (p ∷ ps) all alarms =
        map_points-alarms ps (insert p.name (mapped_value g fl raw p) all) _
        ∙ append_assoc alarms _ _

    IsMapped-value :
        (p : PointMapping) (x : Value) → IsMapped p (read_for p) x → mapped_value g fl raw p ≡ x
    unfolding mapped lookup
    IsMapped-value p x m =
        ap (mapped p) (raw_values-read_at p.address values []) ∙ IsMapped-mapped p (read_for p) x m

    alarm_here : (p : PointMapping) → Bool
    alarm_here p =
        p.alarm.enable && is_true (eval_expression g p.alarm.condition (mapped_value g fl raw p))

    here-IsAlarmed : (p : PointMapping) → alarm_here p ≡ true → IsAlarmed p
    unfolding alarm_here
    here-IsAlarmed p h = record {
      enabled = first h;
      value = mapped_value g fl raw p;
      is_mapped = value-IsMapped p;
      holds = eval-IsTrueFor g fl p.alarm.condition (mapped_value g fl raw p) (second h);
    }
      where
        first : alarm_here p ≡ true → p.alarm.enable ≡ true
        first k = ground arith

        second :
            alarm_here p ≡ true
            → is_true (eval_expression g p.alarm.condition (mapped_value g fl raw p)) ≡ true
        second k = ground arith

    IsAlarmed-here : (p : PointMapping) → IsAlarmed p → alarm_here p ≡ true
    unfolding alarm_here
    IsAlarmed-here p a =
        ap (λ b. b && is_true (eval_expression g p.alarm.condition (mapped_value g fl raw p)))
          a.enabled
        ∙ ap (λ x. is_true (eval_expression g p.alarm.condition x))
            (IsMapped-value p a.value a.is_mapped)
        ∙ IsTrueFor-eval g fl p.alarm.condition a.value a.holds

    point_alarms-ArePointAlarms : (ps : List PointMapping) → ArePointAlarms ps (point_alarms ps)
    unfolding point_alarms alarm_here
    point_alarms-ArePointAlarms [] = no_points
    point_alarms-ArePointAlarms (p ∷ ps) = elim (Bool-cases (alarm_here p)) [
      | inl e ↦ rw e (with_alarm (here-IsAlarmed p e) (point_alarms-ArePointAlarms ps))
      | inr e ↦
          rw e (
            without_alarm (λ a. true_false (IsAlarmed-here p a) e) (point_alarms-ArePointAlarms ps))
    ]
      where
        true_false : alarm_here p ≡ true → alarm_here p ≡ false → ⊥
        true_false h k = cc

    pub map_points-ArePointAlarms :
        (ps : List PointMapping) (all : Dict Value)
        → ArePointAlarms ps (map_points g fl raw ps (all, [])).1
    map_points-ArePointAlarms ps all =
        subst (ArePointAlarms ps) (sym (map_points-alarms ps all []))
          (point_alarms-ArePointAlarms ps)
