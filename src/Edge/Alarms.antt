-- ===== src/Edge/Alarms.antt =====
-- Which alarms ApplyRules leaves behind.
use sensor_edge.Edge.{
  AlarmInfo, AlarmRuleEdge, Govaluate, RuleEngine, alarm_all, alarm_info, alarm_triggers,
  apply_rules,
}
use sensor_edge.Edge.Extract.{keep}
use sensor_edge.Edge.Raised.{IsRaised, triggers-IsRaised, IsRaised-triggers}
use sensor_edge.Floats.{Floats}
use sensor_edge.Prelude.{
  inr, ◌∙◌, inl, Bool-cases, ◌∷◌, sym, refl, ◌++◌, List, [], map, ◌≡◌, String, true, false,
}
use sensor_edge.Prelude.Dict.{Dict}
use sensor_edge.Value.{Value}
use mathlib.Core.List.{append_assoc, append-nil}
use mathlib.Core.Path.{subst}

module _ (g : Govaluate) (fl : Floats) (device : String) (points : Dict Value) where
  alarm_all-keep :
      (rules : List AlarmRuleEdge) (alarms : List AlarmInfo)
      → alarm_all g fl device points rules alarms
        ≡ alarms ++ map alarm_info (keep (alarm_triggers g fl device points) rules)
  unfolding alarm_all keep
  alarm_all-keep [] alarms = sym (append-nil alarms)
  alarm_all-keep (rule ∷ rules) alarms =
      elim (Bool-cases (alarm_triggers g fl device points rule)) [
        | inl e ↦ rw e (
            alarm_all-keep rules (alarms ++ alarm_info rule ∷ [])
            ∙ append_assoc alarms (alarm_info rule ∷ []) _)
        | inr e ↦ rw e (alarm_all-keep rules alarms)
      ]

  -- The alarms of some rules: one for each rule that is raised, in their order, with the rule's point,
  -- level and message.
  pub data AreAlarms : List AlarmRuleEdge → List AlarmInfo → Type 0 where
    no_rules : AreAlarms [] []
    with_alarm :
        {rule : AlarmRuleEdge} {rules : List AlarmRuleEdge} {alarms : List AlarmInfo}
        → IsRaised g fl device points rule
        → AreAlarms rules alarms
        → AreAlarms
            (rule ∷ rules)
            (record { name = rule.point; level = rule.level; message = rule.message } ∷ alarms)
    without_alarm :
        {rule : AlarmRuleEdge} {rules : List AlarmRuleEdge} {alarms : List AlarmInfo}
        → (IsRaised g fl device points rule → ⊥)
        → AreAlarms rules alarms
        → AreAlarms (rule ∷ rules) alarms

  keep-AreAlarms :
      (rules : List AlarmRuleEdge)
      → AreAlarms rules (map alarm_info (keep (alarm_triggers g fl device points) rules))
  unfolding keep
  keep-AreAlarms [] = no_rules
  keep-AreAlarms (rule ∷ rules) = elim (Bool-cases (alarm_triggers g fl device points rule)) [
    | inl e ↦ rw e (with_alarm (triggers-IsRaised g fl device points rule e) (keep-AreAlarms rules))
    | inr e ↦ rw e (
        without_alarm (λ r. true_false (IsRaised-triggers g fl device points rule r) e)
          (keep-AreAlarms rules))
  ]
    where
      true_false :
          alarm_triggers g fl device points rule ≡ true
          → alarm_triggers g fl device points rule ≡ false
          → ⊥
      true_false h k = cc

  -- After ApplyRules the engine's last alarms are those of the alarm rules of the device whose point has
  -- a value for which, converted to float64 if it is a float32, an int, int32 or int64, or a uint16,
  -- uint32 or uint64, the condition parses and evaluates to true: one for each such rule and none for
  -- any other, in the order of the rules, whatever the alarms and the buffers were before. The three
  -- lists of rules stay as they are.
  pub apply_rules-AreAlarms :
      (r : RuleEngine)
      → AreAlarms r.alarm_rules (apply_rules g fl device points r).0.last_alarms
        × ((apply_rules g fl device points r).0.agg_rules ≡ r.agg_rules)
        × ((apply_rules g fl device points r).0.alarm_rules ≡ r.alarm_rules)
        × ((apply_rules g fl device points r).0.linkage_rules ≡ r.linkage_rules)
  unfolding apply_rules
  apply_rules-AreAlarms r = (
    subst (AreAlarms r.alarm_rules) (sym (alarm_all-keep r.alarm_rules []))
        (keep-AreAlarms r.alarm_rules),
    refl,
    refl,
    refl,
  )
