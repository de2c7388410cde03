-- ===== src/Poll/Running/Windows.antt =====
-- The windows of the rule engine while the goroutines run.
use mathlib.Core.Path.{subst}
use sensor_edge.Prelude.Int.{pos_part}
use sensor_edge.Edge.Buffers.{new_rule_engine-AllBounded, AllBounded}
use sensor_edge.Poll.Round.{DataReport}
use sensor_edge.Uplink.Manager.{Uplink, Channels}
use sensor_edge.Poll.Convert.{Numerics}
use sensor_edge.Poll.Retry.{Protocol}
use sensor_edge.Prelude.Dict.{lookup}
use sensor_edge.Prelude.{
  ◌≤◌, length, sym, false, true, [], if◌then◌else◌, Bool, ◌∷◌, ℕ, some, ◌≡◌, List, String,
}
use sensor_edge.Poll.Running.{
  advance, Event, sighup, run, advances, System, turn, heard_by_listen_iam, heard_by_main,
}
use sensor_edge.Edge.{
  new_rule_engine, LinkageRule, AlarmRuleEdge, Govaluate, PointBuffer, AggregateRule, RuleEngine,
}
use sensor_edge.Edge.Extract.{reload_rules, DeviceEdgeRules}
use sensor_edge.Poll.Running.Follows.{turn-Follows}

reload_rules-AllBounded :
    (drs : List DeviceEdgeRules) (r : RuleEngine)
    → AllBounded r.buffers
    → AllBounded (reload_rules drs r).buffers
unfolding reload_rules
reload_rules-AllBounded drs r h = h

module _ {P W : Type 0} (c : Protocol P) (n : Numerics) (g : Govaluate) (lib : Channels W)
    (marshal : DataReport → List ℕ) (now : W → ℕ) (uplinks : List Uplink) where
  advances-AllBounded :
      (e : Event) (sys : System P W)
      → AllBounded sys.shared.engine.buffers
      → AllBounded (advances c n g lib marshal now uplinks e sys).shared.engine.buffers
  advances-AllBounded (turn i) sys = (turn-Follows c n g lib marshal now uplinks i sys).bounded
  advances-AllBounded (heard_by_listen_iam r) sys = λ h. h
  advances-AllBounded (heard_by_main r) sys = λ h. h
  advances-AllBounded (sighup (drs, x)) sys = reload_rules-AllBounded drs sys.shared.engine

  run-AllBounded :
      (es : List Event) (sys : System P W)
      → AllBounded sys.shared.engine.buffers
      → AllBounded (run c n g lib marshal now uplinks es sys).shared.engine.buffers
  unfolding run advance
  run-AllBounded [] sys h = h
  run-AllBounded (e ∷ es) sys h = run-AllBounded es _ (advanced sys.crashed)
    where
      advanced :
          (b : Bool)
          → AllBounded
              (if b
                then sys
                else advances c n g lib marshal now uplinks e sys).shared.engine.buffers
      advanced true = h
      advanced false = advances-AllBounded e sys h

  -- However the goroutines, the two listeners and the reloads of the rules take turns, no buffer of an engine that was new
  -- ever holds more values than its window, and one with a negative window holds none.
  pub run-bounded :
      (es : List Event) (sys : System P W) (agg : List AggregateRule) (alarm : List AlarmRuleEdge)
      (linkage : List LinkageRule) (k : String) (b : PointBuffer)
      → sys.shared.engine ≡ new_rule_engine agg alarm linkage
      → lookup k (run c n g lib marshal now uplinks es sys).shared.engine.buffers ≡ some b
      → length b.values ≤ pos_part b.size
  unfolding AllBounded
  run-bounded es sys agg alarm linkage k b is_new =
      run-AllBounded es sys
        (subst (λ r. AllBounded r.buffers) (sym is_new)
          (new_rule_engine-AllBounded agg alarm linkage))
        k b
