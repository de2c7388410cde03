-- ===== src/Poll/Running/Reload.antt =====
-- What a reload of the rules changes while the goroutines run.
use sensor_edge.Poll.Round.{DataReport}
use sensor_edge.Uplink.Manager.{Uplink, Channels}
use sensor_edge.Poll.Convert.{Numerics}
use sensor_edge.Poll.Retry.{Protocol}
use sensor_edge.Prelude.{sym, false, true, [], if◌then◌else◌, refl, Bool, ◌∷◌, ℕ, ◌∙◌, ◌≡◌, List}
use sensor_edge.Poll.Running.{
  advance, Event, sighup, run, advances, System, turn, heard_by_listen_iam, heard_by_main,
}
use sensor_edge.Edge.{Govaluate, RuleEngine}
use sensor_edge.Edge.Extract.{reload_rules, DeviceEdgeRules}
use sensor_edge.Poll.Running.Follows.{KeepsWindows, KeepsWindows-trans, HasRules, turn-Follows}

reload_rules-HasRules :
    (drs : List DeviceEdgeRules) (r : RuleEngine) → HasRules drs (reload_rules drs r)
unfolding reload_rules
reload_rules-HasRules drs r = record { aggregates = refl; alarms = refl; linkages = refl }

reload_rules-KeepsWindows :
    (drs : List DeviceEdgeRules) (r : RuleEngine)
    → KeepsWindows r.buffers (reload_rules drs r).buffers
unfolding reload_rules
reload_rules-KeepsWindows drs r k b e = (b, e, refl)

-- The groups that were read last.
abbrev pub last_file : List DeviceEdgeRules → List Event → List DeviceEdgeRules
last_file drs [] = drs
last_file drs (turn i ∷ es) = last_file drs es
last_file drs (heard_by_listen_iam r ∷ es) = last_file drs es
last_file drs (heard_by_main r ∷ es) = last_file drs es
last_file drs (sighup (read, e) ∷ es) = last_file read es

module _ {P W : Type 0} (c : Protocol P) (n : Numerics) (g : Govaluate) (lib : Channels W)
    (marshal : DataReport → List ℕ) (now : W → ℕ) (uplinks : List Uplink) where
  run-crashed :
      (es : List Event) (sys : System P W)
      → sys.crashed ≡ true
      → (run c n g lib marshal now uplinks es sys).crashed ≡ true
  unfolding run advance
  run-crashed [] sys h = h
  run-crashed (e ∷ es) sys h = run-crashed es _ (stays sys.crashed h)
    where
      stays :
          (b : Bool)
          → b ≡ true
          → (if b then sys else advances c n g lib marshal now uplinks e sys).crashed ≡ true
      stays true k = h
      stays false k = cc

  -- If the rules were those of a reading of edge_rules.yaml, and as long as no goroutine panics, they
  -- are always those that the last reading gave, beside an error or not; but a buffer that was there
  -- keeps its window, whatever the file says now, however the goroutines, the two listeners and the
  -- reloads take turns.
  pub run-hot_reload :
      (es : List Event) (sys : System P W) (drs : List DeviceEdgeRules)
      → HasRules drs sys.shared.engine
      → (run c n g lib marshal now uplinks es sys).crashed ≡ false
      → HasRules (last_file drs es) (run c n g lib marshal now uplinks es sys).shared.engine
        × KeepsWindows sys.shared.engine.buffers
            (run c n g lib marshal now uplinks es sys).shared.engine.buffers
  unfolding run advance
  run-hot_reload [] sys drs h = λ alive. (h, λ k b e. (b, e, refl))
  run-hot_reload (e ∷ es) sys drs h =
      on e (λ sys' drs' k. run-hot_reload es sys' drs' k) sys.crashed refl
    where
      after : Event → System P W
      after e = advances c n g lib marshal now uplinks e sys

      Good : List DeviceEdgeRules → System P W → System P W → Type 0
      Good drs' from sys' =
          (run c n g lib marshal now uplinks es sys').crashed ≡ false
          → HasRules drs' (run c n g lib marshal now uplinks es sys').shared.engine
            × KeepsWindows from.shared.engine.buffers
                (run c n g lib marshal now uplinks es sys').shared.engine.buffers

      on :
          (e : Event)
          → ((sys' : System P W) (drs' : List DeviceEdgeRules)
              → HasRules drs' sys'.shared.engine
              → Good (last_file drs' es) sys' sys')
          → (b : Bool) → sys.crashed ≡ b
          → Good (last_file drs (e ∷ es)) sys (if b then sys else after e)
      on e later true dead alive = absurd (cc (sym (run-crashed es sys dead) ∙ alive))
      on (turn i) later false here alive =
          let f = turn-Follows c n g lib marshal now uplinks i sys in
          let (rules, windows) = later (after (turn i)) drs (f.rules drs h) alive in
          (
            rules,
            KeepsWindows-trans sys.shared.engine.buffers (after (turn i)).shared.engine.buffers _
                f.windows windows,
          )
      on (heard_by_listen_iam r) later false here alive =
          later (after (heard_by_listen_iam r)) drs h alive
      on (heard_by_main r) later false here alive = later (after (heard_by_main r)) drs h alive
      on (sighup (read, e)) later false here alive =
          let (rules, windows) =
            later (after (sighup (read, e))) read (reload_rules-HasRules read sys.shared.engine)
              alive in
          (
            rules,
            KeepsWindows-trans sys.shared.engine.buffers
                (after (sighup (read, e))).shared.engine.buffers _
                (reload_rules-KeepsWindows read sys.shared.engine) windows,
          )
