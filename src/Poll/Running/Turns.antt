-- ===== src/Poll/Running/Turns.antt =====
-- A step of a goroutine, by the phase that it is in.
use sensor_edge.Edge.{Govaluate}
use sensor_edge.Poll.Round.{DataReport}
use sensor_edge.Poll.Convert.{Numerics}
use sensor_edge.Poll.Retry.{Protocol}
use sensor_edge.Poll.Running.{
  step, step_in, with_own_client, turn_of, advances, advance, after_step, Phase, Loop, System, turn,
}
use sensor_edge.Prelude.{if◌then◌else◌, ap, false, ◌∙◌, some, ◌≡◌, get_elem?, ℕ, List}
use sensor_edge.Uplink.Manager.{Uplink, Channels}

module _ {P W : Type 0} (c : Protocol P) (n : Numerics) (g : Govaluate) (lib : Channels W)
    (marshal : DataReport → List ℕ) (now : W → ℕ) (uplinks : List Uplink) where
  -- A step of a goroutine that runs.
  pub advance-turn :
      (i : ℕ) (l : Loop) (ph : Phase) (p : P) (sys : System P W)
      → sys.crashed ≡ false
      → get_elem? sys.loops i ≡ some l
      → l.phase ≡ ph
      → get_elem? sys.shared.clients l.started.client ≡ some p
      → advance c n g lib marshal now uplinks (turn i) sys
        ≡ after_step c n g lib marshal now uplinks i sys
            (step_in c n g lib marshal now uplinks l ph p sys.shared)
  unfolding advance step
  advance-turn i l ph p sys alive here in_phase there =
      ap (λ b. if b then sys else advances c n g lib marshal now uplinks (turn i) sys) alive
      ∙ ap (λ o. turn_of c n g lib marshal now uplinks i o sys) here
      ∙ ap
          (λ o.
            after_step c n g lib marshal now uplinks i sys
              (with_own_client c n g lib marshal now uplinks l o sys.shared))
          there
      ∙ ap
          (λ f.
            after_step c n g lib marshal now uplinks i sys
              (step_in c n g lib marshal now uplinks l f p sys.shared))
          in_phase
