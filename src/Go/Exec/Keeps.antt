-- ===== src/Go/Exec/Keeps.antt =====
-- Invariants of actions, by a rule for each way to build one.
use sensor_edge.Go.{Outcome, ok, err, panic}
use sensor_edge.Go.Exec.{Exec, lift, continue, ◌>>=◌}

-- Where `inv` holds before the call it holds after it, whatever the outcome.
pub record Keeps {ℓ} {T R : Type ℓ} (inv : T → Type ℓ) (call : Exec T R) : Type ℓ where
  pub after : (t : T) → inv t → inv (call t).1

module _ {ℓ} {T R : Type ℓ} {inv : T → Type ℓ} where
  pub Keeps-lift : (r : Outcome R) → Keeps inv (lift r)
  Keeps-lift r = record { after = λ t i. i }

module _ {ℓ} {T R Q : Type ℓ} {inv : T → Type ℓ} where
  Keeps-continue :
      (r : Outcome R) (next : R → Exec T Q)
      → ((x : R) → Keeps inv (next x))
      → Keeps inv (continue r next)
  Keeps-continue panic next all = record { after = λ t i. i }
  Keeps-continue (err _) next all = record { after = λ t i. i }
  Keeps-continue (ok x) next all = all x

  pub Keeps-bind :
      (call : Exec T R) (next : R → Exec T Q)
      → Keeps inv call
      → ((x : R) → Keeps inv (next x))
      → Keeps inv (call >>= next)
  Keeps-bind call next one all = record {
    after = λ t i. (Keeps-continue (call t).0 next all).after (call t).1 (one.after t i);
  }
