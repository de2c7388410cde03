-- ===== src/Scheduler/Interval.antt =====
-- core/scheduler.go: SetInterval beside the loop that waits for ticks.
use sensor_edge.Prelude.{
  inr, inl, arith, ◌||◌, ◌==◌, ◌⊎◌, [], false, Bool, true, Option, ◌∷◌, List, ◌≡◌, ℕ, none, some,
}

-- The runner's ticker, the tickers that were stopped, and the ticker whose channel the loop's select
-- waits for: `none` while it collects. Select reads r.Ticker once, when it begins to wait.
pub record Loop : Type 0 where
  pub ticker : ℕ
  pub stopped : List ℕ
  pub waiting : Option ℕ

abbrev pub member : ℕ → List ℕ → Bool
member x [] = false
member x (y ∷ ys) = y == x || member x ys

-- SetInterval: the old ticker is stopped, and the new one, `made`, takes its place.
abbrev pub set_interval : (made : ℕ) → Loop → Loop
set_interval made l = record l { ticker = made; stopped = l.ticker ∷ l.stopped }

-- The loop and the callers of SetInterval, in any order. A ticker that was stopped sends no more ticks,
-- and time.NewTicker makes one that is not yet stopped.
pub data Step : Loop → Loop → Type 0 where
  tick :
      (l : Loop) (t : ℕ)
      → l.waiting ≡ some t
      → member t l.stopped ≡ false
      → Step l (record l { waiting = none })
  wait : (l : Loop) → l.waiting ≡ none → Step l (record l { waiting = some l.ticker })
  change : (l : Loop) (made : ℕ) → member made l.stopped ≡ false → Step l (set_interval made l)

pub data Steps : Loop → Loop → Type 0 where
  done : (l : Loop) → Steps l l
  step : (a b c : Loop) → Step a b → Steps b c → Steps a c

-- The loop after StartScheduler.
abbrev pub started : ℕ → Loop
started t = record { ticker = t; stopped = []; waiting = some t }

-- The loop waits for a ticker that was stopped.
IsStuck : ℕ → Loop → Type 0
IsStuck t l = (l.waiting ≡ some t) × (member t l.stopped ≡ true)

-- What the loop waits for is the runner's ticker or one that was stopped.
IsWaiting : Loop → Type 0
IsWaiting l = (t : ℕ) → l.waiting ≡ some t → (t ≡ l.ticker) ⊎ (member t l.stopped ≡ true)

step-IsStuck : (t : ℕ) (a b : Loop) → Step a b → IsStuck t a → IsStuck t b
unfolding IsStuck
step-IsStuck t a b (tick l u e live) (w, dead) = absurd cc
step-IsStuck t a b (wait l e) (w, dead) = absurd cc
step-IsStuck t a b (change l made new) (w, dead) = (w, ground (arith, dead))

Steps-IsStuck : (t : ℕ) (a b : Loop) → Steps a b → IsStuck t a → IsStuck t b
Steps-IsStuck t a b (done l) h = h
Steps-IsStuck t a b (step x y z s more) h = Steps-IsStuck t y z more (step-IsStuck t x y s h)

step-IsWaiting : (a b : Loop) → Step a b → IsWaiting a → IsWaiting b
unfolding IsWaiting
step-IsWaiting a b (tick l u e live) h = λ t f. absurd cc
step-IsWaiting a b (wait l e) h = λ t f. inl cc
step-IsWaiting a b (change l made new) h = λ t f. elim (h t f) [
  | inl same ↦ inr (ground (arith, same))
  | inr dead ↦ inr (ground (arith, dead))
]

Steps-IsWaiting : (a b : Loop) → Steps a b → IsWaiting a → IsWaiting b
Steps-IsWaiting a b (done l) h = h
Steps-IsWaiting a b (step x y z s more) h = Steps-IsWaiting y z more (step-IsWaiting x y s h)

-- SetInterval while the loop of a runner waits for a tick stops it for good: whatever the loop and its
-- callers do afterwards, SetInterval included, it still waits for the ticker that it waited for, and it
-- never collects again.
pub set_interval-waiting :
    (first made t : ℕ) (l after : Loop)
    → Steps (started first) l
    → l.waiting ≡ some t
    → Steps (set_interval made l) after
    → after.waiting ≡ some t
unfolding IsStuck IsWaiting
set_interval-waiting first made t l after reached w later =
    (Steps-IsStuck t (set_interval made l) after later
      (w, stopped_now (Steps-IsWaiting _ l reached at_start t w))).0
  where
    at_start : IsWaiting (started first)
    at_start = λ u e. inl cc

    stopped_now :
        (t ≡ l.ticker) ⊎ (member t l.stopped ≡ true) → member t (l.ticker ∷ l.stopped) ≡ true
    stopped_now (inl same) = ground (arith, same)
    stopped_now (inr dead) = ground (arith, dead)
