-- ===== src/Poll/Retry.antt =====
-- readWithRetry of main.go, over a driver behind the Protocol interface.
use sensor_edge.Value.{PointValue}
use sensor_edge.Go.{panic, ok, err, Outcome, Error}
use sensor_edge.Prelude.{
  refl, ◌-◌, ◌<◌, arith, ap, ◌∙◌, false, zero, ◌==◌, true, [], suc, ◌≡◌, Option, ◌+◌, ℕ, Bool, List,
  String,
}

-- What main.go uses of protocols.Protocol, over the driver's state P.
pub record Protocol (P : Type 0) : Type 0 where
  pub read_batch : String → String → List String → P → Outcome (List PointValue) × P
  pub reconnect : P → Outcome (Option Error) × P
  pub set_slave : ℕ → P → P  -- of a *modbus.ModbusTCP; nothing on any other driver

module _ {P : Type 0} (c : Protocol P) (dev function : String) (addrs : List String) where
  -- After the last attempt: Reconnect, whose own error is only printed.
  abbrev pub reconnecting : Error → Outcome (Option Error) × P → Outcome (List PointValue) × P
  reconnecting e (panic, p) = (panic, p)
  reconnecting e (_, p) = (err e, p)

  -- What follows an attempt: `last` says that it was the last one, `more` makes the others.
  abbrev pub after_attempt :
      Bool
      → (P → Outcome (List PointValue) × P)
      → Outcome (List PointValue) × P
      → Outcome (List PointValue) × P
  after_attempt last more (ok vs, q) = (ok vs, q)
  after_attempt last more (panic, q) = (panic, q)
  after_attempt true more (err e, q) = reconnecting e (c.reconnect q)
  after_attempt false more (err e, q) = more q

  -- The attempts that are left, from the driver's state.
  unfoldable pub attempts : ℕ → P → Outcome (List PointValue) × P
  attempts zero p = (ok [], p)
  attempts (suc n) p = after_attempt (n == 0) (attempts n) (c.read_batch dev function addrs p)

  unfoldable pub read_with_retry : ℕ → P → Outcome (List PointValue) × P
  unfolding attempts
  read_with_retry max_retry = attempts max_retry

  -- A first attempt without an error is the only one.
  pub read_with_retry-first :
      (n : ℕ) (p : P) (vs : List PointValue)
      → (c.read_batch dev function addrs p).0 ≡ ok vs
      → read_with_retry (suc n) p ≡ c.read_batch dev function addrs p
  unfolding read_with_retry attempts
  read_with_retry-first n p vs e = stops (n == 0) (c.read_batch dev function addrs p) e
    where
      stops :
          (last : Bool) (r : Outcome (List PointValue) × P)
          → r.0 ≡ ok vs
          → after_attempt last (attempts n) r ≡ r
      stops last (ok us, q) e = refl
      stops last (err x, q) e = cc
      stops last (panic, q) e = refl

  -- The first n attempts from p fail, the last of them with e, and leave the driver in q.
  pub data Fails : ℕ → P → Error → P → Type 0 where
    once : {p q : P} {e : Error} → c.read_batch dev function addrs p ≡ (err e, q) → Fails 1 p e q
    again :
        {n : ℕ} {p q r : P} {e e' : Error}
        → c.read_batch dev function addrs p ≡ (err e, q)
        → Fails (suc n) q e' r
        → Fails (suc (suc n)) p e' r

  pub attempt_again :
      (m : ℕ) (p q : P) (e : Error)
      → c.read_batch dev function addrs p ≡ (err e, q)
      → attempts (suc (suc m)) p ≡ attempts (suc m) q
  unfolding attempts
  attempt_again m p q e f = rw (f, more_left m)
    where
      more_left : (m : ℕ) → (suc m == 0) ≡ false
      more_left m = ground arith

  attempts-Fails :
      (k : ℕ) {n : ℕ} {p q : P} {e : Error}
      → Fails n p e q
      → attempts (n + suc k) p ≡ attempts (suc k) q
  attempts-Fails k (once {p = p} {q = q} {e = e} f) =
      ap (λ m. attempts m p) {x = 1 + suc k} {y = suc (suc k)} (omega arith)
      ∙ attempt_again k p q e f
  attempts-Fails k (again {n = n} {p = p} {q = q} {e = e} f rest) =
      ap (λ m. attempts m p) {x = suc (suc n) + suc k} {y = suc (suc (n + suc k))} (omega arith)
      ∙ attempt_again (n + suc k) p q e f
      ∙ ap (λ m. attempts m q) {x = suc (n + suc k)} {y = suc n + suc k} (omega arith)
      ∙ attempts-Fails k rest

  gives_up :
      {n : ℕ} {p q : P} {e : Error} → Fails n p e q → attempts n p ≡ reconnecting e (c.reconnect q)
  unfolding attempts
  gives_up (once f) = rw f
  gives_up (again {n = n} {p = p} {q = q} {e = e} f rest) = attempt_again n p q e f ∙ gives_up rest

  -- If the first n attempts fail and the next one, within max_retry, succeeds, the result is that of
  -- this attempt and the driver is as it left it: no reconnect was made.
  pub read_with_retry-succeeds :
      (max_retry n : ℕ) (vs : List PointValue) (p q r : P) (e : Error)
      → Fails n p e q
      → n < max_retry
      → c.read_batch dev function addrs q ≡ (ok vs, r)
      → read_with_retry max_retry p ≡ (ok vs, r)
  unfolding read_with_retry
  read_with_retry-succeeds max_retry n vs p q r e f below succeeds =
      ap (λ m. attempts m p) {x = max_retry} {y = n + suc (max_retry - n - 1)} (omega arith)
      ∙ attempts-Fails (max_retry - n - 1) f
      ∙ succeeding (max_retry - n - 1)
    where
      succeeding : (k : ℕ) → attempts (suc k) q ≡ (ok vs, r)
      succeeding k = unfold attempts in rw succeeds

  -- If all max_retry attempts fail, one reconnect is made after the last: the result is the last
  -- attempt's error whatever the reconnect returns, or a panic if it panics.
  pub read_with_retry-gives_up :
      (max_retry : ℕ) (p q : P) (e : Error)
      → Fails max_retry p e q
      → read_with_retry max_retry p ≡ reconnecting e (c.reconnect q)
  unfolding read_with_retry
  read_with_retry-gives_up max_retry p q e f = gives_up f
