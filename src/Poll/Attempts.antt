-- ===== src/Poll/Attempts.antt =====
-- All that readWithRetry of main.go can do.
use sensor_edge.Value.{PointValue}
use sensor_edge.Prelude.{
  refl, zero, ◌==◌, false, Bool, true, inr, arith, inl, ◌≢◌, ◌<◌, ◌⊎◌, ◌≡◌, suc, ℕ, List, String,
}
use sensor_edge.Poll.Retry.{after_attempt, attempts, reconnecting, read_with_retry, Protocol}
use sensor_edge.Go.{Error, Outcome, ok, err, panic}

module _ {P : Type 0} (c : Protocol P) (dev function : String) (addrs : List String) where
  -- The first n attempts from p fail and leave the driver in q.
  pub data Failed : ℕ → P → P → Type 0 where
    no_attempt : {p : P} → Failed 0 p p
    one_more :
        {n : ℕ} {p q r : P} {e : Error}
        → c.read_batch dev function addrs p ≡ (err e, q)
        → Failed n q r
        → Failed (suc n) p r

  -- Attempt n + 1 is the first that does not fail, and its outcome is the result.
  abbrev pub IsDecided : ℕ → P → Outcome (List PointValue) × P → Type 0
  IsDecided max p result =
      (n : ℕ) × (q : P) × (n < max)
      × Failed n p q
      × (c.read_batch dev function addrs q ≡ result)
      × ((e : Error) → result.0 ≢ err e)

  -- All attempts fail; after the last a reconnect is made, and its panic or the last error is the result.
  abbrev pub IsGivenUp : ℕ → P → Outcome (List PointValue) × P → Type 0
  IsGivenUp n p result =
      (q : P) × (r : P) × (e : Error) × Failed n p q
      × (c.read_batch dev function addrs q ≡ (err e, r))
      × (result ≡ reconnecting c dev function addrs e (c.reconnect r))

  -- What holds of the attempts from q holds of those from p, where the first one fails and leaves q.
  shifted :
      (n : ℕ) (p q : P) (e : Error) (result : Outcome (List PointValue) × P)
      → c.read_batch dev function addrs p ≡ (err e, q)
      → IsDecided (suc n) q result ⊎ IsGivenUp n q result
      → IsDecided (suc (suc n)) p result ⊎ IsGivenUp (suc n) p result
  shifted n p q e result f (inl (k, s, below, failed, done, fine)) =
      inl (suc k, s, omega (arith, below), one_more f failed, done, fine)
  shifted n p q e result f (inr (s, r, x, failed, last, same)) =
      inr (s, r, x, one_more f failed, last, same)

  attempts-cases :
      (n : ℕ) (p : P)
      → IsDecided (suc n) p (attempts c dev function addrs (suc n) p)
        ⊎ IsGivenUp n p (attempts c dev function addrs (suc n) p)
  unfolding attempts
  attempts-cases zero p = only (c.read_batch dev function addrs p) refl
    where
      only :
          (r : Outcome (List PointValue) × P)
          → c.read_batch dev function addrs p ≡ r
          → let result =
              after_attempt c dev function addrs true (attempts c dev function addrs 0) r in
            IsDecided 1 p result ⊎ IsGivenUp 0 p result
      only (ok vs, q) e = inl (0, p, omega arith, no_attempt, e, λ x f. cc)
      only (panic, q) e = inl (0, p, omega arith, no_attempt, e, λ x f. cc)
      only (err x, q) e = inr (p, q, x, no_attempt, e, refl)
  attempts-cases (suc n) p =
      first (suc n == 0) (ground arith) (c.read_batch dev function addrs p) refl
        (λ q. attempts-cases n q)
    where
      first :
          (last : Bool)
          → last ≡ false
          → (r : Outcome (List PointValue) × P) → c.read_batch dev function addrs p ≡ r
          → ((q : P)
              → IsDecided (suc n) q (attempts c dev function addrs (suc n) q)
                ⊎ IsGivenUp n q (attempts c dev function addrs (suc n) q))
          → let result =
              after_attempt c dev function addrs last (attempts c dev function addrs (suc n)) r in
            IsDecided (suc (suc n)) p result ⊎ IsGivenUp (suc n) p result
      first true h r e others = absurd (cc h)
      first false h (ok vs, q) e others = inl (0, p, omega arith, no_attempt, e, λ x f. cc)
      first false h (panic, q) e others = inl (0, p, omega arith, no_attempt, e, λ x f. cc)
      first false h (err x, q) e others = shifted n p q x _ e (others q)

  -- With n + 1 attempts at most, either some attempt is the first that does not fail, and then its
  -- outcome is the result, the driver is as it left it, and no reconnect was made; or they all fail, and
  -- then one reconnect is made after the last, and the result is the last attempt's error whatever the
  -- reconnect returns, or a panic if it panics.
  pub read_with_retry-cases :
      (n : ℕ) (p : P)
      → IsDecided (suc n) p (read_with_retry c dev function addrs (suc n) p)
        ⊎ IsGivenUp n p (read_with_retry c dev function addrs (suc n) p)
  unfolding read_with_retry
  read_with_retry-cases n p = attempts-cases n p
