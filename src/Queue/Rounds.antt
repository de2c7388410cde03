-- ===== src/Queue/Rounds.antt =====
-- A message is attempted a bounded number of times.
use sensor_edge.Prelude.Int.{ltb_ℤ, pos_part, neg_part}
use sensor_edge.Go.{Error}
use sensor_edge.Prelude.{
  none, refl, ◌++◌, inr, true, inl, Bool-cases, ◌≡◌, zero, some, pos, negsuc, [], ◌+◌, ◌≤◌, ◌<◌,
  ◌^◌, suc, arith, ◌∷◌, ℤ, Option, ℕ, List,
}
use sensor_edge.Queue.{Message, Storage, OutboundQueue, next_int, process_one, process_all, process}

-- low + n ≤ r
abbrev pub Reaches : ℤ → ℕ → ℤ → Type 0
Reaches low n r = pos_part low + n + neg_part r ≤ pos_part r + neg_part low

-- Every message has failed n times since its Retry was low at least, and is below the limit.
abbrev pub Failed : ℤ → ℕ → ℤ → List Message → Type 0
Failed low n max [] = Unit
Failed low n max (m ∷ ms) = Reaches low n m.retry × (ltb_ℤ m.retry max ≡ true) × Failed low n max ms

-- No message has a Retry below low + n, or the greatest int.
abbrev pub AtLeast : ℤ → ℕ → List Message → Type 0
AtLeast low n [] = Unit
AtLeast low n (m ∷ ms) = Reaches low n m.retry × (pos_part m.retry + 1 < 2 ^ 63) × AtLeast low n ms

Failed-append :
    (low : ℤ) (n : ℕ) (max : ℤ) (ms : List Message) (m : Message)
    → Failed low n max ms
    → Reaches low n m.retry
    → ltb_ℤ m.retry max ≡ true
    → Failed low n max (ms ++ m ∷ [])
Failed-append low n max [] m f h k = (h, k, tt)
Failed-append low n max (x ∷ ms) m f h k = (f.0, f.1, Failed-append low n max ms m f.2 h k)

below_limit : (r max : ℤ) → pos_part max < 2 ^ 63 → ltb_ℤ r max ≡ true → pos_part r + 1 < 2 ^ 63
below_limit r max int_ h = ground arith

Failed-AtLeast :
    (low : ℤ) (n : ℕ) (max : ℤ) (ms : List Message)
    → pos_part max < 2 ^ 63
    → Failed low n max ms
    → AtLeast low n ms
Failed-AtLeast low n max [] int_ f = tt
Failed-AtLeast low n max (m ∷ ms) int_ f =
    (f.0, below_limit m.retry max int_ f.1, Failed-AtLeast low n max ms int_ f.2)

next_int-Reaches :
    (low : ℤ) (n : ℕ) (r : ℤ)
    → Reaches low n r
    → pos_part r + 1 < 2 ^ 63
    → Reaches low (suc n) (next_int r)
next_int-Reaches low n (pos r) h k = ground arith
next_int-Reaches low n (negsuc zero) h k = ground arith
next_int-Reaches low n (negsuc (suc r)) h k = ground arith

module _ {S W : Type 0} (st : Storage S) (publish : Message → W → Option Error × W) (max : ℤ) where
  process_one-Failed :
      (low : ℤ) (n : ℕ) (m : Message) (remain : List Message) (s : S) (o : Option Error × W)
      → Reaches low n m.retry
      → pos_part m.retry + 1 < 2 ^ 63
      → Failed low (suc n) max remain
      → Failed low (suc n) max (process_one st publish max m remain s o).0
  unfolding process_one
  process_one-Failed low n m remain s (none, w) h b f = f
  process_one-Failed low n m remain s (some e, w) h b f =
      elim (Bool-cases (ltb_ℤ (next_int m.retry) max)) [
        | inl k ↦
            rw k (Failed-append low (suc n) max remain _ f (next_int-Reaches low n m.retry h b) k)
        | inr k ↦ rw k f
      ]

  process_all-Failed :
      (low : ℤ) (n : ℕ) (ms remain : List Message) (s : S) (w : W)
      → AtLeast low n ms
      → Failed low (suc n) max remain
      → Failed low (suc n) max (process_all st publish max ms remain s w).0
  unfolding process_all
  process_all-Failed low n [] remain s w a f = f
  process_all-Failed low n (m ∷ ms) remain s w a f =
      process_all-Failed low n ms _ _ _ a.2
        (process_one-Failed low n m remain s (publish m w) a.0 a.1 f)

  -- Process, a number of times.
  pub rounds : ℕ → OutboundQueue S → W → OutboundQueue S × W
  rounds zero q w = (q, w)
  rounds (suc n) q w = let (q', w') = process st publish max q w in rounds n q' w'

  no_shift : (n : ℕ) → 0 + n ≡ n
  no_shift n = omega arith

  rounds-Failed :
      (low : ℤ) (k n : ℕ) (q : OutboundQueue S) (w : W)
      → pos_part max < 2 ^ 63
      → Failed low n max q.queue
      → Failed low (k + n) max (rounds k q w).0.queue
  unfolding rounds process
  rounds-Failed low zero n q w int_ f = rw (no_shift n) f
  rounds-Failed low (suc k) n q w int_ f = rw (shift k n) (
      rounds-Failed low k (suc n) (process st publish max q w).0 (process st publish max q w).1 int_
        (process_all-Failed low n q.queue [] q.storage w (Failed-AtLeast low n max q.queue int_ f)
          tt))
    where
      shift : (k n : ℕ) → suc k + n ≡ k + suc n
      shift k n = omega arith

  none_left :
      (low : ℤ) (n : ℕ) (ms : List Message)
      → pos_part max + neg_part low ≤ pos_part low + n + neg_part max
      → Failed low n max ms
      → ms ≡ []
  none_left low n [] h f = refl
  none_left low n (m ∷ ms) h f = absurd (ground arith)

  -- Whatever the broker answers: if no message of the queue has a Retry below low, or the greatest int,
  -- and max_retry is an int, then the queue is empty after k + 1 rounds, where low + k + 1 is at least
  -- max_retry. Where no Retry is negative, that is after max_retry rounds, and one at least.
  pub rounds_empty :
      (low : ℤ) (k : ℕ) (q : OutboundQueue S) (w : W)
      → pos_part max < 2 ^ 63
      → AtLeast low 0 q.queue
      → pos_part max + neg_part low ≤ pos_part low + suc k + neg_part max
      → (rounds (suc k) q w).0.queue ≡ []
  unfolding rounds process
  rounds_empty low k q w int_ a h = none_left low (k + 1) _ (omega arith) (
      rounds-Failed low k 1 (process st publish max q w).0 (process st publish max q w).1 int_
        (process_all-Failed low 0 q.queue [] q.storage w a tt))
