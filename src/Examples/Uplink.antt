-- ===== src/Examples/Uplink.antt =====
-- The outbound queue before a broker that is away.
use sensor_edge.Go.{eof, ok, Error}
use text.Mathlib.TextEquality.{eq_iff}
use text.Mathlib.Text.{◌==◌ as str_eq}
use sensor_edge.Queue.{new_outbound_queue, Storage, process, enqueue, OutboundQueue, Message}
use sensor_edge.Prelude.{
  arith, ap, ◌∙◌, inl, inr, ◌+◌, some, refl, if◌then◌else◌, ◌≡◌, Option, List, ℕ, pos, String, [],
  ◌∷◌,
}
use sensor_edge.Queue.Rounds.{rounds, rounds_empty}
use sensor_edge.Queue.Dropped.{
  process_drops, enqueue_all, loaded, Remembers, IsNewIn, Stands, AllNew,
}

abbrev without : String → List Message → List Message
without id [] = []
without id (m ∷ ms) = let rest = without id ms in if str_eq m.id id then rest else m ∷ rest

-- A storage that is a list.
abbrev table : Storage (List Message)
table = record { save = λ m s. m ∷ s; delete = without; load_all = λ s. s }

abbrev message : String → Message
message id = record {
  id = id;
  topic = "spBv1.0/g/DDATA/n";
  qos = 1;
  payload = [];
  created = 7;
  retry = pos 0;
}

-- The world counts the attempts, and none succeeds.
abbrev refuse : Message → ℕ → Option Error × ℕ
refuse m w = (some eof, w + 1)

abbrev full : OutboundQueue (List Message)
full = record { queue = message "a" ∷ message "b" ∷ []; storage = message "a" ∷ message "b" ∷ [] }

rounds_empty_example : (rounds table refuse (pos 3) 3 full 0).0.queue ≡ []
rounds_empty_example =
    rounds_empty table refuse (pos 3) (pos 0) 2 full 0 (omega arith)
      (omega arith, omega arith, (omega arith, omega arith, tt)) (omega arith)

remembers : Remembers table
remembers m s = (inl refl, λ x h new_. inr h)

b_is_new : IsNewIn (message "b") (message "a" ∷ [])
b_is_new x (inl e) same = let ids = (eq_iff "a" "b").1 (ap (λ (m : Message). m.id) e ∙ same) in cc
b_is_new x (inr h) same = h

process_drops_example :
    let q = enqueue_all table (loaded table []) (message "a" ∷ message "b" ∷ []) in
    let q' = (process table refuse (pos 1) q 0).0 in
    (new_outbound_queue table (some []) ≡ ok (loaded table []))
    × (q'.queue ≡ [])
    × ((again : OutboundQueue (List Message)) × (new_outbound_queue table (some q'.storage)
          ≡ ok again)
        × ((m : Message) → Stands m q.queue → Stands m again.queue))
unfolding enqueue_all AllNew enqueue
process_drops_example =
    process_drops table refuse (pos 1) [] (message "a" ∷ message "b" ∷ []) 0 remembers
      ((λ x h. absurd h), (b_is_new, tt))
      ((λ w. (eof, w + 1, refl)), refl, ((λ w. (eof, w + 1, refl)), refl, tt))
