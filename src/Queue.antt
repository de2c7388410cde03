-- ===== src/Queue.antt =====
-- uplink/sparkplugb/queue.go: the outbound queue with its storage. The mutex and the sleeps between
-- attempts are not modelled.
pub mod Rounds
pub mod Dropped
use sensor_edge.Prelude.Int.{ltb_ℤ}
use sensor_edge.Prelude.{
  pos, negsuc, zero, suc, ltb, ◌^◌, ◌-◌, if◌then◌else◌, ◌+◌, [], none, ℤ, ◌∷◌, ℕ, some, Option,
  String, List, ◌++◌,
}
use sensor_edge.Go.{Error, Outcome, ok, panic}

pub record Message : Type 0 where
  pub id : String
  pub topic : String
  pub qos : ℕ
  pub payload : List ℕ
  pub created : ℕ
  pub retry : ℤ

-- `Retry++` on an int of 64 bits: the greatest int is followed by the smallest.
abbrev pub next_int : ℤ → ℤ
next_int (pos n) = if ltb (n + 1) (2 ^ 63) then pos (n + 1) else negsuc (2 ^ 63 - 1)
next_int (negsuc zero) = pos 0
next_int (negsuc (suc n)) = negsuc n

-- The Storage interface over a state S; the errors of Save, Delete and LoadAll are discarded.
pub record Storage (S : Type 0) : Type 0 where
  pub save : Message → S → S
  pub delete : String → S → S
  pub load_all : S → List Message

pub record OutboundQueue (S : Type 0) : Type 0 where
  pub queue : List Message
  pub storage : S

module _ {S : Type 0} (st : Storage S) where
  -- A nil storage panics.
  unfoldable pub new_outbound_queue : Option S → Outcome (OutboundQueue S)
  new_outbound_queue none = panic
  new_outbound_queue (some s) = ok (record { queue = st.load_all s; storage = s })

  unfoldable pub enqueue : OutboundQueue S → Message → OutboundQueue S
  enqueue q m = record { queue = q.queue ++ m ∷ []; storage = st.save m q.storage }

  module _ {W : Type 0} (publish : Message → W → Option Error × W) where
    -- One message: those that remain so far, the storage and the world after it.
    unfoldable pub process_one :
        ℤ → Message → List Message → S → Option Error × W → List Message × S × W
    process_one max_retry m remain s (none, w) = (remain, st.delete m.id s, w)
    process_one max_retry m remain s (some e, w) =
        let again : Message = record m { retry = next_int m.retry } in
        (if ltb_ℤ again.retry max_retry then remain ++ again ∷ [] else remain, s, w)

    unfoldable pub process_all : ℤ → List Message → List Message → S → W → List Message × S × W
    process_all max_retry [] remain s w = (remain, s, w)
    process_all max_retry (m ∷ ms) remain s w =
        let (remain', s', w') = process_one max_retry m remain s (publish m w) in
        process_all max_retry ms remain' s' w'

    unfoldable pub process : ℤ → OutboundQueue S → W → OutboundQueue S × W
    process max_retry q w =
        let (remain, s, w') = process_all max_retry q.queue [] q.storage w in
        (record { queue = remain; storage = s }, w')
