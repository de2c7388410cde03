-- ===== src/Queue/Dropped.antt =====
-- What becomes of messages in the storage.
use sensor_edge.Prelude.Int.{leb_ℤ, ltb_ℤ}
use sensor_edge.Go.{ok, Error}
use sensor_edge.Prelude.{
  arith, true, false, refl, some, ◌∷◌, [], ◌++◌, List, ◌≡◌, ◌≢◌, ◌⊎◌, inl, inr, ℤ, Option,
}
use sensor_edge.Queue.{
  Message, Storage, OutboundQueue, next_int, process_one, process_all, process, new_outbound_queue,
  enqueue,
}
use mathlib.Core.Path.{subst}

-- The message stands in the list.
abbrev pub Stands : Message → List Message → Type 0
Stands m [] = ⊥
Stands m (x ∷ xs) = (x ≡ m) ⊎ Stands m xs

Stands-append :
    (m y : Message) (xs : List Message) → Stands m (xs ++ y ∷ []) → Stands m xs ⊎ (y ≡ m)
Stands-append m y [] (inl e) = inr e
Stands-append m y [] (inr h) = absurd h
Stands-append m y (x ∷ xs) (inl e) = inl (inl e)
Stands-append m y (x ∷ xs) (inr h) = elim (Stands-append m y xs h) [
  | inl k ↦ inl (inr k)
  | inr e ↦ inr e
]

-- No message of the list has this id.
abbrev pub IsNewIn : Message → List Message → Type 0
IsNewIn m xs = (x : Message) → Stands x xs → x.id ≢ m.id

module _ {S : Type 0} (st : Storage S) where
  -- A message that is saved is loaded, and saving it hides no message with another id.
  abbrev pub Remembers : Type 0
  Remembers =
      (m : Message) (s : S)
      → Stands m (st.load_all (st.save m s))
        × ((x : Message)
            → Stands x (st.load_all s)
            → x.id ≢ m.id
            → Stands x (st.load_all (st.save m s)))

  -- NewOutboundQueue
  abbrev pub loaded : S → OutboundQueue S
  loaded s = record { queue = st.load_all s; storage = s }

  unfoldable pub enqueue_all : OutboundQueue S → List Message → OutboundQueue S
  enqueue_all q [] = q
  enqueue_all q (m ∷ ms) = enqueue_all (enqueue st q m) ms

  -- Each message has an id that the queue does not have when it is enqueued.
  unfoldable pub AllNew : OutboundQueue S → List Message → Type 0
  AllNew q [] = Unit
  AllNew q (m ∷ ms) = IsNewIn m q.queue × AllNew (enqueue st q m) ms

  abbrev IsBacked : OutboundQueue S → Type 0
  IsBacked q = (m : Message) → Stands m q.queue → Stands m (st.load_all q.storage)

  enqueue-IsBacked :
      (q : OutboundQueue S) (m : Message)
      → Remembers
      → IsNewIn m q.queue
      → IsBacked q
      → IsBacked (enqueue st q m)
  unfolding enqueue
  enqueue-IsBacked q m law new_ back x h = elim (Stands-append x m q.queue h) [
    | inl k ↦ (law m q.storage).1 x (back x k) (new_ x k)
    | inr e ↦ subst (λ y. Stands y (st.load_all (st.save m q.storage))) e (law m q.storage).0
  ]

  enqueue_all-IsBacked :
      (ms : List Message) (q : OutboundQueue S)
      → Remembers
      → AllNew q ms
      → IsBacked q
      → IsBacked (enqueue_all q ms)
  unfolding enqueue_all AllNew
  enqueue_all-IsBacked [] q law new_ back = back
  enqueue_all-IsBacked (m ∷ ms) q law new_ back =
      enqueue_all-IsBacked ms (enqueue st q m) law new_.1 (enqueue-IsBacked q m law new_.0 back)

module _ {S W : Type 0} (st : Storage S) (publish : Message → W → Option Error × W) (max : ℤ) where
  -- Every message of the list fails now, and has no attempt left.
  abbrev pub Exhausted : List Message → Type 0
  Exhausted [] = Unit
  Exhausted (m ∷ ms) =
      ((w : W) → (e : Error) × (w' : W) × (publish m w ≡ (some e, w')))
      × (leb_ℤ max (next_int m.retry) ≡ true)
      × Exhausted ms

  process_all_drops :
      (ms remain : List Message) (s : S) (w : W)
      → Exhausted ms
      → (w' : W) × (process_all st publish max ms remain s w ≡ (remain, s, w'))
  unfolding process_all process_one
  process_all_drops [] remain s w x = (w, refl)
  process_all_drops (m ∷ ms) remain s w x =
      let (e, w', failed) = x.0 w in
      let none_left : ltb_ℤ (next_int m.retry) max ≡ false = not_below (next_int m.retry) x.1 in
      let (w'', rest) = process_all_drops ms remain s w' x.2 in (w'', rw (failed, none_left) rest)
    where
      not_below : (r : ℤ) → leb_ℤ max r ≡ true → ltb_ℤ r max ≡ false
      not_below r h = ground arith

  -- A queue is made of a storage, and messages with new ids are enqueued. If then all its messages fail
  -- their last attempt, they leave the queue and stay in the storage, which is not told: a queue made
  -- of that storage again has every one of them, with the Retry that it had before the attempt. The
  -- storage is assumed to load what was saved, until a message with the same id is saved.
  pub process_drops :
      (s : S) (ms : List Message) (w : W)
      → Remembers st
      → AllNew st (loaded st s) ms
      → Exhausted (enqueue_all st (loaded st s) ms).queue
      → let q = enqueue_all st (loaded st s) ms in
        let q' = (process st publish max q w).0 in
        (new_outbound_queue st (some s) ≡ ok (loaded st s))
        × (q'.queue ≡ [])
        × ((again : OutboundQueue S) × (new_outbound_queue st (some q'.storage) ≡ ok again)
            × ((m : Message) → Stands m q.queue → Stands m again.queue))
  unfolding process new_outbound_queue
  process_drops s ms w law new_ x =
      let q = enqueue_all st (loaded st s) ms in
      let (w', e) = process_all_drops q.queue [] q.storage w x in
      rw e (
        refl,
        refl,
        (loaded st q.storage, refl, enqueue_all-IsBacked st ms (loaded st s) law new_ (λ m k. k)),
      )
