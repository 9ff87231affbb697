-- ===== src/Ipc/Cores/Producing.antt =====
-- The accesses of `push` in bridge-core/src/ipc.rs keep the invariant of the two cores.
use native.Mathlib.Nat.{mod-lt}
use micro_bacnet_bridge.Base.{ℕ, ◌+◌, ◌%◌, ◌<◌, ◌≡◌, refl, sym, ap, ◌∙◌, arith}
use micro_bacnet_bridge.Base.{
  List, [], ◌∷◌, ◌++◌, append_assoc, append-nil, false, some, length, length-append,
}
use micro_bacnet_bridge.Base.{
  length-set, get_elem?, set, ltb, ltb→lt, get_elem?-append, get_elem?-append_left,
  get_elem?-set_self, leb,
}
use micro_bacnet_bridge.Base.{Bool-cases, inl, inr}
use micro_bacnet_bridge.Ipc.{BacnetPdu, RingBuffer, next_u32, wrapping_sub}
use micro_bacnet_bridge.Ipc.Slots.{IsCapacity, capacity_pos, capacity_small, slot_wrap}
use micro_bacnet_bridge.Ipc.Ring.{Represents, stored-set}
use micro_bacnet_bridge.Ipc.Cores.{
  Producer, p_idle, p_head, p_loaded, p_stored, Consumer, c_idle, c_head, c_loaded, c_copied, Cores,
  produce,
}
use micro_bacnet_bridge.Ipc.Cores.InOrder.{ProducerKnows, ConsumerKnows, InOrder}

module _ {n : ℕ} (c : IsCapacity n) where
  -- The producer's steps leave the consumer what it knows.
  consumer_keeps :
      (r r' : RingBuffer) (m : ℕ) (q : List BacnetPdu) (x : Consumer) (more : List BacnetPdu)
      → r'.tail ≡ r.tail
      → ConsumerKnows n r m q x
      → ConsumerKnows n r' m (q ++ more) x
  consumer_keeps r r' m q c_idle more e k = tt
  consumer_keeps r r' m q (c_head h) more e (h', at, low, high) =
      (h', at, low, omega (arith, length-append q more))
  consumer_keeps r r' m q (c_loaded h t) more e (ht, (h', at, low, high)) =
      (ht ∙ sym e, (h', at, low, omega (arith, length-append q more)))
  consumer_keeps r r' m q (c_copied t p) more e (ht, (q', front)) =
      (ht ∙ sym e, (q' ++ more, ap (λ (xs : List BacnetPdu). xs ++ more) front))

  -- The producer's test with a stale `t` is on the safe side.
  pub room_left :
      {r : RingBuffer} {m : ℕ} {q : List BacnetPdu} (h t : ℕ) (p : BacnetPdu)
      → Represents n r m q
      → ProducerKnows n r m q (p_loaded p h t)
      → leb n (wrapping_sub h t) ≡ false
      → length q < n
  room_left h t p v (hh, (t', at, low, high)) e =
      let head = v.head in let cap = capacity_small c in ground (arith, hh, at, head, cap)

  pub last_slot :
      {r : RingBuffer} {m : ℕ} {q : List BacnetPdu} (h : ℕ)
      → Represents n r m q
      → h ≡ r.head
      → h % n ≡ (m + length q) % n
  last_slot {m} {q} h v e = rw (e, v.head) (slot_wrap c (m + length q))

  stored_ring :
      {r : RingBuffer} {m : ℕ} {q : List BacnetPdu} (h : ℕ) (p : BacnetPdu)
      → Represents n r m q
      → h ≡ r.head
      → length q < n
      → Represents n (record { head = r.head; tail = r.tail; slots = set r.slots (h % n) p }) m q
  stored_ring {r} {m} {q} h p v e room = record {
    head = v.head;
    tail = v.tail;
    size = length-set r.slots (h % n) p ∙ v.size;
    fits = v.fits;
    stored = rw (last_slot h v e) (stored-set c r.slots m q p v.size room v.stored);
  }

  stored_item :
      {r : RingBuffer} {m : ℕ} {q : List BacnetPdu} (h : ℕ) (p : BacnetPdu)
      → Represents n r m q
      → h ≡ r.head
      → get_elem? (set r.slots (h % n) p) ((m + length q) % n) ≡ some p
  stored_item {r} {m} {q} h p v e =
      let size = v.size in
      rw (last_slot h v e) (
        get_elem?-set_self r.slots ((m + length q) % n) p
          (omega (arith, mod-lt (m + length q) (capacity_pos c))))

  published_ring :
      {r : RingBuffer} {m : ℕ} {q : List BacnetPdu} (h : ℕ) (p : BacnetPdu)
      → Represents n r m q
      → ProducerKnows n r m q (p_stored p h)
      → Represents n
          (record { head = next_u32 h; tail = r.tail; slots = r.slots })
          m
          (q ++ (p ∷ []))
  published_ring {r} {m} {q} h p v (hh, room, at) = record {
    head = rw (hh, v.head, length-append q (p ∷ [])) (omega arith);
    tail = v.tail;
    size = v.size;
    fits = omega (arith, length-append q (p ∷ []));
    stored = λ i below. elim (Bool-cases (ltb i (length q))) [
      | inl old ↦
          let lt : i < length q = ltb→lt _ _ old in
          v.stored i lt ∙ sym (get_elem?-append_left q (p ∷ []) i lt)
      | inr last ↦
          let e : i ≡ length q = ground (arith, length-append q (p ∷ [])) in
          rw (e) (at ∙ sym (get_elem?-append q p []))
    ];
  }

  pub produce-InOrder :
      (pdu : BacnetPdu) (x : Producer) {s : Cores} (w : InOrder n s)
      → ProducerKnows n s.ring (length s.received) w.left x
      → InOrder n (produce n pdu x s)
  unfolding produce
  produce-InOrder pdu p_idle w k = record {
    left = w.left;
    history = w.history;
    holds = w.holds;
    producer_knows = refl;
    consumer_knows = w.consumer_knows;
  }
  produce-InOrder pdu (p_head p h) {s} w k = record {
    left = w.left;
    history = w.history;
    holds = w.holds;
    producer_knows =
        (k, (length s.received, w.holds.tail, omega arith, omega (arith, w.holds.fits)));
    consumer_knows = w.consumer_knows;
  }
  produce-InOrder pdu (p_loaded p h t) {s} w k = elim (Bool-cases (leb n (wrapping_sub h t))) [
    | inl full ↦ rw (full) (record {
      left = w.left;
      history = w.history;
      holds = w.holds;
      producer_knows = tt;
      consumer_knows = w.consumer_knows;
    })
    | inr room ↦
        let below = room_left h t p w.holds k room in
        rw (room) (record {
          left = w.left;
          history = w.history;
          holds = stored_ring h p w.holds k.0 below;
          producer_knows = (k.0, below, stored_item h p w.holds k.0);
          consumer_knows = rw (append-nil w.left) at (
              consumer_keeps s.ring (record s.ring { slots = set s.ring.slots (h % n) p })
                (length s.received) w.left s.consumer [] refl w.consumer_knows);
        })
  ]
  produce-InOrder pdu (p_stored p h) {s} w k = record {
    left = w.left ++ (p ∷ []);
    history = rw (w.history) (append_assoc s.received w.left (p ∷ []));
    holds = published_ring h p w.holds k;
    producer_knows = tt;
    consumer_knows =
        consumer_keeps s.ring (record s.ring { head = next_u32 h }) (length s.received) w.left
          s.consumer (p ∷ []) refl w.consumer_knows;
  }
