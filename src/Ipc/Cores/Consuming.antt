-- ===== src/Ipc/Cores/Consuming.antt =====
-- The accesses of `pop` in bridge-core/src/ipc.rs keep the invariant of the two cores.
use mathlib.Core.Path.{subst}
use micro_bacnet_bridge.Base.{ℕ, suc, ◌+◌, ◌%◌, ◌≡◌, refl, sym, ap, ◌∙◌, arith}
use micro_bacnet_bridge.Base.{List, [], ◌∷◌, ◌++◌, append_assoc, false, length, length-append}
use micro_bacnet_bridge.Base.{get_or, get_or-get_elem?, ◌==◌}
use micro_bacnet_bridge.Base.{Bool-cases, inl, inr}
use micro_bacnet_bridge.Ipc.{BacnetPdu, RingBuffer, new_pdu, next_u32}
use micro_bacnet_bridge.Ipc.Slots.{IsCapacity, slot_wrap}
use micro_bacnet_bridge.Ipc.Ring.{Represents, popped-Represents}
use micro_bacnet_bridge.Ipc.Cores.{
  Producer, p_idle, p_head, p_loaded, p_stored, Consumer, c_idle, c_head, c_loaded, c_copied, Cores,
  consume,
}
use micro_bacnet_bridge.Ipc.Cores.InOrder.{ProducerKnows, ConsumerKnows, InOrder}

module _ {n : ℕ} (c : IsCapacity n) where
  -- An item taken out leaves the producer what it knows.
  producer_keeps :
      (r r' : RingBuffer) (m : ℕ) (q q' : List BacnetPdu) {p : BacnetPdu} (x : Producer)
      → r'.head ≡ r.head
      → r'.slots ≡ r.slots
      → q ≡ p ∷ q'
      → ProducerKnows n r m q x
      → ProducerKnows n r' (m + 1) q' x
  producer_keeps r r' m q q' p_idle eh es eq k = tt
  producer_keeps r r' m q q' (p_head p h) eh es eq k = k ∙ sym eh
  producer_keeps r r' m q q' (p_loaded p h t) eh es eq (hh, (t', at, low, high)) =
      let l : length q ≡ suc (length q') = ap length eq in
      (hh ∙ sym eh, (t', at, omega arith, omega arith))
  producer_keeps r r' m q q' (p_stored p h) eh es eq (hh, room, at) =
      let l : length q ≡ suc (length q') = ap length eq in
      let e : m + 1 + length q' ≡ m + length q = omega arith in
      (hh ∙ sym eh, omega arith, rw (es, e) at)

  pub copied_front :
      {r : RingBuffer} {m : ℕ} (q : List BacnetPdu) (h t : ℕ)
      → Represents n r m q
      → ConsumerKnows n r m q (c_loaded h t)
      → (h == t) ≡ false
      → (q' : List BacnetPdu) × (q ≡ get_or r.slots (t % n) new_pdu ∷ q')
  copied_front [] h t v (ht, (h', at, low, high)) ne =
      let tail = v.tail in absurd (ground (arith, ht, at, tail, ne))
  copied_front {r} {m} (p ∷ q') h t v (ht, (h', at, low, high)) ne =
      let slot : t % n ≡ (m + 0) % n =
        rw (ht, v.tail) (slot_wrap c m ∙ ap (λ (a : ℕ). a % n) (omega arith)) in
      (
        q',
        rw (slot, get_or-get_elem? r.slots ((m + 0) % n) new_pdu (v.stored 0 (omega arith))) refl,
      )

  taken_ring :
      {r : RingBuffer} {m : ℕ} {q : List BacnetPdu} (t : ℕ) (p : BacnetPdu) (q' : List BacnetPdu)
      → Represents n r m q
      → t ≡ r.tail
      → q ≡ p ∷ q'
      → Represents n (record { head = r.head; tail = next_u32 t; slots = r.slots }) (m + 1) q'
  taken_ring {r} {m} {q} t p q' v e front =
      rw (e) (popped-Represents c (subst (Represents n r m) front v))

  pub consume-InOrder :
      (x : Consumer) {s : Cores} (w : InOrder n s)
      → ConsumerKnows n s.ring (length s.received) w.left x
      → InOrder n (consume n x s)
  unfolding consume
  consume-InOrder c_idle {s} w k = record {
    left = w.left;
    history = w.history;
    holds = w.holds;
    producer_knows = w.producer_knows;
    consumer_knows = (length s.received + length w.left, w.holds.head, omega arith, omega arith);
  }
  consume-InOrder (c_head h) w k = record {
    left = w.left;
    history = w.history;
    holds = w.holds;
    producer_knows = w.producer_knows;
    consumer_knows = (refl, k);
  }
  consume-InOrder (c_loaded h t) {s} w k = elim (Bool-cases (h == t)) [
    | inl same ↦ rw (same) (record {
      left = w.left;
      history = w.history;
      holds = w.holds;
      producer_knows = w.producer_knows;
      consumer_knows = tt;
    })
    | inr ne ↦ rw (ne) (record {
      left = w.left;
      history = w.history;
      holds = w.holds;
      producer_knows = w.producer_knows;
      consumer_knows = (k.0, copied_front w.left h t w.holds k ne);
    })
  ]
  consume-InOrder (c_copied t p) {s} w (ht, (q', front)) =
      let count : length (s.received ++ (p ∷ [])) ≡ length s.received + 1 =
        length-append s.received (p ∷ []) in
      record {
        left = q';
        history =
            w.history ∙ ap (◌++◌ s.received) front ∙ sym (append_assoc s.received (p ∷ []) q');
        holds = rw (count) (taken_ring t p q' w.holds ht front);
        producer_knows = rw (count) (
            producer_keeps s.ring (record s.ring { tail = next_u32 t }) (length s.received) w.left
              q' s.producer refl refl front w.producer_knows);
        consumer_knows = tt;
      }
