-- ===== src/Ipc/Cores/History.antt =====
-- What the two cores of bridge-core/src/ipc.rs can rely on, in every order of their accesses.
use mathlib.Core.Path.{subst}
use micro_bacnet_bridge.Base.{
  ℕ, suc, ◌+◌, ◌%◌, ◌≤◌, ◌≡◌, ◌≢◌, sym, ap, ◌∙◌, arith, List, [], ◌∷◌, ◌++◌,
}
use micro_bacnet_bridge.Base.{false, length, leb, ◌==◌}
use micro_bacnet_bridge.Ipc.{BacnetPdu, wrapping_sub}
use micro_bacnet_bridge.Ipc.Slots.{IsCapacity, slot_wrap, slot_ne}
use micro_bacnet_bridge.Ipc.Cores.{
  p_loaded, c_loaded, Cores, start, Turn, producers, consumers, turn, run,
}
use micro_bacnet_bridge.Ipc.Cores.InOrder.{ProducerKnows, ConsumerKnows, InOrder, start-InOrder}
use micro_bacnet_bridge.Ipc.Cores.Producing.{produce-InOrder, room_left, last_slot}
use micro_bacnet_bridge.Ipc.Cores.Consuming.{consume-InOrder, copied_front}

module _ {n : ℕ} (c : IsCapacity n) where
  run-InOrder : (os : List Turn) {s : Cores} → InOrder n s → InOrder n (run n os s)
  unfolding run turn
  run-InOrder [] w = w
  run-InOrder (producers pdu ∷ os) {s} w =
      run-InOrder os (produce-InOrder c pdu s.producer w w.producer_knows)
  run-InOrder (consumers ∷ os) {s} w =
      run-InOrder os (consume-InOrder c s.consumer w w.consumer_knows)

-- In every order of the two cores' accesses, from an empty ring of a power of two of slots, the
-- PDUs that `pop` has returned are the first ones that `push` accepted, in that order, and at most
-- as many as the ring has slots are still to come.
pub cores_in_order :
    (n : ℕ) (os : List Turn)
    → IsCapacity n
    → let s = run n os (start n) in
      (left : List BacnetPdu) × (s.sent ≡ s.received ++ left) × (length left ≤ n)
cores_in_order n os c =
    let w = run-InOrder c os (start-InOrder c) in (w.left, w.history, w.holds.fits)

-- In every order of the two cores' accesses, from an empty ring of a power of two of slots, when
-- `push` is about to write a slot and `pop` is about to read one, the slots are different.
pub cores_no_race :
    (n : ℕ) (os : List Turn) (p : BacnetPdu) (h t h' t' : ℕ)
    → IsCapacity n
    → (run n os (start n)).producer ≡ p_loaded p h t
    → leb n (wrapping_sub h t) ≡ false
    → (run n os (start n)).consumer ≡ c_loaded h' t'
    → (h' == t') ≡ false
    → h % n ≢ t' % n
cores_no_race n os p h t h' t' c ep room ec ne =
    let s = run n os (start n) in
    let w : InOrder n s = run-InOrder c os (start-InOrder c) in
    let kp = subst (ProducerKnows n s.ring (length s.received) w.left) ep w.producer_knows in
    let kc = subst (ConsumerKnows n s.ring (length s.received) w.left) ec w.consumer_knows in
    let below = room_left c h t p w.holds kp room in
    let (q', front) = copied_front c w.left h' t' w.holds kc ne in
    let some_left : length w.left ≡ suc (length q') = ap length front in
    let writes : h % n ≡ (length s.received + length w.left) % n = last_slot c h w.holds kp.0 in
    let reads : t' % n ≡ length s.received % n =
      rw (kc.0, w.holds.tail) (slot_wrap c (length s.received)) in
    λ same.
      slot_ne c (length s.received) (length w.left) (omega arith) below
        (sym reads ∙ sym same ∙ writes)
