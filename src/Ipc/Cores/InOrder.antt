-- ===== src/Ipc/Cores/InOrder.antt =====
-- The invariant of the two cores of bridge-core/src/ipc.rs, kept by each access.
use micro_bacnet_bridge.Base.{ℕ, ◌+◌, ◌%◌, ◌^◌, ◌≤◌, ◌<◌, ◌≡◌, refl}
use micro_bacnet_bridge.Base.{List, [], ◌∷◌, ◌++◌, some, length}
use micro_bacnet_bridge.Base.{get_elem?}
use micro_bacnet_bridge.Ipc.{BacnetPdu, RingBuffer}
use micro_bacnet_bridge.Ipc.Slots.{IsCapacity}
use micro_bacnet_bridge.Ipc.Ring.{Represents, new_ring-Represents}
use micro_bacnet_bridge.Ipc.Cores.{
  Producer, p_idle, p_head, p_loaded, p_stored, Consumer, c_idle, c_head, c_loaded, c_copied, Cores,
  start,
}

-- What the producer knows, when `m` items were taken and `q` are left: its `h` is current, and its `t`
-- is one that was current when the items up to the head were already counted.
abbrev pub ProducerKnows : ℕ → RingBuffer → ℕ → List BacnetPdu → Producer → Type 0
ProducerKnows n r m q p_idle = Unit {0}
ProducerKnows n r m q (p_head p h) = h ≡ r.head
ProducerKnows n r m q (p_loaded p h t) =
    (h ≡ r.head) × ((t' : ℕ) × (t ≡ t' % 2 ^ 32) × (t' ≤ m) × (m + length q ≤ t' + n))
ProducerKnows n r m q (p_stored p h) =
    (h ≡ r.head) × (length q < n) × (get_elem? r.slots ((m + length q) % n) ≡ some p)

abbrev pub ConsumerKnows : ℕ → RingBuffer → ℕ → List BacnetPdu → Consumer → Type 0
ConsumerKnows n r m q c_idle = Unit {0}
ConsumerKnows n r m q (c_head h) = (h' : ℕ) × (h ≡ h' % 2 ^ 32) × (m ≤ h') × (h' ≤ m + length q)
ConsumerKnows n r m q (c_loaded h t) =
    (t ≡ r.tail) × ((h' : ℕ) × (h ≡ h' % 2 ^ 32) × (m ≤ h') × (h' ≤ m + length q))
ConsumerKnows n r m q (c_copied t p) = (t ≡ r.tail) × ((q' : List BacnetPdu) × (q ≡ p ∷ q'))

pub record InOrder (n : ℕ) (s : Cores) : Type 0 where
  pub left : List BacnetPdu
  pub history : s.sent ≡ s.received ++ left
  pub holds : Represents n s.ring (length s.received) left
  pub producer_knows : ProducerKnows n s.ring (length s.received) left s.producer
  pub consumer_knows : ConsumerKnows n s.ring (length s.received) left s.consumer

module _ {n : ℕ} (c : IsCapacity n) where
  pub start-InOrder : InOrder n (start n)
  unfolding start
  start-InOrder = record {
    left = [];
    history = refl;
    holds = new_ring-Represents c;
    producer_knows = tt;
    consumer_knows = tt;
  }
