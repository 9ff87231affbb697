-- ===== src/Ipc/Cores.antt =====
-- The two cores on the ring of bridge-core/src/ipc.rs: `push` on one and `pop` on the other, one access
-- to the shared memory at a time, in any order. The fences keep each core's accesses in the order of the program.
pub mod InOrder
pub mod Producing
pub mod Consuming
pub mod History
use micro_bacnet_bridge.Base.{ℕ, ◌%◌, List, [], ◌∷◌, ◌++◌, get_or, set, leb, ◌==◌, if◌then◌else◌}
use micro_bacnet_bridge.Ipc.{BacnetPdu, RingBuffer, new_pdu, new_ring, next_u32, wrapping_sub}

-- Where `push` stands: its `h` and `t` as far as it has read them.
pub data Producer : Type 0 where
  p_idle : Producer
  p_head : BacnetPdu → ℕ → Producer
  p_loaded : BacnetPdu → ℕ → ℕ → Producer
  p_stored : BacnetPdu → ℕ → Producer

-- Where `pop` stands.
pub data Consumer : Type 0 where
  c_idle : Consumer
  c_head : ℕ → Consumer
  c_loaded : ℕ → ℕ → Consumer
  c_copied : ℕ → BacnetPdu → Consumer

-- `sent` and `received` are the PDUs that `push` has accepted and that `pop` has returned, so far.
pub record Cores : Type 0 where
  pub ring : RingBuffer
  pub producer : Producer
  pub consumer : Consumer
  pub sent : List BacnetPdu
  pub received : List BacnetPdu

unfoldable pub start : ℕ → Cores
start n = record {
  ring = new_ring n;
  producer = p_idle;
  consumer = c_idle;
  sent = [];
  received = [];
}

-- The next access of `push`, or the start of `push(&pdu)`.
unfoldable pub produce : ℕ → BacnetPdu → Producer → Cores → Cores
produce n pdu p_idle s = record s { producer = p_head pdu s.ring.head }
produce n pdu (p_head p h) s = record s { producer = p_loaded p h s.ring.tail }
produce n pdu (p_loaded p h t) s =
    if leb n (wrapping_sub h t) then record s { producer = p_idle } else record s {
      ring = record { head = s.ring.head; tail = s.ring.tail; slots = set s.ring.slots (h % n) p };
      producer = p_stored p h;
    }
produce n pdu (p_stored p h) s = record s {
  ring = record { head = next_u32 h; tail = s.ring.tail; slots = s.ring.slots };
  producer = p_idle;
  sent = s.sent ++ (p ∷ []);
}

-- The next access of `pop`, or its start.
unfoldable pub consume : ℕ → Consumer → Cores → Cores
consume n c_idle s = record s { consumer = c_head s.ring.head }
consume n (c_head h) s = record s { consumer = c_loaded h s.ring.tail }
consume n (c_loaded h t) s =
    if h == t
    then record s { consumer = c_idle }
    else record s { consumer = c_copied t (get_or s.ring.slots (t % n) new_pdu) }
consume n (c_copied t p) s = record s {
  ring = record { head = s.ring.head; tail = next_u32 t; slots = s.ring.slots };
  consumer = c_idle;
  received = s.received ++ (p ∷ []);
}

-- Whose turn it is; the producer's core brings the PDU it pushes next.
pub data Turn : Type 0 where
  producers : BacnetPdu → Turn
  consumers : Turn

unfoldable pub turn : ℕ → Turn → Cores → Cores
turn n (producers pdu) s = produce n pdu s.producer s
turn n consumers s = consume n s.consumer s

unfoldable pub run : ℕ → List Turn → Cores → Cores
run n [] s = s
run n (o ∷ os) s = run n os (turn n o s)
