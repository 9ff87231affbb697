-- ===== src/Ipc.antt =====
-- bridge-core/src/ipc.rs: the PDUs that the two cores exchange, and the ring between them.
pub mod Slots
pub mod Ring
pub mod Queue
pub mod Cores
use micro_bacnet_bridge.Base.{ℕ, ◌+◌, ◌-◌, ◌%◌, ◌^◌, min, List, [], ◌∷◌, Bool, true, false, ◌&&◌}
use micro_bacnet_bridge.Slice.{bytes_eq}
use micro_bacnet_bridge.Base.{
  Option, none, some, get_or, set, take, replicate, ltb, leb, ◌==◌, if◌then◌else◌,
}

abbrev pub pdu_max_data : ℕ
pdu_max_data = 501

pub record BacnetPdu : Type 0 where
  pub source_net : ℕ
  pub source_mac : List ℕ
  pub source_mac_len : ℕ
  pub dest_net : ℕ
  pub dest_mac : List ℕ
  pub dest_mac_len : ℕ
  pub pdu_type : ℕ
  pub data_len : ℕ
  pub bytes : List ℕ

-- `PartialEq::eq`: the payloads are compared as far as they count.
unfoldable pub pdu_eq : BacnetPdu → BacnetPdu → Bool
pdu_eq a b =
    let len_a = min a.data_len pdu_max_data in
    let len_b = min b.data_len pdu_max_data in
    (a.source_net == b.source_net)
    && bytes_eq a.source_mac b.source_mac
    && (a.source_mac_len == b.source_mac_len)
    && (a.dest_net == b.dest_net)
    && bytes_eq a.dest_mac b.dest_mac
    && (a.dest_mac_len == b.dest_mac_len)
    && (a.pdu_type == b.pdu_type)
    && (a.data_len == b.data_len)
    && bytes_eq (take len_a a.bytes) (take len_b b.bytes)

unfoldable pub new_pdu : BacnetPdu
new_pdu = record {
  source_net = 0;
  source_mac = replicate 7 0;
  source_mac_len = 0;
  dest_net = 0;
  dest_mac = replicate 7 0;
  dest_mac_len = 0;
  pdu_type = 0;
  data_len = 0;
  bytes = replicate pdu_max_data 0;
}

-- The counters are `u32`. What the source names `data` is `slots` here, an array of the capacity,
-- and `bytes` in a PDU.
pub record RingBuffer : Type 0 where
  pub head : ℕ
  pub tail : ℕ
  pub slots : List BacnetPdu

-- `a.wrapping_add(1)` and `a.wrapping_sub(b)` on `u32`
abbrev pub next_u32 : ℕ → ℕ
next_u32 a = (a + 1) % 2 ^ 32

abbrev pub wrapping_sub : ℕ → ℕ → ℕ
wrapping_sub a b = (a + 2 ^ 32 - b) % 2 ^ 32

unfoldable pub new_ring : ℕ → RingBuffer
new_ring n = record { head = 0; tail = 0; slots = replicate n new_pdu }

unfoldable pub is_empty : RingBuffer → Bool
is_empty r = r.head == r.tail

unfoldable pub is_full : ℕ → RingBuffer → Bool
is_full n r = leb n (wrapping_sub r.head r.tail)

-- A remainder by `n` is an index of the array.
unfoldable pub push : ℕ → BacnetPdu → RingBuffer → RingBuffer × Bool
push n pdu r = if leb n (wrapping_sub r.head r.tail) then (r, false) else (
  record { head = next_u32 r.head; tail = r.tail; slots = set r.slots (r.head % n) pdu },
  true,
)

unfoldable pub pop : ℕ → RingBuffer → RingBuffer × Option BacnetPdu
pop n r = if r.head == r.tail then (r, none) else (
  record { head = r.head; tail = next_u32 r.tail; slots = r.slots },
  some (get_or r.slots (r.tail % n) new_pdu),
)

unfoldable pub len : RingBuffer → ℕ
len r = wrapping_sub r.head r.tail
