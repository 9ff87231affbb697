-- ===== src/Ipc/Queue.antt =====
-- The ring of bridge-core/src/ipc.rs answers as a bounded queue, over any sequence of calls.
use micro_bacnet_bridge.Base.{ℕ, ◌+◌, ◌<◌, ◌≡◌, refl, ap, arith, List, [], ◌∷◌, ◌++◌}
use micro_bacnet_bridge.Base.{Bool, true, false, Option, none, some, length, leb, leb→le, ◌==◌}
use micro_bacnet_bridge.Base.{if◌then◌else◌, Bool-cases, inl, inr}
use micro_bacnet_bridge.Ipc.{BacnetPdu, RingBuffer, new_ring, is_empty, is_full, push, pop, len}
use micro_bacnet_bridge.Ipc.Slots.{IsCapacity}
use micro_bacnet_bridge.Ipc.Ring.{
  Represents, occupancy, empty_lem, new_ring-Represents, push_room, pushed-Represents, push_full,
  pop_front, popped-Represents, pop_empty,
}

pub data Call : Type 0 where
  push_call : BacnetPdu → Call
  pop_call : Call
  len_call : Call
  is_empty_call : Call
  is_full_call : Call

pub data Reply : Type 0 where
  accepted : Bool → Reply
  taken : Option BacnetPdu → Reply
  counted : ℕ → Reply
  tested : Bool → Reply

unfoldable pub ring_call : ℕ → Call → RingBuffer → RingBuffer × Reply
ring_call n (push_call p) r = let (r', b) = push n p r in (r', accepted b)
ring_call n pop_call r = let (r', o) = pop n r in (r', taken o)
ring_call n len_call r = (r, counted (len r))
ring_call n is_empty_call r = (r, tested (is_empty r))
ring_call n is_full_call r = (r, tested (is_full n r))

-- The same calls on a queue of at most `n` items.
unfoldable pub queue_call : ℕ → Call → List BacnetPdu → List BacnetPdu × Reply
queue_call n (push_call p) q =
    if leb n (length q) then (q, accepted false) else (q ++ (p ∷ []), accepted true)
queue_call n pop_call [] = ([], taken none)
queue_call n pop_call (p ∷ q) = (q, taken (some p))
queue_call n len_call q = (q, counted (length q))
queue_call n is_empty_call q = (q, tested (length q == 0))
queue_call n is_full_call q = (q, tested (leb n (length q)))

-- The replies to a sequence of calls.
abbrev pub replies {ℓ} : {S : Type ℓ} → (Call → S → S × Reply) → List Call → S → List Reply
replies step [] x = []
replies step (o ∷ os) x = let (x', reply) = step o x in reply ∷ replies step os x'

-- One call: equal replies, and the ring stands for the queue again.
abbrev Follows : ℕ → Call → RingBuffer → List BacnetPdu → Type 0
Follows n o r q =
    ((ring_call n o r).1 ≡ (queue_call n o q).1)
    × ((s : ℕ) × Represents n (ring_call n o r).0 s (queue_call n o q).0)

module _ {n : ℕ} (c : IsCapacity n) where
  push-Follows :
      {r : RingBuffer} {s : ℕ} {q : List BacnetPdu} (p : BacnetPdu)
      → Represents n r s q
      → Follows n (push_call p) r q
  unfolding ring_call queue_call
  push-Follows {r} {s} {q} p w = elim (Bool-cases (leb n (length q))) [
    | inl full ↦
        let e = push_full c w p (omega (arith, w.fits, leb→le _ _ full)) in
        rw (e, full) (refl, (s, w))
    | inr room ↦
        let below : length q < n = ground arith in
        rw (push_room c w p below, room) (refl, (s, pushed-Represents c w p below))
  ]

  call-Follows :
      (o : Call) {r : RingBuffer} {s : ℕ} (q : List BacnetPdu)
      → Represents n r s q
      → Follows n o r q
  unfolding ring_call queue_call is_empty is_full len
  call-Follows (push_call p) q w = push-Follows p w
  call-Follows pop_call {s} [] w = rw (pop_empty c w) (refl, (s, w))
  call-Follows pop_call {s} (p ∷ q) w = rw (pop_front c w) (refl, (s + 1, popped-Represents c w))
  call-Follows len_call {s} q w = (ap counted (occupancy c w), (s, w))
  call-Follows is_empty_call {s} q w = (ap tested (empty_lem c w), (s, w))
  call-Follows is_full_call {s} q w = (ap (λ (k : ℕ). tested (leb n k)) (occupancy c w), (s, w))

  replies_follow :
      (os : List Call) {r : RingBuffer} {s : ℕ} (q : List BacnetPdu)
      → Represents n r s q
      → replies (ring_call n) os r ≡ replies (queue_call n) os q
  replies_follow [] q w = refl
  replies_follow (o ∷ os) q w =
      let (same, (s', w')) = call-Follows o q w in rw (same, replies_follow os _ w') refl

-- A ring of a power of two of slots, from `new`, replies to any sequence of calls as a queue of that
-- many items does, also after the counters have wrapped.
pub ring_refines_queue :
    (n : ℕ) (os : List Call)
    → IsCapacity n
    → replies (ring_call n) os (new_ring n) ≡ replies (queue_call n) os []
ring_refines_queue n os c = replies_follow c os [] (new_ring-Represents c)
