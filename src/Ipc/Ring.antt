-- ===== src/Ipc/Ring.antt =====
-- The ring of bridge-core/src/ipc.rs and the queue it stands for, whatever its counters have counted.
use native.Mathlib.Nat.{mod-lt}
use micro_bacnet_bridge.Base.{
  ℕ, suc, ◌+◌, ◌-◌, ◌%◌, ◌^◌, ◌≤◌, ◌<◌, ◌≡◌, ◌≢◌, refl, sym, ap, ◌∙◌, arith,
}
use micro_bacnet_bridge.Base.{List, [], ◌∷◌, ◌++◌, true, false, none, some, length, length-append}
use micro_bacnet_bridge.Base.{
  length-set, length-replicate, get_elem?, set, get_elem?-set_self, get_elem?-set_ne,
}
use micro_bacnet_bridge.Base.{
  get_elem?-append, get_elem?-append_left, get_or-get_elem?, leb, ltb, ◌==◌,
}
use micro_bacnet_bridge.Base.{Bool-cases, ltb→lt, inl, inr}
use micro_bacnet_bridge.Ipc.{
  BacnetPdu, RingBuffer, new_pdu, new_ring, push, pop, next_u32, wrapping_sub,
}
use micro_bacnet_bridge.Ipc.Slots.{IsCapacity, capacity_pos, capacity_small, slot_wrap, slot_ne}

-- The ring of capacity `n` holds `q`, oldest first, after `s` items were taken out of it.
pub record Represents (n : ℕ) (r : RingBuffer) (s : ℕ) (q : List BacnetPdu) : Type 0 where
  pub head : r.head ≡ (s + length q) % 2 ^ 32
  pub tail : r.tail ≡ s % 2 ^ 32
  pub size : length r.slots ≡ n
  pub fits : length q ≤ n
  pub stored : (i : ℕ) → i < length q → get_elem? r.slots ((s + i) % n) ≡ get_elem? q i

module _ {n : ℕ} (c : IsCapacity n) where
  -- The counters' difference is the number of items, across their wrap.
  pub occupancy :
      {r : RingBuffer} {s : ℕ} {q : List BacnetPdu}
      → Represents n r s q
      → wrapping_sub r.head r.tail ≡ length q
  occupancy w = rw (w.head, w.tail) (omega (arith, capacity_small c, w.fits))

  pub empty_lem :
      {r : RingBuffer} {s : ℕ} {q : List BacnetPdu}
      → Represents n r s q
      → (r.head == r.tail) ≡ (length q == 0)
  empty_lem w = rw (w.head, w.tail) (ground (arith, capacity_small c, w.fits))

  -- Where the producer may write, no item is stored; an item written there is the last one.
  pub stored-set :
      (xs : List BacnetPdu) (s : ℕ) (q : List BacnetPdu) (p : BacnetPdu)
      → length xs ≡ n
      → length q < n
      → ((i : ℕ) → i < length q → get_elem? xs ((s + i) % n) ≡ get_elem? q i)
      → (i : ℕ) → i < length q
      → get_elem? (set xs ((s + length q) % n) p) ((s + i) % n) ≡ get_elem? q i
  stored-set xs s q p size room h i below =
      let k = length q - i in
      let ne : (s + i) % n ≢ (s + i + k) % n = slot_ne c (s + i) k (omega arith) (omega arith) in
      let e : s + i + k ≡ s + length q = omega arith in
      get_elem?-set_ne xs p (λ same. ne (sym same ∙ ap (λ (a : ℕ). a % n) (sym e))) ∙ h i below

  pub stored-snoc :
      (xs : List BacnetPdu) (s : ℕ) (q : List BacnetPdu) (p : BacnetPdu)
      → length xs ≡ n
      → length q < n
      → ((i : ℕ) → i < length q → get_elem? xs ((s + i) % n) ≡ get_elem? q i)
      → (i : ℕ) → i < length (q ++ (p ∷ []))
      → get_elem? (set xs ((s + length q) % n) p) ((s + i) % n) ≡ get_elem? (q ++ (p ∷ [])) i
  stored-snoc xs s q p size room h i below = elim (Bool-cases (ltb i (length q))) [
    | inl old ↦
        let lt : i < length q = ltb→lt _ _ old in
        stored-set xs s q p size room h i lt ∙ sym (get_elem?-append_left q (p ∷ []) i lt)
    | inr last ↦
        let e : i ≡ length q = ground (arith, length-append q (p ∷ [])) in
        rw (e) (
          get_elem?-set_self xs ((s + length q) % n) p
            (omega (arith, mod-lt (s + length q) (capacity_pos c)))
          ∙ sym (get_elem?-append q p []))
  ]

  pub new_ring-Represents : Represents n (new_ring n) 0 []
  unfolding new_ring
  new_ring-Represents = record {
    head = refl;
    tail = refl;
    size = length-replicate n new_pdu;
    fits = omega arith;
    stored = λ i h. elim h [ ];
  }

  module _ {r : RingBuffer} {s : ℕ} {q : List BacnetPdu} (w : Represents n r s q) where
    -- The ring after a push.
    abbrev pub pushed_ring : BacnetPdu → RingBuffer
    pushed_ring p = record {
      head = next_u32 r.head;
      tail = r.tail;
      slots = set r.slots (r.head % n) p;
    }

    pub push_room : (p : BacnetPdu) → length q < n → push n p r ≡ (pushed_ring p, true)
    unfolding push
    push_room p room =
        let room_left : leb n (wrapping_sub r.head r.tail) ≡ false =
          rw (occupancy w) (ground arith) in
        rw (room_left) refl

    pub pushed-Represents :
        (p : BacnetPdu) → length q < n → Represents n (pushed_ring p) s (q ++ (p ∷ []))
    pushed-Represents p room =
        let at : r.head % n ≡ (s + length q) % n = rw (w.head) (slot_wrap c (s + length q)) in
        record {
          head = rw (w.head, length-append q (p ∷ [])) (omega arith);
          tail = w.tail;
          size = length-set r.slots (r.head % n) p ∙ w.size;
          fits = omega (arith, length-append q (p ∷ []));
          stored = rw (at) (stored-snoc r.slots s q p w.size room w.stored);
        }

    pub push_full : (p : BacnetPdu) → length q ≡ n → push n p r ≡ (r, false)
    unfolding push
    push_full p full =
        let shut : leb n (wrapping_sub r.head r.tail) ≡ true = rw (occupancy w) (ground arith) in
        rw (shut) refl

  abbrev pub popped_ring : RingBuffer → RingBuffer
  popped_ring r = record { head = r.head; tail = next_u32 r.tail; slots = r.slots }

  pub pop_front :
      {r : RingBuffer} {s : ℕ} {p : BacnetPdu} {q : List BacnetPdu}
      → Represents n r s (p ∷ q)
      → pop n r ≡ (popped_ring r, some p)
  unfolding pop
  pop_front {r} {s} {p} {q} w =
      let some_item : (r.head == r.tail) ≡ false = empty_lem w ∙ ground arith in
      let at : r.tail % n ≡ (s + 0) % n =
        rw (w.tail) (slot_wrap c s ∙ ap (λ (a : ℕ). a % n) (omega arith)) in
      rw (some_item, at, get_or-get_elem? r.slots ((s + 0) % n) new_pdu (w.stored 0 (omega arith)))
        refl

  pub popped-Represents :
      {r : RingBuffer} {s : ℕ} {p : BacnetPdu} {q : List BacnetPdu}
      → Represents n r s (p ∷ q)
      → Represents n (popped_ring r) (s + 1) q
  popped-Represents {r} {s} {p} {q} w = record {
    head = w.head ∙ ap (λ (a : ℕ). a % 2 ^ 32) (omega arith);
    tail = rw (w.tail) (omega arith);
    size = w.size;
    fits = omega (arith, w.fits);
    stored = λ i h.
        let next : s + 1 + i ≡ s + suc i = omega arith in
        rw (next) (w.stored (suc i) (omega arith));
  }

  pub pop_empty : {r : RingBuffer} {s : ℕ} → Represents n r s [] → pop n r ≡ (r, none)
  unfolding pop
  pop_empty {r} w = let none_left : (r.head == r.tail) ≡ true = empty_lem w in rw (none_left) refl
