-- ===== src/Bridge/Devices.antt =====
-- What bridge-core/src/bridge.rs keeps of the devices: one that was registered is found in its slot.
use mathlib.Core.Option
use mathlib.Core.Option.{some-injective, none-ne-some}
use native.Mathlib.Nat.{suc-ne-zero}
use micro_bacnet_bridge.Base.{
  ℕ, zero, suc, ◌+◌, ◌≤◌, ◌<◌, ◌≡◌, refl, sym, ap, ◌∙◌, arith, List, [], ◌∷◌,
}
use micro_bacnet_bridge.Base.{
  true, Option, none, some, length, length-set, get_or, set, take, ltb, ltb→lt, ◌==◌, ==_iff,
}
use micro_bacnet_bridge.Base.{Bool-cases, inl, inr}
use micro_bacnet_bridge.Bridge.{
  max_devices, DeviceEntry, empty_device, BridgeState, position, find_device, new_device,
  heard_again, place, upsert_device,
}

pub record IsRegistry (s : BridgeState) : Type 0 where
  pub slots : length s.devices ≡ max_devices
  pub count : s.device_count ≤ max_devices

device_id-new_device : (id mac : ℕ) (name : List ℕ) → (new_device id mac name).device_id ≡ id
unfolding new_device
device_id-new_device id mac name = refl

device_id-heard_again :
    (mac : ℕ) (name : List ℕ) (d : DeviceEntry) → (heard_again mac name d).device_id ≡ d.device_id
unfolding heard_again
device_id-heard_again mac [] d = refl
device_id-heard_again mac (ch ∷ name) d = refl

map-suc : (o : Option ℕ) {i : ℕ} → Option.map suc o ≡ some (suc i) → o ≡ some i
map-suc none {i} e = absurd (none-ne-some (suc i) e)
map-suc (some x) {i} e =
    let same : suc x ≡ suc i = some-injective (suc x) (suc i) e in ap some (omega arith)

map-none : (o : Option ℕ) → Option.map suc o ≡ none → o ≡ none
map-none none e = refl
map-none (some x) e = absurd (none-ne-some (suc x) (sym e))

-- A known device's entry changed in its slot.
position-set :
    (id n i : ℕ) (f : DeviceEntry → DeviceEntry) (ds : List DeviceEntry)
    → ((d : DeviceEntry) → (f d).device_id ≡ d.device_id)
    → position id (take n ds) ≡ some i
    → position id (take n (set ds i (f (get_or ds i empty_device)))) ≡ some i
unfolding position
position-set id zero i f ds keeps e = absurd (none-ne-some i e)
position-set id (suc n) i f [] keeps e = absurd (none-ne-some i e)
position-set id (suc n) zero f (d ∷ ds) keeps e = rw (keeps d) e
position-set id (suc n) (suc i) f (d ∷ ds) keeps e = elim (Bool-cases (d.device_id == id)) [
  | inl same ↦
      let first : Path (Option ℕ) (some 0) (some (suc i)) = rw (same) at e in
      absurd (suc-ne-zero i (sym (some-injective 0 (suc i) first)))
  | inr other ↦ rw (other) (
      ap (Option.map suc)
        (position-set id n i f ds keeps (map-suc (position id (take n ds)) (rw (other) at e))))
]

-- A new device behind the known ones.
position-new :
    (id n : ℕ) (d : DeviceEntry) (ds : List DeviceEntry)
    → d.device_id ≡ id
    → n < length ds
    → position id (take n ds) ≡ none
    → position id (take (suc n) (set ds n d)) ≡ some n
unfolding position
position-new id n d [] e h absent = elim h [ ]
position-new id zero d (x ∷ ds) e h absent =
    let same : (d.device_id == id) ≡ true = (==_iff d.device_id id).1 e in rw (same) refl
position-new id (suc n) d (x ∷ ds) e h absent = elim (Bool-cases (x.device_id == id)) [
  | inl same ↦ absurd (none-ne-some 0 (sym (rw (same) at absent)))
  | inr other ↦ rw (other) (
      ap (Option.map suc) (
        position-new id n d ds e (omega arith)
          (map-none (position id (take n ds)) (rw (other) at absent))))
]

-- The first slot, taken by a new device.
position-evict :
    (id n : ℕ) (d : DeviceEntry) (ds : List DeviceEntry)
    → d.device_id ≡ id
    → 0 < length ds
    → 0 < n
    → position id (take n (set ds 0 d)) ≡ some 0
unfolding position
position-evict id zero d ds e h pos = elim pos [ ]
position-evict id (suc n) d [] e h pos = elim h [ ]
position-evict id (suc n) d (x ∷ ds) e h pos =
    let same : (d.device_id == id) ≡ true = (==_iff d.device_id id).1 e in rw (same) refl

placed :
    (o : Option ℕ) (id mac : ℕ) (name : List ℕ) (s : BridgeState)
    → IsRegistry s
    → position id (take s.device_count s.devices) ≡ o
    → find_device id (place o id mac name s).0 ≡ some (place o id mac name s).1
unfolding place find_device
placed (some i) id mac name s w known =
    position-set id s.device_count i (heard_again mac name) s.devices
      (device_id-heard_again mac name) known
placed none id mac name s w absent = elim (Bool-cases (ltb s.device_count max_devices)) [
  | inl room ↦
      let below = ltb→lt s.device_count max_devices room in
      let next : s.device_count + 1 ≡ suc s.device_count = omega arith in
      rw (room, next)
        (position-new id s.device_count (new_device id mac name) s.devices
          (device_id-new_device id mac name) (omega (arith, w.slots)) absent)
  | inr full ↦
      let all : s.device_count ≡ max_devices = ground (arith, full, w.count) in
      rw (full) (
        position-evict id s.device_count (new_device id mac name) s.devices
          (device_id-new_device id mac name) (omega (arith, w.slots)) (omega arith))
]

place-IsRegistry :
    (o : Option ℕ) (id mac : ℕ) (name : List ℕ) (s : BridgeState)
    → IsRegistry s
    → IsRegistry (place o id mac name s).0
unfolding place
place-IsRegistry (some i) id mac name s w = record {
  slots = length-set s.devices i (heard_again mac name (get_or s.devices i empty_device)) ∙ w.slots;
  count = w.count;
}
place-IsRegistry none id mac name s w = elim (Bool-cases (ltb s.device_count max_devices)) [
  | inl room ↦ rw (room) (record {
    slots = length-set s.devices s.device_count (new_device id mac name) ∙ w.slots;
    count = omega (arith, ltb→lt s.device_count max_devices room);
  })
  | inr full ↦ rw (full) (record {
    slots = length-set s.devices 0 (new_device id mac name) ∙ w.slots;
    count = w.count;
  })
]

-- In a table of eight slots with a count of at most eight, a device that was registered, known
-- before or not, and whether or not another one had to give way to it, is found in the slot that
-- was returned, and the table keeps its size and its count within it.
pub find_device-upsert_device :
    (id mac : ℕ) (name : List ℕ) (s : BridgeState)
    → IsRegistry s
    → (find_device id (upsert_device id mac name s).0 ≡ some (upsert_device id mac name s).1)
      × IsRegistry (upsert_device id mac name s).0
unfolding upsert_device find_device
find_device-upsert_device id mac name s w = (
  placed (find_device id s) id mac name s w refl,
  place-IsRegistry (find_device id s) id mac name s w,
)
