-- ===== src/Slice/Writing.antt =====
-- What an encoder does to its buffer, in one statement: it writes given bytes or finds no room.
use micro_bacnet_bridge.Base.{ℕ, zero, suc, ◌+◌, ◌^◌, ◌≤◌, ◌<◌, ◌≡◌, refl, sym, ap, ◌∙◌, arith}
use micro_bacnet_bridge.Base.{
  List, [], ◌∷◌, ◌++◌, append_assoc, length, take, take-append, drop, set,
}
use micro_bacnet_bridge.Base.{length-append, length-drop, leb, if◌then◌else◌, Bool-cases}
use micro_bacnet_bridge.Base.{leb→le, inl, inr, Result, ok, err}
use micro_bacnet_bridge.Error.{EncodeError, buffer_too_small}
use micro_bacnet_bridge.Slice.{IsSlice, add_usize, Encoder, ◌⟫◌, emit, skip, set_at, store, need}

-- The outcome of writing `bs` behind `pre` over the start of `old`.
abbrev pub written : List ℕ → List ℕ → List ℕ → Result EncodeError (List ℕ × ℕ)
written pre bs old =
    if leb (length bs) (length old)
    then ok (pre ++ (bs ++ drop (length bs) old), length pre + length bs)
    else err buffer_too_small

-- `e` writes `bs` at the position, changes no other byte, and fails exactly where they do not fit.
pub record Emits (e : Encoder) (bs : List ℕ) : Type 0 where
  pub run :
      (pre old : List ℕ) → IsSlice (pre ++ old) → e (pre ++ old) (length pre) ≡ written pre bs old

set-append :
    (pre : List ℕ) (o : ℕ) (old : List ℕ) (b : ℕ)
    → set (pre ++ (o ∷ old)) (length pre) b ≡ pre ++ (b ∷ old)
set-append [] o old b = refl
set-append (x ∷ pre) o old b = ap (◌∷◌ x) (set-append pre o old b)

set_at-append {κ} :
    {E : Type κ} (pre : List ℕ) (o : ℕ) (old : List ℕ) (b : ℕ)
    → set_at {E = E} (pre ++ (o ∷ old)) (length pre) b ≡ ok (pre ++ (b ∷ old))
unfolding set_at
set_at-append pre o old b = ground (arith, length-append pre (o ∷ old), set-append pre o old b)

pub snoc : (pre : List ℕ) (b : ℕ) (xs : List ℕ) → pre ++ (b ∷ xs) ≡ (pre ++ (b ∷ [])) ++ xs
snoc pre b xs = sym (append_assoc pre (b ∷ []) xs)

pub next_index :
    (pre : List ℕ) (b : ℕ) → IsSlice pre → add_usize (length pre) 1 ≡ length (pre ++ (b ∷ []))
next_index pre b h = omega (arith, length-append pre (b ∷ []))

pub store-append {κ} :
    {E : Type κ} (bs pre old : List ℕ)
    → IsSlice (pre ++ old)
    → length bs ≤ length old
    → store {E = E} (pre ++ old) (length pre) bs ≡ ok (pre ++ (bs ++ drop (length bs) old))
unfolding store
store-append [] pre old h fits = refl
store-append (b ∷ bs) pre [] h fits = absurd (omega arith)
store-append (b ∷ bs) pre (o ∷ old) h fits =
    rw
      (
        set_at-append pre o old b,
        snoc pre b old,
        next_index pre b (omega (arith, length-append pre (o ∷ old))),
        snoc pre b (bs ++ drop (length bs) old),
      )
      (store-append bs (pre ++ (b ∷ [])) old
        (omega (
          arith,
          length-append pre (o ∷ old),
          length-append (pre ++ (b ∷ [])) old,
          length-append pre (b ∷ []),
        ))
        (omega arith))

emit_run :
    (n : ℕ) (bs : List ℕ)
    → n ≡ length bs
    → n < 2 ^ 31
    → (pre old : List ℕ) → IsSlice (pre ++ old)
    → emit n bs (pre ++ old) (length pre) ≡ written pre bs old
unfolding emit need
emit_run n bs e small pre old h = elim (Bool-cases (leb (length bs) (length old))) [
  | inl fits ↦
      let room = store-append {E = EncodeError} bs pre old h (leb→le _ _ fits) in
      ground (arith, length-append pre old, room)
  | inr full ↦ ground (arith, length-append pre old)
]

pub Emits-emit : (n : ℕ) (bs : List ℕ) → n ≡ length bs → n < 2 ^ 31 → Emits (emit n bs) bs
Emits-emit n bs e small = record { run = λ pre old h. emit_run n bs e small pre old h }

skip_run : (pre old : List ℕ) → ok (pre ++ old, length pre) ≡ written pre [] old
skip_run pre old = ground arith

pub Emits-skip : Emits skip []
Emits-skip = record { run = λ pre old h. skip_run pre old }

drop-nil : (n : ℕ) → drop {A = ℕ} n [] ≡ []
drop-nil zero = refl
drop-nil (suc n) = refl

drop-drop :
    (bs cs old : List ℕ) → drop (length cs) (drop (length bs) old) ≡ drop (length (bs ++ cs)) old
drop-drop [] cs old = refl
drop-drop (b ∷ bs) cs [] = drop-nil (length cs)
drop-drop (b ∷ bs) cs (o ∷ old) = drop-drop bs cs old

-- Two outcomes one after the other are the outcome of both.
written-append :
    (pre bs cs old : List ℕ)
    → length bs ≤ length old
    → written (pre ++ bs) cs (drop (length bs) old) ≡ written pre (bs ++ cs) old
written-append pre bs cs old fits = ground (
  arith,
  length-append bs cs,
  length-append pre bs,
  length-drop (length bs) old,
  drop-drop bs cs old,
  append_assoc pre bs (cs ++ drop (length (bs ++ cs)) old),
  append_assoc bs cs (drop (length (bs ++ cs)) old),
)

⟫_run :
    (e f : Encoder) (bs cs : List ℕ)
    → Emits e bs
    → Emits f cs
    → (pre old : List ℕ) → IsSlice (pre ++ old)
    → (e ⟫ f) (pre ++ old) (length pre) ≡ written pre (bs ++ cs) old
unfolding ◌⟫◌
⟫_run e f bs cs he hf pre old h = elim (Bool-cases (leb (length bs) (length old))) [
  | inl fits ↦
      let le : length bs ≤ length old = leb→le _ _ fits in
      rw (he.run pre old h, fits, ← append_assoc pre bs, ← length-append pre bs)
        (hf.run (pre ++ bs) (drop (length bs) old) (
            omega (
              arith,
              length-append pre old,
              length-append (pre ++ bs) (drop (length bs) old),
              length-append pre bs,
              length-drop (length bs) old,
            ))
          ∙ written-append pre bs cs old le)
  | inr full ↦ rw (he.run pre old h, full) (ground (arith, length-append bs cs))
]

pub Emits-⟫ : {e f : Encoder} {bs cs : List ℕ} → Emits e bs → Emits f cs → Emits (e ⟫ f) (bs ++ cs)
Emits-⟫ {e} {f} {bs} {cs} he hf = record { run = λ pre old h. ⟫_run e f bs cs he hf pre old h }

-- The whole run of an encoder on a buffer, from its start.
pub Emits-start :
    {e : Encoder} {bs : List ℕ}
    → Emits e bs
    → (buf : List ℕ) → IsSlice buf
    → e buf 0 ≡ written [] bs buf
Emits-start he buf h = he.run [] buf h

-- What a successful run from the start has put before the returned position.
pub sent :
    {e : Encoder} {bs : List ℕ}
    → Emits e bs
    → (buf : List ℕ) {buf' : List ℕ} {n : ℕ} → IsSlice buf
    → e buf 0 ≡ ok (buf', n)
    → take n buf' ≡ bs
sent {bs} he buf h e =
    ground (arith, e, Emits-start he buf h, take-append bs (drop (length bs) buf))

pub sent_fits :
    {e : Encoder} {bs : List ℕ}
    → Emits e bs
    → (buf : List ℕ) {buf' : List ℕ} {n : ℕ} → IsSlice buf
    → e buf 0 ≡ ok (buf', n)
    → length bs ≤ length buf
sent_fits {bs} he buf h e = elim (Bool-cases (leb (length bs) (length buf))) [
  | inl fits ↦ leb→le _ _ fits
  | inr full ↦ ground (arith, e, Emits-start he buf h)
]

-- What a receiver makes of the bytes sent is what it makes of the message.
pub received {ℓ} :
    {R : Type ℓ} (receive : List ℕ → R) (hd bs : List ℕ) {e : Encoder} {r : R}
    → Emits e (hd ++ bs)
    → (buf : List ℕ) {buf' : List ℕ} {n : ℕ} → IsSlice buf
    → e buf 0 ≡ ok (buf', n)
    → (IsSlice bs → receive (hd ++ bs) ≡ r)
    → receive (take n buf') ≡ r
received receive hd bs he buf h e k =
    rw (sent he buf h e) (k (omega (arith, sent_fits he buf h e, length-append hd bs)))
