-- ===== src/Slice/Reading.antt =====
-- What a decoder makes of bytes that stand at its position.
use Prim.Native.Nat.add
use mathlib.Core.Path.{subst}
use micro_bacnet_bridge.Base.{ℕ, ◌+◌, ◌-◌, ◌^◌, ◌<◌, ◌≡◌, ap, ◌∙◌, arith}
use micro_bacnet_bridge.Base.{List, [], ◌∷◌, ◌++◌, append_assoc, append-nil, length, length-append}
use micro_bacnet_bridge.Base.{
  get_elem?, get_elem?-append, le→leb, drop-append, take-append, ltb, if◌then◌else◌, ok, err,
}
use micro_bacnet_bridge.Error.{DecodeError, unexpected_end}
use micro_bacnet_bridge.Slice.{IsSlice, add_usize, byte_at, slice, dneed}
use micro_bacnet_bridge.Slice.Decoder.{Decoder, ◌>>=◌, ◌>>◌, lift, pure}

-- Where `bs` stands at the position and `rest` behind it, `d` takes `bs` and returns `v`.
pub record Reads {ℓ} {A : Type ℓ} (d : Decoder A) (bs rest : List ℕ) (v : A) : Type ℓ where
  pub run :
      (pre : List ℕ)
      → IsSlice (pre ++ (bs ++ rest))
      → d (pre ++ (bs ++ rest)) (length pre) ≡ ok (v, length pre + length bs)

get_elem?-shift : (pre s : List ℕ) (k : ℕ) → get_elem? (pre ++ s) (length pre + k) ≡ get_elem? s k
get_elem?-shift [] s k = ap (get_elem? s) (omega arith)
get_elem?-shift (x ∷ pre) s k =
    ap (get_elem? (x ∷ (pre ++ s))) (add.suc (length pre) k) ∙ get_elem?-shift pre s k

-- Reading behind a prefix is reading without it.
pub byte_at-append :
    (pre s : List ℕ) (k : ℕ)
    → IsSlice (pre ++ s)
    → k < 2 ^ 31
    → byte_at {E = DecodeError} (pre ++ s) (add_usize (length pre) k) ≡ byte_at s k
unfolding byte_at
byte_at-append pre s k h hk =
    let e : add_usize (length pre) k ≡ length pre + k = omega (arith, length-append pre s) in
    rw (e, get_elem?-shift pre s k)

pub byte_at-here :
    (pre : List ℕ) (b : ℕ) (s : List ℕ)
    → IsSlice (pre ++ (b ∷ s))
    → byte_at {E = DecodeError} (pre ++ (b ∷ s)) (length pre) ≡ ok b
unfolding byte_at
byte_at-here pre b s h = rw (get_elem?-append pre b s)

pub byte_at-second :
    (pre : List ℕ) (a b : ℕ) (s : List ℕ)
    → IsSlice (pre ++ (a ∷ b ∷ s))
    → byte_at {E = DecodeError} (pre ++ (a ∷ b ∷ s)) (add_usize (length pre) 1) ≡ ok b
unfolding byte_at
byte_at-second pre a b s h = byte_at-append pre (a ∷ b ∷ s) 1 h (omega arith)

pub dneed-append :
    (pre s : List ℕ) (n : ℕ)
    → IsSlice (pre ++ s)
    → n < 2 ^ 31
    → dneed (pre ++ s) (length pre) n ≡ (if ltb (length s) n then err unexpected_end else ok tt)
unfolding dneed
dneed-append pre s n h hn = ground (arith, length-append pre s)

pub slice-append :
    (pre s rest : List ℕ) (j : ℕ)
    → j ≡ length pre + length s
    → slice {E = DecodeError} (pre ++ (s ++ rest)) (length pre) j ≡ ok s
unfolding slice
slice-append pre s rest j e =
    let n : j - length pre ≡ length s = omega arith in
    rw (
      le→leb (length pre) j (omega arith),
      le→leb j (length (pre ++ (s ++ rest)))
          (omega (arith, length-append pre (s ++ rest), length-append s rest)),
      drop-append pre (s ++ rest),
      n,
      take-append s rest,
    )

Reads-bind_run {ℓ κ} :
    {A : Type ℓ} {B : Type κ} (d : Decoder A) (k : A → Decoder B) (bs cs rest : List ℕ) (x : A)
    (w : B)
    → Reads d bs (cs ++ rest) x
    → Reads (k x) cs rest w
    → (pre : List ℕ) → IsSlice (pre ++ ((bs ++ cs) ++ rest))
    → (d >>= k) (pre ++ ((bs ++ cs) ++ rest)) (length pre) ≡ ok (w, length pre + length (bs ++ cs))
unfolding ◌>>=◌
Reads-bind_run d k bs cs rest x w hd hk pre h =
    rw
      (
        append_assoc bs cs rest,
        hd.run pre (rw (append_assoc bs cs rest) at h),
        ← append_assoc pre bs (cs ++ rest),
        ← length-append pre bs,
      )
      (hk.run (pre ++ bs) (rw (append_assoc bs cs rest, ← append_assoc pre bs (cs ++ rest)) at h)
        ∙ ap (λ (n : ℕ). ok (w, n)) (omega (arith, length-append pre bs, length-append bs cs)))

module _ {ℓ κ} {A : Type ℓ} {B : Type κ} where
  pub Reads-bind :
      {d : Decoder A} (k : A → Decoder B) {bs cs rest : List ℕ} {x : A} {w : B}
      → Reads d bs (cs ++ rest) x
      → Reads (k x) cs rest w
      → Reads (d >>= k) (bs ++ cs) rest w
  Reads-bind {d} k {bs} {cs} {rest} {x} {w} hd hk = record {
    run = λ pre h. Reads-bind_run d k bs cs rest x w hd hk pre h;
  }

pub Reads-seq {ℓ} :
    {B : Type ℓ} {d : Decoder (Unit {0})} {k : Decoder B} {bs cs rest : List ℕ} {w : B}
    → Reads d bs (cs ++ rest) tt
    → Reads k cs rest w
    → Reads (d >> k) (bs ++ cs) rest w
unfolding ◌>>◌
Reads-seq {k} hd hk = Reads-bind (λ _. k) hd hk

-- What takes no byte.
pub Reads-lift {ℓ} : {A : Type ℓ} (x : A) (rest : List ℕ) → Reads (lift (ok x)) [] rest x
unfolding lift
Reads-lift x rest = record { run = λ pre h. ap (λ (n : ℕ). ok (x, n)) (omega arith) }

pub Reads-pure {ℓ} : {A : Type ℓ} (x : A) (rest : List ℕ) → Reads (pure x) [] rest x
unfolding pure
Reads-pure x rest = record { run = λ pre h. ap (λ (n : ℕ). ok (x, n)) (omega arith) }

pub Reads-eq {ℓ} :
    {A : Type ℓ} {d : Decoder A} {bs rest : List ℕ} {x y : A}
    → x ≡ y
    → Reads d bs rest x
    → Reads d bs rest y
Reads-eq {d} {bs} {rest} e r = subst (Reads d bs rest) e r

-- A last step that only makes a value.
pub Reads-map {ℓ κ} :
    {A : Type ℓ} {B : Type κ} {d : Decoder A} (f : A → B) {bs rest : List ℕ} {x : A}
    → Reads d bs rest x
    → Reads (d >>= λ y. pure (f y)) bs rest (f x)
unfolding ◌>>=◌ pure
Reads-map f {bs} {rest} r = record { run = λ pre h. rw (r.run pre h) }

-- A decoder run on the whole of its input.
pub Reads-start {ℓ} :
    {A : Type ℓ} {d : Decoder A} {bs : List ℕ} {x : A}
    → Reads d bs [] x
    → IsSlice bs
    → d bs 0 ≡ ok (x, length bs)
Reads-start {d} {bs} {x} r h =
    let e : bs ++ [] ≡ bs = append-nil bs in
    let h' : IsSlice (bs ++ []) = rw e h in
    rw e at (r.run [] h') ∙ ap (λ (n : ℕ). ok (x, n)) (omega arith)
