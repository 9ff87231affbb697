-- ===== src/Npdu/Fields.antt =====
-- The address fields and the hop count of bridge-core/src/npdu.rs, read where they were written.
use micro_bacnet_bridge.Base.{ℕ, ◌+◌, ◌*◌, ◌/◌, ◌%◌, ◌^◌, ◌≤◌, ◌<◌, ◌≡◌, refl, sym, arith, bit_or}
use micro_bacnet_bridge.Base.{
  List, [], ◌∷◌, ◌++◌, Bool, true, false, length, length-append, length-take,
}
use micro_bacnet_bridge.Base.{take, drop, get_elem?-append, ltb, if◌then◌else◌, ok, err}
use micro_bacnet_bridge.Error.{invalid_data}
use micro_bacnet_bridge.Base.Bits.{or_byte}
use micro_bacnet_bridge.Slice.{IsByte, byte_at}
use micro_bacnet_bridge.Slice.Decoder.{lift}
use micro_bacnet_bridge.Slice.Reading.{
  Reads, slice-append, Reads-bind, Reads-seq, Reads-pure, Reads-eq, Reads-map,
}
use micro_bacnet_bridge.Npdu.{
  max_mac_len, no_mac, specifier, no_address, require, next_byte, read_mac, read_address, read_hops,
  read_if,
}

-- A specifier that is absent has the values the decoder starts from; one that is present has an
-- address of at most seven bytes with zeros behind it.
abbrev pub IsSpecifier : Bool → ℕ → List ℕ → ℕ → Type 0
IsSpecifier true net mac len =
    (net < 2 ^ 16)
    × (len ≤ max_mac_len)
    × (length mac ≡ max_mac_len)
    × (mac ≡ take len mac ++ drop len no_mac)
IsSpecifier false net mac len = (net ≡ 0) × (mac ≡ no_mac) × (len ≡ 0)

-- A hop count is only meaningful with a destination.
abbrev pub IsHops : Bool → ℕ → Type 0
IsHops true hops = IsByte hops
IsHops false hops = hops ≡ 0

Reads-require : (n : ℕ) (rest : List ℕ) → n ≤ length rest → Reads (require n) [] rest tt
unfolding require
Reads-require n rest h = record { run = λ pre _. ground (arith, length-append pre rest) }

Reads-next : (b : ℕ) (rest : List ℕ) → Reads next_byte (b ∷ []) rest b
unfolding next_byte byte_at
Reads-next b rest = record { run = λ pre _. rw (get_elem?-append pre b rest) (refl) }

Reads-mac : (m rest : List ℕ) → Reads (read_mac (length m)) m rest (m ++ drop (length m) no_mac)
unfolding read_mac
Reads-mac m rest = record {
  run = λ pre _. rw (slice-append pre m rest (length pre + length m) refl) (refl);
}

net_bytes : (n : ℕ) → n < 2 ^ 16 → bit_or (n / 2 ^ 8 % 256 * 2 ^ 8 % 2 ^ 16) (n % 256) ≡ n
net_bytes n h =
    rw (or_byte (2 ^ 16) (n / 2 ^ 8 % 256) (n % 256) (omega arith) (omega arith)) (omega arith)

Reads-checked :
    (len : ℕ) (rest : List ℕ)
    → len ≤ max_mac_len
    → Reads {A = Unit {0}}
        (lift (if ltb max_mac_len len then err invalid_data else ok tt))
        []
        rest
        tt
unfolding lift
Reads-checked len rest h = record { run = λ pre _. ground arith }

-- The seven bytes that an address of `m` is.
abbrev padded : List ℕ → List ℕ
padded m = m ++ drop (length m) no_mac

Reads-address_bytes :
    (hi lo : ℕ) (m rest : List ℕ)
    → length m ≤ max_mac_len
    → Reads read_address
        (hi ∷ lo ∷ length m ∷ m)
        rest
        (record { net = bit_or (hi * 2 ^ 8 % 2 ^ 16) lo; mac = padded m; len = length m % 256 })
unfolding read_address
Reads-address_bytes hi lo m rest h =
    Reads-seq (Reads-require 3 (hi ∷ lo ∷ length m ∷ (m ++ rest)) (omega arith)) (
      Reads-bind _ (Reads-next hi _) (
        Reads-bind _ (Reads-next lo _) (
          Reads-bind _ (Reads-next (length m) _) (
            Reads-seq (Reads-checked (length m) _ h) (
              Reads-seq (Reads-require (length m) (m ++ rest) (omega (arith, length-append m rest)))
                (Reads-map
                  (λ mac. record {
                    net = bit_or (hi * 2 ^ 8 % 2 ^ 16) lo;
                    mac = mac;
                    len = length m % 256;
                  })
                  (Reads-mac m rest)))))))

Reads-address :
    (net : ℕ) (mac : List ℕ) (len : ℕ) (rest : List ℕ)
    → IsSpecifier true net mac len
    → Reads read_address
        (specifier true net mac len)
        rest
        (record { net = net; mac = mac; len = len })
Reads-address net mac len rest (hn, hl, hm, pad) =
    let n : length (take len mac) ≡ len = omega (arith, length-take len mac) in
    let b : len % 256 ≡ len = omega arith in
    let r = Reads-address_bytes (net / 2 ^ 8 % 256) (net % 256) (take len mac) rest (omega arith) in
    rw (b) (rw (n, net_bytes net hn, b, ← pad) at r)

pub Reads-specifier :
    (present : Bool) (net : ℕ) (mac : List ℕ) (len : ℕ) (rest : List ℕ)
    → IsSpecifier present net mac len
    → Reads
        (read_if present read_address no_address)
        (specifier present net mac len)
        rest
        (record { net = net; mac = mac; len = len })
Reads-specifier true net mac len rest h = Reads-address net mac len rest h
Reads-specifier false net mac len rest (hn, hm, hl) =
    Reads-eq (cc (hn, hm, hl)) (Reads-pure no_address rest)

pub Reads-hops :
    (present : Bool) (hops : ℕ) (rest : List ℕ)
    → IsHops present hops
    → Reads (read_if present read_hops 0) (if present then hops ∷ [] else []) rest hops
unfolding read_hops
Reads-hops true hops rest h =
    Reads-seq (Reads-require 1 (hops ∷ rest) (omega arith)) (Reads-next hops rest)
Reads-hops false hops rest h = Reads-eq (sym h) (Reads-pure 0 rest)
