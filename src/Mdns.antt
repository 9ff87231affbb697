-- ===== src/Mdns.antt =====
-- bridge-core/src/mdns.rs: the names of DNS packets, written as labels and read with compression
-- pointers. A text is its bytes, and a `usize` is one of the 32-bit target.
pub mod Records
pub mod Ends
pub mod Names
pub mod Joined
pub mod RoundTrip
use micro_bacnet_bridge.Base
use micro_bacnet_bridge.Base.{
  ℕ, zero, suc, ◌+◌, ◌*◌, ◌/◌, ◌%◌, ◌^◌, bit_and, bit_or, List, [], ◌∷◌, ◌++◌, length, map, Option,
  none, some,
}
use micro_bacnet_bridge.Base.{ltb, leb, ◌==◌, if◌then◌else◌, Result, ok, err, stuck, ok_or, ◌>>=◌}
use micro_bacnet_bridge.Error.{
  EncodeError, buffer_too_small, string_too_long, DecodeError, unexpected_end, invalid_data,
  invalid_name_pointer,
}
use micro_bacnet_bridge.Slice.{add_usize, byte_at, slice, store, emit, Encoder, ◌⟫◌, skip}
use micro_bacnet_bridge.Text.{push_all, latin1, split_on}

abbrev pub dot : ℕ
dot = 46

abbrev pub split : List ℕ → List (List ℕ)
split = split_on dot

-- The length of the name on the wire, where an empty part counts nothing.
abbrev pub add_parts : ℕ → List (List ℕ) → ℕ
add_parts n [] = n
add_parts n ([] ∷ parts) = add_parts n parts
add_parts n ((c ∷ part) ∷ parts) = add_parts (add_usize n (add_usize 1 (length (c ∷ part)))) parts

unfoldable pub write_label : List ℕ → Encoder
unfolding emit
write_label label buf pos =
    if ltb 63 (length label)
    then err string_too_long
    else emit (1 + length label) (length label % 256 ∷ label) buf pos

abbrev pub write_labels : List (List ℕ) → Encoder
write_labels [] = skip
write_labels (label ∷ labels) = write_label label ⟫ write_labels labels

unfoldable pub write_end : Encoder
unfolding store
write_end buf pos =
    if leb (length buf) pos
    then err buffer_too_small
    else Base.◌>>=◌ (store buf pos (0 ∷ [])) (λ buf'. ok (buf', add_usize pos 1))

-- The parts of the domain: none are written for an empty one.
unfoldable pub domain_parts : List ℕ → List (List ℕ)
unfolding split_on
domain_parts [] = []
domain_parts (c ∷ domain) = split (c ∷ domain)

unfoldable pub write_name : List ℕ → List ℕ → Encoder
unfolding split_on write_label write_end domain_parts ◌⟫◌
write_name name domain buf pos =
    if ltb 255 (add_parts 1 (split name ++ domain_parts domain))
    then err string_too_long
    else (write_labels (split name) ⟫ write_labels (domain_parts domain) ⟫ write_end) buf pos

-- `end_pos`: set once, where the name ends or where its first pointer stands.
abbrev pub or_first : Option ℕ → ℕ → ℕ
or_first none p = p
or_first (some q) p = q

abbrev pub separator : List ℕ → List (List ℕ)
separator [] = []
separator (c ∷ name) = (dot ∷ []) ∷ []

unfoldable pub push_label : List ℕ → List ℕ → Result DecodeError (List ℕ)
push_label name label = ok_or (push_all 128 name (separator name ++ map latin1 label)) invalid_data

-- The loop's rounds: each takes a label, or follows one of at most eight pointers.
unfoldable pub read_labels :
    ℕ → List ℕ → List ℕ → ℕ → Option ℕ → ℕ → Result DecodeError (List ℕ × ℕ)
unfolding byte_at slice push_label
read_labels zero xs name pos end_pos hops = stuck
read_labels (suc fuel) xs name pos end_pos hops =
    if leb (length xs) pos then err unexpected_end else (do
      len ← byte_at xs pos
      if len == 0
          then ok (name, or_first end_pos (add_usize pos 1))
          else (if bit_and len 0xC0 == 0xC0
              then (if leb (length xs) (add_usize pos 1) then err unexpected_end else (do
                low ← byte_at xs (add_usize pos 1)
                let offset = bit_or (bit_and len 0x3F * 2 ^ 8) low
                if leb pos offset
                    then err invalid_name_pointer
                    else (if leb (length xs) offset
                        then err invalid_name_pointer
                        else (if ltb 8 (add_usize hops 1)
                            then err invalid_name_pointer
                            else read_labels fuel xs name offset
                                (some (or_first end_pos (add_usize pos 2))) (add_usize hops 1)))))
              else (let start = add_usize pos 1 in
                  if ltb (length xs) (add_usize start len) then err unexpected_end else (do
                    label ← slice xs start (add_usize start len)
                    name' ← push_label name label
                    read_labels fuel xs name' (add_usize start len) end_pos hops))))

-- Nine passes over the packet are enough.
unfoldable pub read_name : List ℕ → ℕ → Result DecodeError (List ℕ × ℕ)
unfolding read_labels
read_name xs start = read_labels (9 * (length xs + 1)) xs [] start none 0
