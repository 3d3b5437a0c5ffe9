-- ===== src/Udp/Fragments.antt =====
-- server/protocol/UdpRelay.cpp, `ProcessFragment`: the reassembly of fragments.
pub mod Laws
pub mod Runs
use socks5proxy_native.Prelude.{
  ℕ, zero, suc, ◌+◌, ◌-◌, ◌^◌, ◌%◌, Bool, true, false, not, ◌&&◌, ◌||◌, List, [], ◌∷◌, ◌++◌, Option,
  none, some, ltb, leb, ◌==◌, if◌then◌else◌, length, lookup, insert, erase, bytes_eq, nat_eq,
}
use socks5proxy_native.Udp.{
  UdpRelay, FragAssembly, Destination, max_fragment_assemblies, max_assembled_udp_payload,
}

-- The low seven bits of the fragment byte and its high bit: `NumberMask` and `LastFlag`.
abbrev pub frag_number : ℕ → ℕ
frag_number frag = frag % 128

abbrev pub is_last : ℕ → Bool
is_last frag = leb 128 frag

-- Subtraction of the 64-bit `size_t`, which wraps.
abbrev pub size_minus : ℕ → ℕ → ℕ
size_minus a b = if leb b a then a - b else a + 2 ^ 64 - b

abbrev pub has_key : Option FragAssembly → Bool
has_key none = false
has_key (some a) = true

abbrev pub part_size : Option (List ℕ) → ℕ
part_size none = 0
part_size (some part) = length part

unfoldable pub new_assembly : Destination → ℕ → FragAssembly
new_assembly destination now = record {
  destination = destination;
  parts = [];
  have_last = false;
  last_frag_num = 0;
  total_bytes = 0;
  updated = now;
}

-- The sizes of the parts from number `i` on, `count` of them, added to `total`.
pub data Measured : Type 0 where
  part_missing too_large : Measured
  complete : ℕ → Measured

unfoldable pub measure : List (ℕ × List ℕ) → ℕ → ℕ → ℕ → Measured
measure parts i zero total = complete total
measure parts i (suc count) total = elim (lookup i parts) [
  | none ↦ part_missing
  | some part ↦
      let sum = total + length part in
      let rest = measure parts (i + 1) count sum in
      if ltb max_assembled_udp_payload sum then too_large else rest
]

-- The parts themselves, one after the other; `parts[i]` is empty for a missing number.
unfoldable pub gather : List (ℕ × List ℕ) → ℕ → ℕ → List ℕ
gather parts i zero = []
gather parts i (suc count) = elim (lookup i parts) [
  | none ↦ gather parts (i + 1) count
  | some part ↦ part ++ gather parts (i + 1) count
]

abbrev pub with_assemblies : List (List ℕ × FragAssembly) → UdpRelay → UdpRelay
with_assemblies table r = record r { frag_assemblies = table }

-- What a call gives to its caller: nothing, or a whole datagram with its destination.
abbrev pub Assembled : Type 0
Assembled = Option (Destination × List ℕ)

-- From the check of the size on: the part is stored in its assembly.
unfoldable pub store_part : ℕ → ℕ → List ℕ → FragAssembly → FragAssembly
store_part frag now payload a =
    let frag_num = frag_number frag in
    let old_size = part_size (lookup frag_num a.parts) in
    record a {
      updated = now;
      parts = insert frag_num payload a.parts;
      total_bytes = size_minus a.total_bytes old_size + length payload;
      have_last = a.have_last || is_last frag;
      last_frag_num = if is_last frag then frag_num else a.last_frag_num;
    }

unfoldable pub overflows : ℕ → List ℕ → FragAssembly → Bool
overflows frag payload a =
    ltb max_assembled_udp_payload (length payload)
    || ltb (max_assembled_udp_payload - length payload)
        (size_minus a.total_bytes (part_size (lookup (frag_number frag) a.parts)))

-- From the test of `haveLast` on.
unfoldable pub finish_assembly :
    List ℕ → List (List ℕ × FragAssembly) → FragAssembly → UdpRelay → UdpRelay × Assembled
finish_assembly key table a r =
    let kept = with_assemblies (insert key a table) r in
    let dropped = with_assemblies (erase key (insert key a table)) r in
    if not a.have_last then (kept, none) else elim (measure a.parts 1 a.last_frag_num 0) [
      | part_missing ↦ (kept, none)
      | too_large ↦ (dropped, none)
      | complete total ↦ (dropped, some (a.destination, gather a.parts 1 a.last_frag_num))
    ]

-- From the reference to the assembly on, which stands in `table`.
unfoldable pub add_part :
    ℕ
    → ℕ
    → List ℕ
    → List ℕ
    → List (List ℕ × FragAssembly)
    → FragAssembly
    → UdpRelay
    → UdpRelay × Assembled
unfolding store_part finish_assembly
add_part frag now key payload table a r =
    if overflows frag payload a
    then (with_assemblies (erase key table) r, none)
    else finish_assembly key table (store_part frag now payload a) r

unfoldable pub process_fragment :
    ℕ → List ℕ → Destination → List ℕ → ℕ → UdpRelay → UdpRelay × Assembled
unfolding add_part
process_fragment frag key destination payload now r =
    let table = r.frag_assemblies in
    let fresh = new_assembly destination now in
    if frag_number frag == 0
    then (r, none)
    else if frag_number frag == 1
    then (if not (has_key (lookup key table)) && leb max_fragment_assemblies (length table)
        then (r, none)
        else add_part frag now key payload (insert key fresh table) fresh r)
    else elim (lookup key table) [
      | none ↦ (r, none)
      | some a ↦ add_part frag now key payload table a r
    ]
