-- ===== src/Udp/Bounds/Fragments.antt =====
-- server/protocol/UdpRelay.cpp, `ProcessFragment`: the sizes of assemblies.
use socks5proxy_native.Prelude.{
  ℕ, zero, suc, ◌+◌, ◌≤◌, ◌≡◌, refl, false, not, ◌&&◌, List, [], ◌∷◌, Option, some, none, inl, inr,
  length, length-append, lookup, insert, erase, All-insert, All-erase, All-lookup, length-insert,
  length-insert_old, length-erase, lookup-insert_self, Option-cases, if-elim, leb, ◌==◌, nat_eq,
  bytes_eq, arith,
}
use socks5proxy_native.Udp.{
  UdpRelay, FragAssembly, Destination, max_assembled_udp_payload, max_fragment_assemblies,
}
use socks5proxy_native.Udp.Bounds.{IsSound, FewAssemblies, IsBounded, sizes}
use socks5proxy_native.Udp.Fragments.{
  new_assembly, part_size, has_key, frag_number, overflows, store_part, finish_assembly, add_part,
  process_fragment, measure, gather, Measured, part_missing, too_large, complete, with_assemblies,
  Assembled,
}

-- Storing a part adds its size and takes that of the part it replaces.
pub sizes-insert :
    (i : ℕ) (part : List ℕ) (parts : List (ℕ × List ℕ))
    → sizes (insert i part parts) + part_size (lookup i parts) ≡ sizes parts + length part
unfolding insert lookup
sizes-insert i part [] = omega arith
sizes-insert i part ((j, p) ∷ parts) = ground (arith, sizes-insert i part parts)

part_size-sizes : (i : ℕ) (parts : List (ℕ × List ℕ)) → part_size (lookup i parts) ≤ sizes parts
unfolding lookup
part_size-sizes i [] = omega arith
part_size-sizes i ((j, p) ∷ parts) = ground (arith, part_size-sizes i parts)

pub store_part-IsSound :
    (frag now : ℕ) (payload : List ℕ) (a : FragAssembly)
    → overflows frag payload a ≡ false
    → IsSound a
    → IsSound (store_part frag now payload a)
unfolding store_part overflows
store_part-IsSound frag now payload a e (s, l) =
    let old = part_size-sizes (frag_number frag) a.parts in
    let new = sizes-insert (frag_number frag) payload a.parts in
    (ground (arith, e, s, l, old, new), ground (arith, e, s, l, old, new))

insert-FewAssemblies :
    (key : List ℕ) (a : FragAssembly) (table : List (List ℕ × FragAssembly))
    → length (insert key a table) ≤ max_fragment_assemblies
    → IsSound a
    → FewAssemblies table
    → FewAssemblies (insert key a table)
insert-FewAssemblies key a table h s (l, all) = (h, All-insert (λ e. IsSound e.1) key a table s all)

erase-FewAssemblies :
    (key : List ℕ) (table : List (List ℕ × FragAssembly))
    → FewAssemblies table
    → FewAssemblies (erase key table)
erase-FewAssemblies key table (l, all) =
    (omega (arith, length-erase key table, l), All-erase (λ e. IsSound e.1) key table all)

-- The parts gathered have the total that was measured.
pub gather-measure :
    (parts : List (ℕ × List ℕ)) (i count total sum : ℕ)
    → measure parts i count total ≡ complete sum
    → total + length (gather parts i count) ≡ sum
unfolding measure gather
gather-measure parts i zero total sum e = ground (arith, e)
gather-measure parts i (suc count) total sum e = elim (Option-cases (lookup i parts)) [
  | inl n ↦ ground (arith, e, n)
  | inr (part, f) ↦ ground (
    arith,
    e,
    f,
    length-append part (gather parts (i + 1) count),
    gather-measure parts (i + 1) count (total + length part) sum,
  )
]

measure-small :
    (parts : List (ℕ × List ℕ)) (i count total sum : ℕ)
    → total ≤ max_assembled_udp_payload
    → measure parts i count total ≡ complete sum
    → sum ≤ max_assembled_udp_payload
unfolding measure
measure-small parts i zero total sum h e = ground (arith, e, h)
measure-small parts i (suc count) total sum h e = elim (Option-cases (lookup i parts)) [
  | inl n ↦ ground (arith, e, n)
  | inr (part, f) ↦
      ground (arith, e, f, measure-small parts (i + 1) count (total + length part) sum)
]

-- A datagram that is handed on fits into a UDP packet.
abbrev pub Fits : Assembled → Type 0
Fits none = Unit {0}
Fits (some (destination, payload)) = length payload ≤ max_assembled_udp_payload

-- The relay is bounded, and so is what `ProcessFragment` hands on.
pub record Fitting (out : UdpRelay × Assembled) : Type 0 where
  pub relay : IsBounded out.0
  pub datagram : Fits out.1

table-Fitting :
    (table : List (List ℕ × FragAssembly)) (r : UdpRelay) (out : Assembled)
    → FewAssemblies table
    → Fits out
    → IsBounded r
    → Fitting (with_assemblies table r, out)
table-Fitting table r out f fits b = record {
  relay = record { sends = b.sends; active = b.active; frags = f; names = b.names };
  datagram = fits;
}

finish_assembly-Fitting :
    (key : List ℕ) (table : List (List ℕ × FragAssembly)) (a : FragAssembly) (r : UdpRelay)
    → FewAssemblies (insert key a table)
    → IsBounded r
    → Fitting (finish_assembly key table a r)
unfolding finish_assembly
finish_assembly-Fitting key table a r f b =
    if-elim Fitting (not a.have_last) _ _ (λ _. table-Fitting (insert key a table) r none f tt b)
      (λ _. go (measure a.parts 1 a.last_frag_num 0) refl)
  where
    dropped : FewAssemblies (erase key (insert key a table))
    dropped = erase-FewAssemblies key (insert key a table) f

    go :
        (m : Measured)
        → measure a.parts 1 a.last_frag_num 0 ≡ m
        → Fitting (elim m [
          | part_missing ↦ (with_assemblies (insert key a table) r, none)
          | too_large ↦ (with_assemblies (erase key (insert key a table)) r, none)
          | complete total ↦ (
            with_assemblies (erase key (insert key a table)) r,
            some (a.destination, gather a.parts 1 a.last_frag_num),
          )
        ])
    go part_missing e = table-Fitting (insert key a table) r none f tt b
    go too_large e = table-Fitting (erase key (insert key a table)) r none dropped tt b
    go (complete total) e =
        table-Fitting (erase key (insert key a table)) r
          (some (a.destination, gather a.parts 1 a.last_frag_num)) dropped
          (omega (
            arith,
            gather-measure a.parts 1 a.last_frag_num 0 total e,
            measure-small a.parts 1 a.last_frag_num 0 total (omega arith) e,
          ))
          b

add_part-Fitting :
    (frag now : ℕ) (key payload : List ℕ) (table : List (List ℕ × FragAssembly)) (a : FragAssembly)
    (r : UdpRelay)
    → FewAssemblies table
    → lookup key table ≡ some a
    → IsSound a
    → IsBounded r
    → Fitting (add_part frag now key payload table a r)
unfolding add_part
add_part-Fitting frag now key payload table a r (l, all) e s b =
    if-elim Fitting (overflows frag payload a) _ _
      (λ _. table-Fitting (erase key table) r none (erase-FewAssemblies key table (l, all)) tt b)
      (λ fits.
        let stored = store_part frag now payload a in
        finish_assembly-Fitting key table stored r
          (insert-FewAssemblies key stored table
            (rw (length-insert_old key stored table (λ n. absurd (cc))) l)
            (store_part-IsSound frag now payload a fits s) (l, all))
          b)

new_assembly-IsSound :
    (destination : Destination) (now : ℕ) → IsSound (new_assembly destination now)
unfolding new_assembly
new_assembly-IsSound destination now = (refl, omega arith)

first_part-room :
    (key : List ℕ) (a : FragAssembly) (table : List (List ℕ × FragAssembly))
    → (not (has_key (lookup key table)) && leb max_fragment_assemblies (length table)) ≡ false
    → length table ≤ max_fragment_assemblies
    → length (insert key a table) ≤ max_fragment_assemblies
first_part-room key a table e l = elim (Option-cases (lookup key table)) [
  | inl n ↦ ground (arith, e, n, length-insert key a table)
  | inr (old, f) ↦ rw (length-insert_old key a table (λ n. absurd (cc))) l
]

-- Whatever a fragment holds: the tables of the relay stay within their limits, the byte counts of the
-- assemblies stay right and at most 65535, and a datagram that is handed on has at most 65535 bytes.
pub process_fragment-Fitting :
    (frag : ℕ) (key : List ℕ) (destination : Destination) (payload : List ℕ) (now : ℕ)
    (r : UdpRelay)
    → IsBounded r
    → Fitting (process_fragment frag key destination payload now r)
unfolding process_fragment
process_fragment-Fitting frag key destination payload now r b =
    if-elim Fitting (frag_number frag == 0) _ _ (λ _. same)
      (λ _.
        if-elim Fitting (frag_number frag == 1) _ _
          (λ _.
            if-elim Fitting
              (not (has_key (lookup key table)) && leb max_fragment_assemblies (length table)) _ _
              (λ _. same)
              (λ e.
                add_part-Fitting frag now key payload (insert key fresh table) fresh r
                  (insert-FewAssemblies key fresh table
                    (first_part-room key fresh table e b.frags.0)
                    (new_assembly-IsSound destination now) b.frags)
                  (lookup-insert_self key fresh table) (new_assembly-IsSound destination now) b))
          (λ _. go (lookup key table) refl))
  where
    table : List (List ℕ × FragAssembly)
    table = r.frag_assemblies

    fresh : FragAssembly
    fresh = new_assembly destination now

    same : Fitting (r, none)
    same = record { relay = b; datagram = tt }

    go :
        (o : Option FragAssembly)
        → lookup key table ≡ o
        → Fitting (elim o [ none ↦ (r, none) | some a ↦ add_part frag now key payload table a r ])
    go none e = same
    go (some a) e =
        add_part-Fitting frag now key payload table a r b.frags e
          (All-lookup IsSound key a table b.frags.1 e) b
