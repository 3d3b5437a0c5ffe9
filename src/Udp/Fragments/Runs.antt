-- ===== src/Udp/Fragments/Runs.antt =====
-- server/protocol/UdpRelay.cpp, `ProcessFragment`: a whole datagram in fragments.
use socks5proxy_native.Prelude.{
  ℕ, ◌+◌, ◌≤◌, ◌<◌, ◌≡◌, ◌≢◌, ◌⊎◌, inl, inr, refl, ap, ◌∙◌, Bool, true, false, not, ◌&&◌, List, [],
  ◌∷◌, ◌++◌, append_assoc, none, some, length, length-append, flatten, flatten-append, lookup,
  insert, lookup-insert_self, lookup-erase, beq_refl, Option-cases, leb, ◌==◌, if◌then◌else◌,
  nat_eq, bytes_eq, arith,
}
use socks5proxy_native.Udp.{
  UdpRelay, FragAssembly, Destination, max_assembled_udp_payload, max_fragment_assemblies,
}
use socks5proxy_native.Udp.Fragments.{
  frag_number, has_key, new_assembly, with_assemblies, Assembled, add_part, process_fragment,
}
use socks5proxy_native.Udp.Fragments.Laws.{
  partial, whole, add_part-middle, add_part-last, length-flatten_snoc,
}

-- Is there an assembly under the key, or room for one more?
abbrev pub HasRoom : List ℕ → UdpRelay → Type 0
HasRoom key r =
    (lookup key r.frag_assemblies ≢ none) ⊎ (length r.frag_assemblies < max_fragment_assemblies)

abbrev handed : Assembled → List (Destination × List ℕ)
handed none = []
handed (some datagram) = datagram ∷ []

abbrev is_empty : List (List ℕ) → Bool
is_empty [] = true
is_empty (part ∷ parts) = false

-- The fragments of a datagram, from number `i` on, arrive one after the other; what they hand on.
abbrev pub send_parts :
    List ℕ → Destination → ℕ → ℕ → List (List ℕ) → UdpRelay → UdpRelay × List (Destination × List ℕ)
send_parts key destination now i [] r = (r, [])
send_parts key destination now i (part ∷ parts) r =
    let frag = if is_empty parts then i + 128 else i in
    let (next, out) = process_fragment frag key destination part now r in
    let (final, outs) = send_parts key destination now (i + 1) parts next in
    (final, handed out ++ outs)

module _ (key : List ℕ) (destination : Destination) (now : ℕ) where
  -- The first fragment starts an assembly anew.
  process_fragment-first :
      (frag : ℕ) (part : List ℕ) (r : UdpRelay)
      → frag_number frag ≡ 1
      → HasRoom key r
      → process_fragment frag key destination part now r
        ≡ add_part frag now key part
            (insert key (partial destination now []) r.frag_assemblies)
            (partial destination now [])
            r
  unfolding process_fragment new_assembly
  process_fragment-first frag part r e room =
      let free : (not (has_key (lookup key r.frag_assemblies))
            && leb max_fragment_assemblies (length r.frag_assemblies))
          ≡ false =
        elim (Option-cases (lookup key r.frag_assemblies)) [
          | inl n ↦ ground (arith, n, room)
          | inr (a, f) ↦ ground (arith, f)
        ] in
      rw (e, free) refl

  process_fragment-next :
      (frag : ℕ) (part : List ℕ) (a : FragAssembly) (r : UdpRelay)
      → 2 ≤ frag_number frag
      → lookup key r.frag_assemblies ≡ some a
      → process_fragment frag key destination part now r
        ≡ add_part frag now key part r.frag_assemblies a r
  unfolding process_fragment
  process_fragment-next frag part a r h e =
      let not_zero : (frag_number frag == 0) ≡ false = ground (arith, h) in
      let not_one : (frag_number frag == 1) ≡ false = ground (arith, h) in
      rw (not_zero, not_one, e) refl

  -- What is left when the datagram is handed on.
  abbrev Delivers : List (List ℕ) → UdpRelay × List (Destination × List ℕ) → Type 0
  Delivers parts out =
      (out.1 ≡ (destination, flatten parts) ∷ []) × (lookup key out.0.frag_assemblies ≡ none)

  send_from :
      (rest before : List (List ℕ)) (part : List ℕ) (table : List (List ℕ × FragAssembly)) (i : ℕ)
      (r : UdpRelay)
      → i ≡ 1 + length before
      → i + length rest < 128
      → length (flatten (before ++ (part ∷ rest))) ≤ max_assembled_udp_payload
      → ((frag : ℕ)
          → frag_number frag ≡ i
          → process_fragment frag key destination part now r
            ≡ add_part frag now key part table (partial destination now before) r)
      → Delivers (before ++ (part ∷ rest)) (send_parts key destination now i (part ∷ rest) r)
  send_from [] before part table i r e h fits enter =
      let last =
        enter (i + 128) (omega arith)
        ∙ add_part-last key destination now before part table r i e (omega arith)
            (omega (arith, fits, length-flatten_snoc before part)) in
      let stored = insert key (whole destination now (before ++ (part ∷ []))) table in
      ground (arith, last, lookup-erase key key stored, beq_refl key)
  send_from (next ∷ rest) before part table i r e h fits enter =
      let parts = before ++ (part ∷ []) in
      let stored = insert key (partial destination now parts) table in
      let step =
        enter i (omega arith)
        ∙ add_part-middle key destination now before part table r i e (omega arith) (
            omega (
              arith,
              fits,
              ap length (flatten-append before (part ∷ next ∷ rest)),
              length-append (flatten before) (flatten (part ∷ next ∷ rest)),
              length-append part (flatten (next ∷ rest)),
            )) in
      let assoc = append_assoc before (part ∷ []) (next ∷ rest) in
      let later =
        send_from rest parts next stored (i + 1) (with_assemblies stored r)
          (omega (arith, e, length-append before (part ∷ []))) (omega (arith, h)) (rw (assoc) fits)
          (λ frag f.
            process_fragment-next frag next (partial destination now parts)
              (with_assemblies stored r) (omega (arith, e, f))
              (lookup-insert_self key (partial destination now parts) table)) in
      let later' : Delivers (before ++ (part ∷ next ∷ rest))
          (send_parts key destination now (i + 1) (next ∷ rest) (with_assemblies stored r)) =
        rw assoc at later in
      rw (step) later'

-- A datagram of at most 65535 bytes that comes as fragments 1 to n in order, with n at most 127 and the
-- last one flagged, to a relay that has its key or room for one more: exactly one datagram is handed on,
-- the payloads joined with the destination, and the key is free afterwards.
pub send_parts-flatten :
    (key : List ℕ) (destination : Destination) (now : ℕ) (parts : List (List ℕ)) (r : UdpRelay)
    → 0 < length parts
    → length parts < 128
    → length (flatten parts) ≤ max_assembled_udp_payload
    → HasRoom key r
    → ((send_parts key destination now 1 parts r).1 ≡ (destination, flatten parts) ∷ [])
      × (lookup key (send_parts key destination now 1 parts r).0.frag_assemblies ≡ none)
send_parts-flatten key destination now [] r p h fits room = elim p [ ]
send_parts-flatten key destination now (part ∷ rest) r p h fits room =
    send_from key destination now rest [] part
      (insert key (partial destination now []) r.frag_assemblies) 1 r refl (omega (arith, h)) fits
      (λ frag f. process_fragment-first key destination now frag part r f room)
