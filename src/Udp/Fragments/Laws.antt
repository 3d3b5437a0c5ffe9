-- ===== src/Udp/Fragments/Laws.antt =====
-- server/protocol/UdpRelay.cpp, `ProcessFragment`: fragments that arrive in order.
use socks5proxy_native.Prelude.{
  ℕ, ◌+◌, ◌≤◌, ◌<◌, ◌≡◌, refl, ap, ◌∙◌, true, false, List, [], ◌∷◌, ◌++◌, append_assoc, none, some,
  length, length-append, flatten, flatten-append, lookup, insert, erase, nat_eq, bytes_eq, arith,
}
use socks5proxy_native.Udp.{UdpRelay, FragAssembly, Destination, max_assembled_udp_payload}
use socks5proxy_native.Udp.Fragments.{
  frag_number, is_last, size_minus, part_size, measure, gather, complete, with_assemblies,
  store_part, overflows, finish_assembly, add_part,
}

-- Parts with their numbers, from `i` on.
abbrev pub numbered : ℕ → List (List ℕ) → List (ℕ × List ℕ)
numbered i [] = []
numbered i (part ∷ parts) = (i, part) ∷ numbered (i + 1) parts

-- The assembly that has got `parts`, and no last fragment.
abbrev pub partial : Destination → ℕ → List (List ℕ) → FragAssembly
partial destination now parts = record {
  destination = destination;
  parts = numbered 1 parts;
  have_last = false;
  last_frag_num = 0;
  total_bytes = length (flatten parts);
  updated = now;
}

lookup-numbered_beyond :
    (i j : ℕ) (parts : List (List ℕ)) → i + length parts ≤ j → lookup j (numbered i parts) ≡ none
unfolding lookup
lookup-numbered_beyond i j [] h = refl
lookup-numbered_beyond i j (part ∷ parts) h =
    ground (arith, h, lookup-numbered_beyond (i + 1) j parts)

lookup-numbered :
    (i j : ℕ) (before : List (List ℕ)) (part : List ℕ) (after : List (List ℕ))
    → j ≡ i + length before
    → lookup j (numbered i (before ++ (part ∷ after))) ≡ some part
unfolding lookup
lookup-numbered i j [] part after e = ground (arith, e)
lookup-numbered i j (first ∷ before) part after e =
    ground (arith, e, lookup-numbered (i + 1) j before part after)

insert-numbered :
    (i j : ℕ) (parts : List (List ℕ)) (part : List ℕ)
    → j ≡ i + length parts
    → insert j part (numbered i parts) ≡ numbered i (parts ++ (part ∷ []))
unfolding insert
insert-numbered i j [] part e = ground (arith, e)
insert-numbered i j (first ∷ parts) part e = ground (arith, e, insert-numbered (i + 1) j parts part)

measure-numbered :
    (before after : List (List ℕ)) (i total : ℕ)
    → i ≡ 1 + length before
    → total + length (flatten after) ≤ max_assembled_udp_payload
    → measure (numbered 1 (before ++ after)) i (length after) total
      ≡ complete (total + length (flatten after))
unfolding measure
measure-numbered before [] i total e h = ap complete (omega arith)
measure-numbered before (part ∷ after) i total e h =
    let split = length-append part (flatten after) in
    let rest =
      measure-numbered (before ++ (part ∷ [])) after (i + 1) (total + length part)
        (omega (arith, e, length-append before (part ∷ []))) (omega (arith, h, split)) in
    ground (
      arith,
      h,
      split,
      rest,
      append_assoc before (part ∷ []) after,
      lookup-numbered 1 i before part after e,
    )

gather-numbered :
    (before after : List (List ℕ)) (i : ℕ)
    → i ≡ 1 + length before
    → gather (numbered 1 (before ++ after)) i (length after) ≡ flatten after
unfolding gather
gather-numbered before [] i e = refl
gather-numbered before (part ∷ after) i e = ground (
  arith,
  append_assoc before (part ∷ []) after,
  lookup-numbered 1 i before part after e,
  gather-numbered (before ++ (part ∷ [])) after (i + 1)
      (omega (arith, e, length-append before (part ∷ []))),
)

pub length-flatten_snoc :
    (parts : List (List ℕ)) (part : List ℕ)
    → length (flatten (parts ++ (part ∷ []))) ≡ length (flatten parts) + length part
length-flatten_snoc parts part = omega (
  arith,
  ap length (flatten-append parts (part ∷ [])),
  length-append (flatten parts) (flatten (part ∷ [])),
  length-append part [],
)

-- The assembly that has got `parts`, the last one with the last number.
abbrev pub whole : Destination → ℕ → List (List ℕ) → FragAssembly
whole destination now parts = record {
  destination = destination;
  parts = numbered 1 parts;
  have_last = true;
  last_frag_num = length parts;
  total_bytes = length (flatten parts);
  updated = now;
}

size_minus-none : (n : ℕ) → size_minus n (part_size none) ≡ n
size_minus-none n = ground arith

module _ (destination : Destination) (now : ℕ) (parts : List (List ℕ)) (part : List ℕ) where
  overflows-partial :
      (frag : ℕ)
      → frag_number frag ≡ 1 + length parts
      → length (flatten parts) + length part ≤ max_assembled_udp_payload
      → overflows frag part (partial destination now parts) ≡ false
  unfolding overflows
  overflows-partial frag e fits =
      rw (e, lookup-numbered_beyond 1 (1 + length parts) parts (omega arith)) (ground (arith, fits))

  store_part-partial :
      (i : ℕ)
      → i ≡ 1 + length parts
      → i < 128
      → store_part i now part (partial destination now parts)
        ≡ partial destination now (parts ++ (part ∷ []))
  unfolding store_part
  store_part-partial i e h =
      let number : frag_number i ≡ 1 + length parts = omega arith in
      let more : is_last i ≡ false = ground (arith, h) in
      rw
        (
          number,
          more,
          lookup-numbered_beyond 1 (1 + length parts) parts (omega arith),
          insert-numbered 1 (1 + length parts) parts part refl,
          length-flatten_snoc parts part,
          size_minus-none (length (flatten parts)),
        )
        refl

  store_part-whole :
      (i : ℕ)
      → i ≡ 1 + length parts
      → i < 128
      → store_part (i + 128) now part (partial destination now parts)
        ≡ whole destination now (parts ++ (part ∷ []))
  unfolding store_part
  store_part-whole i e h =
      let number : frag_number (i + 128) ≡ 1 + length parts = omega arith in
      let last : is_last (i + 128) ≡ true = ground arith in
      let count : length (parts ++ (part ∷ [])) ≡ 1 + length parts =
        omega (arith, length-append parts (part ∷ [])) in
      rw
        (
          number,
          last,
          count,
          lookup-numbered_beyond 1 (1 + length parts) parts (omega arith),
          insert-numbered 1 (1 + length parts) parts part refl,
          length-flatten_snoc parts part,
          size_minus-none (length (flatten parts)),
        )
        refl

module _ (key : List ℕ) (destination : Destination) (now : ℕ) (parts : List (List ℕ))
    (part : List ℕ) (table : List (List ℕ × FragAssembly)) (r : UdpRelay) (i : ℕ)
    (e : i ≡ 1 + length parts) (h : i < 128)
    (fits : length (flatten parts) + length part ≤ max_assembled_udp_payload) where
  finish_assembly-partial :
      finish_assembly key table (partial destination now (parts ++ (part ∷ []))) r ≡ (
        with_assemblies (insert key (partial destination now (parts ++ (part ∷ []))) table) r,
        none,
      )
  unfolding finish_assembly
  finish_assembly-partial = refl

  add_part-stores :
      (frag : ℕ)
      → overflows frag part (partial destination now parts) ≡ false
      → add_part frag now key part table (partial destination now parts) r
        ≡ finish_assembly key table (store_part frag now part (partial destination now parts)) r
  unfolding add_part
  add_part-stores frag o = rw (o) refl

  pub add_part-middle : add_part i now key part table (partial destination now parts) r ≡ (
    with_assemblies (insert key (partial destination now (parts ++ (part ∷ []))) table) r,
    none,
  )
  add_part-middle =
      add_part-stores i (overflows-partial destination now parts part i (omega arith) fits)
      ∙ ap (λ a. finish_assembly key table a r)
          (store_part-partial destination now parts part i e h)
      ∙ finish_assembly-partial

  finish_assembly-whole :
      finish_assembly key table (whole destination now (parts ++ (part ∷ []))) r ≡ (
        with_assemblies
            (erase key (insert key (whole destination now (parts ++ (part ∷ []))) table))
            r,
        some (destination, flatten (parts ++ (part ∷ []))),
      )
  unfolding finish_assembly
  finish_assembly-whole =
      let measured =
        measure-numbered [] (parts ++ (part ∷ [])) 1 0 refl
          (omega (arith, fits, length-flatten_snoc parts part)) in
      rw (measured, gather-numbered [] (parts ++ (part ∷ [])) 1 refl) refl

  pub add_part-last : add_part (i + 128) now key part table (partial destination now parts) r ≡ (
    with_assemblies (erase key (insert key (whole destination now (parts ++ (part ∷ []))) table)) r,
    some (destination, flatten (parts ++ (part ∷ []))),
  )
  add_part-last =
      add_part-stores (i + 128)
        (overflows-partial destination now parts part (i + 128) (omega arith) fits)
      ∙ ap (λ a. finish_assembly key table a r) (store_part-whole destination now parts part i e h)
      ∙ finish_assembly-whole
