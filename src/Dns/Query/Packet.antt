-- ===== src/Dns/Query/Packet.antt =====
-- What `BuildQuery` writes for a name that is given by its labels.
use socks5proxy_native.Prelude.{
  ℕ, ◌+◌, ◌/◌, ◌%◌, ◌≤◌, ◌≡◌, refl, ◌∙◌, List, [], ◌∷◌, ◌++◌, length, length-append, All, arith,
}
use socks5proxy_native.Outcome.{ok}
use socks5proxy_native.Dns.Wire.{write_u16}
use socks5proxy_native.Dns.Query.{build_query}
use socks5proxy_native.Dns.Query.Laws.{IsLabel, IsDomain, encoding, build_query-ok}
use socks5proxy_native.Dns.Query.Labels.{join, IsPlain, labels-join}

-- The labels of a name: 1 to 63 bytes each, without dots.
abbrev pub IsText : List ℕ → Type 0
IsText l = IsPlain l × (length l ≤ 63)

-- RFC 1035 and RFC 6891: the id, the flags with RD, one question and one additional record; the name,
-- its type and the class IN; and the OPT record for 4096 bytes.
abbrev pub packet : List (List ℕ) → ℕ → ℕ → List ℕ
packet ls id type =
    id / 256 % 256
    ∷ id % 256
    ∷ 1
    ∷ 0
    ∷ 0
    ∷ 1
    ∷ 0
    ∷ 0
    ∷ 0
    ∷ 0
    ∷ 0
    ∷ 1
    ∷ (encoding ls
        ++ (0
            ∷ type / 256 % 256
            ∷ type % 256
            ∷ 0
            ∷ 1
            ∷ 0
            ∷ 0
            ∷ 41
            ∷ 16
            ∷ 0
            ∷ 0
            ∷ 0
            ∷ 0
            ∷ 0
            ∷ 0
            ∷ 0
            ∷ []))

length-join :
    (l : List ℕ) (ls : List (List ℕ)) → length (encoding (l ∷ ls)) ≡ length (join (l ∷ ls)) + 1
unfolding encoding join
length-join l [] = omega (arith, length-append l [])
length-join l (m ∷ ls) = omega (
  arith,
  length-join m ls,
  length-append l (encoding (m ∷ ls)),
  length-append l (b'.' ∷ join (m ∷ ls)),
)

text_parts : (ls : List (List ℕ)) → All IsText ls → All IsPlain ls
text_parts [] a = tt
text_parts (l ∷ ls) (a, as') = (a.0, text_parts ls as')

text_sizes : (ls : List (List ℕ)) → All IsText ls → All IsLabel ls
text_sizes [] a = tt
text_sizes (l ∷ ls) (a, as') = ((a.0.0, a.1), text_sizes ls as')

joined-IsDomain :
    (l : List ℕ) (ls : List (List ℕ))
    → All IsText (l ∷ ls)
    → length (join (l ∷ ls)) ≤ 253
    → IsDomain (join (l ∷ ls))
joined-IsDomain l ls a h =
    let e = labels-join (l ∷ ls) (text_parts (l ∷ ls) a) in
    record {
      nonempty =
          unfold encoding in
          omega (arith, length-join l ls, length-append l (encoding ls), a.0.0.0);
      short = h;
      split = rw (e) (text_sizes (l ∷ ls) a);
      fits = rw (e) (omega (arith, length-join l ls, h));
    }

-- For labels of 1 to 63 bytes without dots that make a name of at most 253 bytes, joined by dots,
-- `BuildQuery` returns the packet of RFC 1035 that asks for these labels, with the EDNS0 record.
pub build_query-packet :
    (l : List ℕ) (ls : List (List ℕ)) (id type : ℕ)
    → All IsText (l ∷ ls)
    → length (join (l ∷ ls)) ≤ 253
    → build_query (join (l ∷ ls)) id type ≡ ok (packet (l ∷ ls) id type)
unfolding write_u16
build_query-packet l ls id type a h =
    build_query-ok (join (l ∷ ls)) id type (joined-IsDomain l ls a h)
    ∙ rw (labels-join (l ∷ ls) (text_parts (l ∷ ls) a)) refl
