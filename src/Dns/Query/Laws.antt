-- ===== src/Dns/Query/Laws.antt =====
-- What `BuildQuery` writes.
use socks5proxy_native.Prelude.{
  ℕ, ◌+◌, ◌/◌, ◌%◌, ◌≤◌, ◌≡◌, refl, ap, sym, inl, inr, List, [], ◌∷◌, ◌++◌, append_assoc,
  append-nil, length, length-append, All, Bool-cases, ltb, false, ◌⊎◌, ◌-◌, if-elim, if◌then◌else◌,
  ◌||◌, ◌==◌, arith,
}
use socks5proxy_native.Outcome.{Outcome, ok, throws}
use socks5proxy_native.Dns.Wire.{write_u16}
use socks5proxy_native.Dns.Query.{
  labels, write_labels, header, question_end, opt_record, build_query,
}

-- A label of a name on the wire has 1 to 63 bytes.
abbrev pub IsLabel : List ℕ → Type 0
IsLabel l = (1 ≤ length l) × (length l ≤ 63)

-- The labels as they stand in a message, each behind its length.
unfoldable pub encoding : List (List ℕ) → List ℕ
encoding [] = []
encoding (l ∷ ls) = length l ∷ (l ++ encoding ls)

pub write_labels-ok :
    (ls : List (List ℕ)) (out : List ℕ)
    → All IsLabel ls
    → write_labels ls out ≡ ok (out ++ encoding ls)
unfolding write_labels encoding
write_labels-ok [] out h = ap ok (sym (append-nil out))
write_labels-ok (l ∷ ls) out (h, hs) = ground (
  arith,
  write_labels-ok ls (out ++ (length l % 256 ∷ l)) hs,
  append_assoc out (length l ∷ l) (encoding ls),
)

-- The loop throws unless every label has 1 to 63 bytes.
pub write_labels-IsLabel :
    (ls : List (List ℕ)) (out o : List ℕ) → write_labels ls out ≡ ok o → All IsLabel ls
unfolding write_labels
write_labels-IsLabel [] out o e = tt
write_labels-IsLabel (l ∷ ls) out o e = elim (Bool-cases (length l == 0 || ltb 63 (length l))) [
  | inl bad ↦ ground arith
  | inr good ↦
      (ground arith, write_labels-IsLabel ls (out ++ (length l % 256 ∷ l)) o (ground arith))
]

-- What the program accepts: 1 to 253 bytes, labels of 1 to 63, and 255 bytes on the wire at most.
pub record IsDomain (domain : List ℕ) : Type 0 where
  pub nonempty : 1 ≤ length domain
  pub short : length domain ≤ 253
  pub split : All IsLabel (labels domain)
  pub fits : length (encoding (labels domain)) + 1 ≤ 255

-- The bytes of the packet behind the name.
abbrev pub question_tail : ℕ → List ℕ
question_tail type =
    type / 256 % 256 ∷ type % 256 ∷ 0 ∷ 1 ∷ 0 ∷ 0 ∷ 41 ∷ 16 ∷ 0 ∷ 0 ∷ 0 ∷ 0 ∷ 0 ∷ 0 ∷ 0 ∷ []

pub opt_record-packet :
    (front : List ℕ) (type : ℕ)
    → opt_record (question_end (front ++ (0 ∷ [])) type) ≡ front ++ (0 ∷ question_tail type)
unfolding write_u16
opt_record-packet front type = simp append_assoc

length-header : (id : ℕ) → length (header id) ≡ 12
unfolding write_u16
length-header id = refl

-- On a domain that fits, `BuildQuery` returns the header, the labels and the fixed end.
pub build_query-ok :
    (domain : List ℕ) (id type : ℕ)
    → IsDomain domain
    → build_query domain id type
      ≡ ok (header id ++ (encoding (labels domain) ++ (0 ∷ question_tail type)))
unfolding build_query
build_query-ok domain id type d = ground (
  arith,
  write_labels-ok (labels domain) (header id) d.split,
  opt_record-packet (header id ++ encoding (labels domain)) type,
  append_assoc (header id) (encoding (labels domain)) (0 ∷ question_tail type),
  length-append (header id ++ encoding (labels domain)) (0 ∷ []),
  length-append (header id) (encoding (labels domain)),
  length-header id,
)

-- The loop over the labels returns or throws.
write_labels_ends :
    (ls : List (List ℕ)) (out : List ℕ)
    → ((o : List ℕ) × (write_labels ls out ≡ ok o)) ⊎ (write_labels ls out ≡ throws)
unfolding write_labels
write_labels_ends [] out = inl (out, refl)
write_labels_ends (l ∷ ls) out =
    if-elim {A = Outcome (List ℕ)} (λ w. ((o : List ℕ) × (w ≡ ok o)) ⊎ (w ≡ throws))
      (length l == 0 || ltb 63 (length l)) _ _ (λ _. inr refl)
      (λ _. write_labels_ends ls (out ++ (length l % 256 ∷ l)))

-- `BuildQuery` throws for every name that is not a domain: one of no or more than 253 bytes, with a label
-- of no or more than 63 bytes, or of more than 255 bytes on the wire.
pub build_query-throws :
    (domain : List ℕ) (id type : ℕ) → ¬ IsDomain domain → build_query domain id type ≡ throws
unfolding build_query
build_query-throws domain id type bad =
    elim (Bool-cases (length domain == 0 || ltb 253 (length domain))) [
      | inl size ↦ rw (size) refl
      | inr size ↦ elim (write_labels_ends (labels domain) (header id)) [
        | inr t ↦ rw (size, t) refl
        | inl (front, w) ↦ rw (size, w) (too_long front size w)
      ]
    ]
  where
    too_long :
        (front : List ℕ)
        → (length domain == 0 || ltb 253 (length domain)) ≡ false
        → write_labels (labels domain) (header id) ≡ ok front
        → (if ltb 255 (length (front ++ (0 ∷ [])) - 12)
            then throws
            else ok (opt_record (question_end (front ++ (0 ∷ [])) type)))
          ≡ throws
    too_long front size w = elim (Bool-cases (ltb 255 (length (front ++ (0 ∷ [])) - 12))) [
      | inl long ↦ rw (long) refl
      | inr short ↦
          let split = write_labels-IsLabel (labels domain) (header id) front w in
          absurd (
            bad (record {
              nonempty = ground (arith, size);
              short = ground (arith, size);
              split = split;
              fits = ground (
                arith,
                short,
                w,
                write_labels-ok (labels domain) (header id) split,
                length-append (header id ++ encoding (labels domain)) (0 ∷ []),
                length-append (header id) (encoding (labels domain)),
                length-header id,
              );
            }))
    ]
