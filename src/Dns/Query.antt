-- ===== src/Dns/Query.antt =====
-- dns/DnsClient.cpp, `BuildQuery`: a query for one name with an EDNS0 record.
pub mod Laws
pub mod Labels
pub mod Packet
use socks5proxy_native.Prelude.{
  ℕ, ◌-◌, ◌%◌, ◌||◌, List, [], ◌∷◌, ◌++◌, length, ltb, ◌==◌, if◌then◌else◌,
}
use socks5proxy_native.Outcome.{Outcome, ok, throws, ◌>>=◌}
use socks5proxy_native.Dns.Wire.{write_u16}

-- The character goes to the front of the label that the rest of the text begins with.
unfoldable pub onto_first : ℕ → List (List ℕ) → List (List ℕ)
onto_first c [] = (c ∷ []) ∷ []
onto_first c (l ∷ ls) = (c ∷ l) ∷ ls

-- What `std::getline(ss, label, '.')` yields until the stream ends: a text that ends in a dot, or
-- is empty, has no last empty label.
unfoldable pub labels : List ℕ → List (List ℕ)
unfolding onto_first
labels [] = []
labels (c ∷ cs) = let rest = labels cs in if c == b'.' then [] ∷ rest else onto_first c rest

-- The loop over the labels; `out` is the packet so far.
unfoldable pub write_labels : List (List ℕ) → List ℕ → Outcome (List ℕ)
write_labels [] out = ok out
write_labels (label ∷ ls) out =
    let rest = write_labels ls (out ++ (length label % 256 ∷ label)) in
    if length label == 0 || ltb 63 (length label) then throws else rest

abbrev pub header : ℕ → List ℕ
header id =
    write_u16 (write_u16 (write_u16 (write_u16 (write_u16 (write_u16 [] id) 0x0100) 1) 0) 0) 1

-- The end of the question, and the OPT record.
abbrev pub question_end : List ℕ → ℕ → List ℕ
question_end out type = write_u16 (write_u16 out type) 1

abbrev pub opt_record : List ℕ → List ℕ
opt_record out =
    let named = write_u16 (write_u16 (out ++ (0 ∷ [])) 41) 4096 in
    write_u16 (write_u16 (named ++ (0 ∷ 0 ∷ [])) 0) 0

unfoldable pub build_query : List ℕ → ℕ → ℕ → Outcome (List ℕ)
unfolding labels write_labels
build_query domain id type = if length domain == 0 || ltb 253 (length domain) then throws else do
  named ← write_labels (labels domain) (header id)
  let out = named ++ (0 ∷ [])
  if ltb 255 (length out - 12) then throws else ok (opt_record (question_end out type))
