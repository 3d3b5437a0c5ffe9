-- ===== src/Dns/Response/Reply/Records.antt =====
-- The loop over the answers, on the bytes of a list of records.
use socks5proxy_native.Prelude.{
  ℕ, ◌+◌, ◌/◌, ◌%◌, ◌^◌, ◌≤◌, ◌<◌, ◌≡◌, refl, ap, sym, ◌∙◌, ◌&&◌, Bool, List, [], ◌∷◌, ◌++◌,
  append_assoc, length, drop, length-append, All, ◌==◌, if◌then◌else◌, some, arith,
}
use socks5proxy_native.Outcome.{Outcome, ok, read_bytes, read_bytes-append, read_bytes-exact}
use socks5proxy_native.Net.{Family, inet, inet6}
use socks5proxy_native.Dns.Wire.{read_u16, read_u32, read_u16-append, read_u32-append}
use socks5proxy_native.Dns.Name.Labels.{skip_name_pointer}
use socks5proxy_native.Dns.Response.{
  DnsResult, lower_ttl, answered, found, answer_data, answer, answers,
}
use socks5proxy_native.Dns.Response.Reply.{
  Resource, IsResource, resource_bytes, length-resource_bytes, resources_bytes, first_address,
}

-- The fields of a record that stands behind `front`.
module _ (front rest : List ℕ) (r : Resource) (pos : ℕ) (p : pos ≡ length front) where
  abbrev behind : List ℕ
  behind = front ++ (resource_bytes r ++ rest)

  type_at : r.type < 65536 → read_u16 behind (pos + 2) ≡ ok r.type
  unfolding resource_bytes
  type_at v =
      read_u16-append front (resource_bytes r ++ rest) (pos + 2) 2 (omega arith)
      ∙ unfold read_u16 in ap ok (omega arith)

  class_at : read_u16 behind (pos + 2 + 2) ≡ ok 1
  unfolding resource_bytes
  class_at =
      read_u16-append front (resource_bytes r ++ rest) (pos + 2 + 2) 4 (omega arith)
      ∙ unfold read_u16 in ap ok (omega arith)

  ttl_at : r.ttl < 2 ^ 32 → read_u32 behind (pos + 2 + 4) ≡ ok r.ttl
  unfolding resource_bytes
  ttl_at v =
      read_u32-append front (resource_bytes r ++ rest) (pos + 2 + 4) 6 (omega arith)
      ∙ unfold read_u32 in ap ok (omega arith)

  rdlen_at : length r.rdata < 65536 → read_u16 behind (pos + 2 + 8) ≡ ok (length r.rdata)
  unfolding resource_bytes
  rdlen_at v =
      read_u16-append front (resource_bytes r ++ rest) (pos + 2 + 8) 10 (omega arith)
      ∙ unfold read_u16 in ap ok (omega arith)

  abbrev before_rdata : List ℕ
  before_rdata =
      0xC0
      ∷ 12
      ∷ r.type / 256
      ∷ r.type % 256
      ∷ 0
      ∷ 1
      ∷ r.ttl / 2 ^ 24
      ∷ r.ttl / 2 ^ 16 % 256
      ∷ r.ttl / 2 ^ 8 % 256
      ∷ r.ttl % 256
      ∷ length r.rdata / 256
      ∷ length r.rdata % 256
      ∷ []

  rdata_at : (size : ℕ) → size ≡ length r.rdata → read_bytes size behind (pos + 2 + 10) ≡ ok r.rdata
  unfolding resource_bytes
  rdata_at size e =
      read_bytes-append size front (resource_bytes r ++ rest) (pos + 2 + 10) 12 (omega arith)
      ∙ read_bytes-append size before_rdata (r.rdata ++ rest) 12 0 (omega arith)
      ∙ read_bytes-exact r.rdata rest size e

module _ (inet_ntop : Family → List ℕ → List ℕ) (buffer : List ℕ) (n : ℕ) (truncated : Bool) where
  answer-resource :
      (expected pos min_ttl : ℕ) (next : ℕ → ℕ → Outcome DnsResult) (front rest : List ℕ)
      (r : Resource)
      → IsResource r
      → buffer ≡ front ++ (resource_bytes r ++ rest)
      → pos ≡ length front
      → 12 < n
      → pos + 12 + length r.rdata ≤ n
      → answer inet_ntop buffer n truncated expected pos min_ttl next
        ≡ answer_data inet_ntop buffer n truncated expected r.type 1
            (length r.rdata)
            (pos + 2 + 10)
            (lower_ttl r.ttl min_ttl)
            next
  unfolding answer resource_bytes
  answer-resource expected pos min_ttl next front rest r v b p t h = ground (
    arith,
    skip_name_pointer front (drop 2 (resource_bytes r) ++ rest) buffer n pos b p t,
    type_at front rest r pos p v.type_fits,
    class_at front rest r pos p,
    ttl_at front rest r pos p v.ttl_fits,
    rdlen_at front rest r pos p v.rdata_fits,
  )

  answer_data-first :
      (expected pos min_ttl : ℕ) (next : ℕ → ℕ → Outcome DnsResult) (r : Resource)
      → pos + length r.rdata ≤ n
      → (4 ≡ length r.rdata → read_bytes 4 buffer pos ≡ ok r.rdata)
      → (16 ≡ length r.rdata → read_bytes 16 buffer pos ≡ ok r.rdata)
      → answer_data inet_ntop buffer n truncated expected r.type 1 (length r.rdata) pos min_ttl next
        ≡ (if r.type == expected && (expected == 1 && length r.rdata == 4)
            then ok (answered (some (inet_ntop inet r.rdata)) min_ttl truncated)
            else if r.type == expected && (expected == 28 && length r.rdata == 16)
            then ok (answered (some (inet_ntop inet6 r.rdata)) min_ttl truncated)
            else next (pos + length r.rdata) min_ttl)
  unfolding answer_data found
  answer_data-first expected pos min_ttl next r h four sixteen = ground arith

  -- One record, with what the loop makes of the others.
  answer_data-first_address :
      (expected pos min_ttl : ℕ) (next : ℕ → ℕ → Outcome DnsResult) (r : Resource)
      (rs : List Resource)
      → pos + length r.rdata ≤ n
      → ((size : ℕ) → size ≡ length r.rdata → read_bytes size buffer pos ≡ ok r.rdata)
      → next (pos + length r.rdata) (lower_ttl r.ttl min_ttl)
        ≡ ok (first_address inet_ntop truncated expected rs (lower_ttl r.ttl min_ttl))
      → answer_data inet_ntop buffer n truncated expected r.type 1
          (length r.rdata)
          pos
          (lower_ttl r.ttl min_ttl)
          next
        ≡ ok (first_address inet_ntop truncated expected (r ∷ rs) min_ttl)
  unfolding first_address
  answer_data-first_address expected pos min_ttl next r rs h read ih =
      answer_data-first expected pos (lower_ttl r.ttl min_ttl) next r h (read 4) (read 16)
      ∙ rw ih (ground arith)

  pub answers-first_address :
      (expected : ℕ) (rs : List Resource) (pos min_ttl : ℕ) (front rest : List ℕ)
      → All IsResource rs
      → buffer ≡ front ++ (resources_bytes rs ++ rest)
      → pos ≡ length front
      → 12 < n
      → pos + length (resources_bytes rs) ≤ n
      → answers inet_ntop buffer n truncated expected (length rs) pos min_ttl
        ≡ ok (first_address inet_ntop truncated expected rs min_ttl)
  unfolding answers resources_bytes
  answers-first_address expected [] pos min_ttl front rest a b p t h = unfold first_address in refl
  answers-first_address expected (r ∷ rs) pos min_ttl front rest (a, as') b p t h =
      let more : List ℕ = resources_bytes rs ++ rest in
      let b' : buffer ≡ front ++ (resource_bytes r ++ more) =
        b ∙ ap (◌++◌ front) (append_assoc (resource_bytes r) (resources_bytes rs) rest) in
      let next : ℕ → ℕ → Outcome DnsResult =
        answers inet_ntop buffer n truncated expected (length rs) in
      let size = length-resource_bytes r in
      let sum = length-append (resource_bytes r) (resources_bytes rs) in
      answer-resource expected pos min_ttl next front more r a b' p t (omega (arith, size, sum))
      ∙ answer_data-first_address expected (pos + 2 + 10) min_ttl next r rs
          (omega (arith, size, sum))
          (λ k e. ap (λ w. read_bytes k w (pos + 2 + 10)) b' ∙ rdata_at front more r pos p k e)
          (answers-first_address expected rs (pos + 2 + 10 + length r.rdata)
            (lower_ttl r.ttl min_ttl) (front ++ resource_bytes r) rest as'
            (b' ∙ sym (append_assoc front (resource_bytes r) more))
            (omega (arith, size, length-append front (resource_bytes r))) t
            (omega (arith, size, sum)))
