-- ===== src/Dns/Response/Laws.antt =====
-- `ParseResponse` on any input.
use socks5proxy_native.Prelude.{
  ℕ, zero, suc, ◌+◌, ◌≤◌, ◌≡◌, ◌≢◌, inl, inr, Bool, true, List, none, not, ◌||◌, bit_and,
  Bool-cases, ltb, ◌==◌, length, arith,
}
use socks5proxy_native.Outcome.{
  Outcome, ok, throws, fault, stuck, Safe, Safe-bind, Returns, Returns-if, Returns-bind,
  Returns-value, read_bytes-ok,
}
use socks5proxy_native.Net.{Family, inet, inet6}
use socks5proxy_native.Dns.Wire.{read_u16-ok, read_u32-ok}
use socks5proxy_native.Dns.Name.{skip_name}
use socks5proxy_native.Dns.Name.Laws.{skip_name-Safe}
use socks5proxy_native.Dns.Response.{
  DnsResult, int_max, found, questions, answer_data, answer, answers, sections, caught, lower_ttl,
  is_truncated, parse_flags, parse_response,
}

-- The time to live fits an `int`, and only an answer from the network holds an address.
pub record IsWellFormed (r : DnsResult) : Type 0 where
  pub bounded : r.ttl ≤ int_max
  pub genuine : r.address ≢ none → r.from_network ≡ true

module _ (inet_ntop : Family → List ℕ → List ℕ) (buffer : List ℕ) (n : ℕ) (truncated : Bool)
    (fits : n ≤ length buffer) where
  found-Safe :
      (family : Family) (size pos min_ttl : ℕ)
      → pos + size ≤ n
      → min_ttl ≤ int_max
      → Safe IsWellFormed (found inet_ntop buffer n truncated family size pos min_ttl)
  unfolding found
  found-Safe family size pos min_ttl h m = ground (arith, read_bytes-ok size buffer pos)

  questions-Safe :
      (count : ℕ) (next : ℕ → Outcome DnsResult) (pos : ℕ)
      → ((p : ℕ) → Safe IsWellFormed (next p))
      → Safe IsWellFormed (questions inet_ntop buffer n truncated count next pos)
  unfolding questions
  questions-Safe zero next pos h = h pos
  questions-Safe (suc count) next pos h =
      Safe-bind _ IsWellFormed (skip_name buffer n pos) _ (skip_name-Safe buffer n pos fits)
        λ end e. ground (arith, questions-Safe count next (end + 4) h)

  answer_data-Safe :
      (expected type dns_class rdlen pos min_ttl : ℕ) (next : ℕ → ℕ → Outcome DnsResult)
      → min_ttl ≤ int_max
      → Safe IsWellFormed (next (pos + rdlen) min_ttl)
      → Safe IsWellFormed
          (answer_data inet_ntop buffer n truncated expected type dns_class rdlen pos min_ttl next)
  unfolding answer_data
  answer_data-Safe expected type dns_class rdlen pos min_ttl next m h =
      ground (arith, found-Safe inet 4 pos min_ttl, found-Safe inet6 16 pos min_ttl)

  answer-Safe :
      (expected pos min_ttl : ℕ) (next : ℕ → ℕ → Outcome DnsResult)
      → min_ttl ≤ int_max
      → ((p m : ℕ) → m ≤ int_max → Safe IsWellFormed (next p m))
      → Safe IsWellFormed (answer inet_ntop buffer n truncated expected pos min_ttl next)
  unfolding answer
  answer-Safe expected pos₀ min_ttl next m h =
      Safe-bind _ IsWellFormed (skip_name buffer n pos₀) _ (skip_name-Safe buffer n pos₀ fits)
        λ pos e. elim (Bool-cases (ltb n (pos + 10))) [
          | inl short ↦ rw short (ground arith)
          | inr long ↦
              let (type, r₀) = read_u16-ok buffer pos (ground arith) in
              let (dns_class, r₁) = read_u16-ok buffer (pos + 2) (ground arith) in
              let (ttl, r₂) = read_u32-ok buffer (pos + 4) (ground arith) in
              let (rdlen, r₃) = read_u16-ok buffer (pos + 8) (ground arith) in
              rw (long, r₀, r₁, r₂, r₃)
                (answer_data-Safe expected type dns_class rdlen (pos + 10) (lower_ttl ttl min_ttl)
                  next (ground arith) (h (pos + 10 + rdlen) (lower_ttl ttl min_ttl) (ground arith)))
        ]

  answers-Safe :
      (expected count pos min_ttl : ℕ)
      → min_ttl ≤ int_max
      → Safe IsWellFormed (answers inet_ntop buffer n truncated expected count pos min_ttl)
  unfolding answers
  answers-Safe expected zero pos min_ttl m = ground arith
  answers-Safe expected (suc count) pos min_ttl m =
      answer-Safe expected pos min_ttl (answers inet_ntop buffer n truncated expected count) m
        (answers-Safe expected count)

  caught-Safe :
      (m : Outcome DnsResult)
      → Safe IsWellFormed m
      → Returns IsWellFormed (caught inet_ntop buffer n truncated m)
  caught-Safe (ok r) h = h
  caught-Safe throws h = ground arith
  caught-Safe fault h = absurd h
  caught-Safe stuck h = absurd h

  sections_safe :
      (expected qd an : ℕ)
      → Returns IsWellFormed (sections inet_ntop buffer n truncated expected qd an)
  unfolding sections
  sections_safe expected qd an =
      caught-Safe _ (questions-Safe qd _ 12 λ p. answers-Safe expected an p int_max (omega arith))

parse_flags_safe :
    (inet_ntop : Family → List ℕ → List ℕ) (buffer : List ℕ) (n type flags : ℕ)
    → n ≤ length buffer
    → 12 ≤ n
    → Returns IsWellFormed (parse_flags inet_ntop buffer n type flags)
unfolding parse_flags
parse_flags_safe inet_ntop buffer n type flags fits long =
    Returns-if IsWellFormed (bit_and flags 0x8000 == 0 || not (bit_and flags 0x7800 == 0)) _ _
      (ground arith)
      λ _. Returns-if IsWellFormed (not (bit_and flags 0xF == 0)) _ _ (ground arith) λ _.
        Returns-bind IsWellFormed _ _ (read_u16-ok buffer 4 (omega arith)) λ qd.
          Returns-bind IsWellFormed _ _ (read_u16-ok buffer 6 (omega arith)) λ an.
            Returns-if IsWellFormed (ltb 64 qd || ltb 64 an) _ _ (ground arith)
              λ _. sections_safe inet_ntop buffer n (is_truncated flags) fits type qd an

-- On any buffer whose first `n` bytes are the message, whatever the bytes, `ParseResponse` returns a
-- result: it ends, throws nothing to its caller, and reads no byte outside the buffer. The time to live
-- of the result fits an `int`, and an address is reported only as an answer from the network.
pub parse_response_total :
    (inet_ntop : Family → List ℕ → List ℕ) (buffer : List ℕ) (n id type : ℕ)
    → n ≤ length buffer
    → (r : DnsResult) × (parse_response inet_ntop buffer n id type ≡ ok r) × IsWellFormed r
unfolding parse_response
parse_response_total inet_ntop buffer n id type fits = Returns-value IsWellFormed _ (
    Returns-if IsWellFormed (ltb n 12) _ _ (ground arith) λ long.
      Returns-bind IsWellFormed _ _ (read_u16-ok buffer 0 (ground arith)) λ rid.
        Returns-if IsWellFormed (not (rid == id)) _ _ (ground arith) λ _.
          Returns-bind IsWellFormed _ _ (read_u16-ok buffer 2 (ground arith))
            λ flags. parse_flags_safe inet_ntop buffer n type flags fits (ground arith))
