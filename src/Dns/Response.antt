-- ===== src/Dns/Response.antt =====
-- dns/DnsClient.cpp, `ParseResponse`. `inet_ntop` belongs to the operating system: a parameter that
-- turns the bytes of an address into its text.
pub mod Laws
pub mod Reply
use socks5proxy_native.Prelude.{
  ℕ, zero, suc, ◌+◌, Bool, true, false, ◌&&◌, ◌||◌, not, List, Option, none, some, ltb, ◌==◌,
  bit_and, if◌then◌else◌,
}
use socks5proxy_native.Outcome.{Outcome, ok, throws, fault, stuck, ◌>>=◌, read_bytes}
use socks5proxy_native.Net.{Family, inet, inet6}
use socks5proxy_native.Dns.Wire.{read_u16, read_u32}
use socks5proxy_native.Dns.Name.{skip_name}

pub record DnsResult : Type 0 where
  pub address : Option (List ℕ)
  pub ttl : ℕ
  pub truncated : Bool
  pub from_network : Bool

abbrev pub invalid : DnsResult
invalid = record { address = none; ttl = 30; truncated = false; from_network = false }

abbrev pub int_max : ℕ
int_max = 2147483647

-- `truncated ? truncatedEmpty() : DnsResult::Invalid()`.
abbrev pub cut_short : Bool → DnsResult
cut_short truncated =
    if truncated
    then record { address = none; ttl = 30; truncated = true; from_network = true }
    else invalid

abbrev pub answered : Option (List ℕ) → ℕ → Bool → DnsResult
answered address min_ttl truncated = record {
  address = address;
  ttl = if min_ttl == int_max then 30 else min_ttl;
  truncated = truncated;
  from_network = true;
}

-- The time to live of one record, and the least one so far.
abbrev pub lower_ttl : ℕ → ℕ → ℕ
lower_ttl ttl min_ttl =
    let ttl_seconds = if ltb int_max ttl then int_max else ttl in
    if ltb ttl_seconds min_ttl then ttl_seconds else min_ttl

module _ (inet_ntop : Family → List ℕ → List ℕ) (buffer : List ℕ) (n : ℕ) (truncated : Bool) where
  -- The `return` of an address of `size` bytes at `pos`.
  found : Family → ℕ → ℕ → ℕ → Outcome DnsResult
  found family size pos min_ttl = do
    ip ← read_bytes size buffer pos
    ok (answered (some (inet_ntop family ip)) min_ttl truncated)

  -- One round of the loop over the questions; `next` is the rest of the function.
  question : ℕ → (ℕ → Outcome DnsResult) → Outcome DnsResult
  question pos next = do
    end ← skip_name buffer n pos
    if ltb n (end + 4) then ok (cut_short truncated) else next (end + 4)

  questions : ℕ → (ℕ → Outcome DnsResult) → ℕ → Outcome DnsResult
  unfolding question
  questions zero next pos = next pos
  questions (suc count) next pos = question pos (questions count next)

  -- The data of one record: `pos` stands behind its header.
  answer_data : ℕ → ℕ → ℕ → ℕ → ℕ → ℕ → (ℕ → ℕ → Outcome DnsResult) → Outcome DnsResult
  unfolding found
  answer_data expected type dns_class rdlen pos min_ttl next =
      if ltb n (pos + rdlen)
      then ok (cut_short truncated)
      else if dns_class == 1 && type == expected && (type == 1 && rdlen == 4)
      then found inet 4 pos min_ttl
      else if dns_class == 1 && type == expected && (type == 28 && rdlen == 16)
      then found inet6 16 pos min_ttl
      else next (pos + rdlen) min_ttl

  -- One round of the loop over the answers.
  answer : ℕ → ℕ → ℕ → (ℕ → ℕ → Outcome DnsResult) → Outcome DnsResult
  unfolding answer_data
  answer expected pos₀ min_ttl next = do
    pos ← skip_name buffer n pos₀
    if ltb n (pos + 10) then ok (cut_short truncated) else do
      type ← read_u16 buffer pos
      dns_class ← read_u16 buffer (pos + 2)
      ttl ← read_u32 buffer (pos + 4)
      rdlen ← read_u16 buffer (pos + 8)
      answer_data expected type dns_class rdlen (pos + 10) (lower_ttl ttl min_ttl) next

  pub answers : ℕ → ℕ → ℕ → ℕ → Outcome DnsResult
  unfolding answer
  answers expected zero pos min_ttl = ok (answered none min_ttl truncated)
  answers expected (suc count) pos min_ttl = answer expected pos min_ttl (answers expected count)

  -- The `catch (...)`.
  abbrev caught : Outcome DnsResult → Outcome DnsResult
  caught (ok r) = ok r
  caught throws = ok (cut_short truncated)
  caught fault = fault
  caught stuck = stuck

  sections : ℕ → ℕ → ℕ → Outcome DnsResult
  unfolding questions answers
  sections expected qd an = caught (questions qd (λ pos. answers expected an pos int_max) 12)

abbrev pub is_truncated : ℕ → Bool
is_truncated flags = not (bit_and flags 0x0200 == 0)

-- A response code other than 0: only NXDOMAIN counts as an answer.
abbrev pub refused : ℕ → DnsResult
refused flags = record {
  address = none;
  ttl = 30;
  truncated = is_truncated flags;
  from_network = bit_and flags 0xF == 3;
}

module _ (inet_ntop : Family → List ℕ → List ℕ) (buffer : List ℕ) (n : ℕ) where
  -- The part that begins with the flags.
  parse_flags : ℕ → ℕ → Outcome DnsResult
  unfolding sections
  parse_flags expected_type flags =
      if bit_and flags 0x8000 == 0 || not (bit_and flags 0x7800 == 0)
      then ok invalid
      else if not (bit_and flags 0xF == 0)
      then ok (refused flags)
      else do
        qd ← read_u16 buffer 4
        an ← read_u16 buffer 6
        if ltb 64 qd || ltb 64 an
            then ok invalid
            else sections inet_ntop buffer n (is_truncated flags) expected_type qd an

  -- `n` is the parameter `length`.
  unfoldable pub parse_response : ℕ → ℕ → Outcome DnsResult
  unfolding parse_flags
  parse_response expected_id expected_type = if ltb n 12 then ok invalid else do
    id ← read_u16 buffer 0
    if not (id == expected_id)
        then ok invalid
        else do flags ← read_u16 buffer 2; parse_flags expected_type flags
