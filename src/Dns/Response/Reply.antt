-- ===== src/Dns/Response/Reply.antt =====
-- The answer to a DNS query as a list of records, and which address it gives: the reading that
-- `ParseResponse` is compared with.
pub mod Records
pub mod Expected
pub mod RoundTrip
use socks5proxy_native.Prelude.{
  ℕ, zero, suc, ◌+◌, ◌*◌, ◌/◌, ◌%◌, ◌^◌, ◌≤◌, ◌<◌, ◌≡◌, refl, ap, sym, ◌∙◌, ◌&&◌, Bool, true, false,
  List, [], ◌∷◌, ◌++◌, append_assoc, length, drop, length-append, All, ltb, ◌==◌, if◌then◌else◌,
  bit_and, none, some, Bool-cases, inl, inr, arith,
}
use socks5proxy_native.Outcome.{
  Outcome, ok, read_u8, read_bytes, read_bytes-append, read_bytes-exact,
}
use socks5proxy_native.Net.{Family, inet, inet6}
use socks5proxy_native.Dns.Wire.{read_u16, read_u32, read_u16-append, read_u32-append}
use socks5proxy_native.Dns.Name.{skip_name}
use socks5proxy_native.Dns.Name.Labels.{skip_name-encoding, skip_name_pointer}
use socks5proxy_native.Dns.Query.{labels}
use socks5proxy_native.Dns.Query.Laws.{IsLabel, IsDomain, encoding}
use socks5proxy_native.Dns.Response.{
  DnsResult, int_max, lower_ttl, answered, found, question, questions, answer_data, answer, answers,
  sections, parse_flags, parse_response,
}

-- A resource record of class IN that belongs to the name of the question.
pub record Resource : Type 0 where
  pub type : ℕ
  pub ttl : ℕ
  pub rdata : List ℕ

pub record IsResource (r : Resource) : Type 0 where
  pub type_fits : r.type < 65536
  pub ttl_fits : r.ttl < 2 ^ 32
  pub rdata_fits : length r.rdata < 65536

-- Two and four bytes in network byte order.
abbrev pub u16_bytes : ℕ → List ℕ
u16_bytes v = v / 256 ∷ v % 256 ∷ []

unfoldable pub resource_bytes : Resource → List ℕ
resource_bytes r =
    0xC0
    ∷ 12
    ∷ r.type / 256
    ∷ r.type % 256
    ∷ 0
    ∷ 1
    ∷ r.ttl / 2 ^ 24
    ∷ r.ttl / 2 ^ 16 % 256
    ∷ r.ttl / 2 ^ 8 % 256
    ∷ r.ttl % 256
    ∷ length r.rdata / 256
    ∷ length r.rdata % 256
    ∷ r.rdata

length-resource_bytes : (r : Resource) → length (resource_bytes r) ≡ 12 + length r.rdata
unfolding resource_bytes
length-resource_bytes r = omega arith

unfoldable pub resources_bytes : List Resource → List ℕ
resources_bytes [] = []
resources_bytes (r ∷ rs) = resource_bytes r ++ resources_bytes rs

-- What the loop finds: the first record of the wanted type with data of that type's size, with the
-- time to live so far.
module _ (inet_ntop : Family → List ℕ → List ℕ) (truncated : Bool) (expected : ℕ) where
  unfoldable pub first_address : List Resource → ℕ → DnsResult
  first_address [] min_ttl = answered none min_ttl truncated
  first_address (r ∷ rs) min_ttl =
      let m = lower_ttl r.ttl min_ttl in
      let rest = first_address rs m in
      if r.type == expected && (expected == 1 && length r.rdata == 4)
      then answered (some (inet_ntop inet r.rdata)) m truncated
      else if r.type == expected && (expected == 28 && length r.rdata == 16)
      then answered (some (inet_ntop inet6 r.rdata)) m truncated
      else rest

-- The head of a server's answer: no error, one question, `count` answers.
abbrev pub reply_header : ℕ → ℕ → List ℕ
reply_header id count =
    id / 256 ∷ id % 256 ∷ 0x81 ∷ 0x80 ∷ 0 ∷ 1 ∷ count / 256 ∷ count % 256 ∷ 0 ∷ 0 ∷ 0 ∷ 0 ∷ []

-- The answer to a query for `domain`: the question is repeated, then come the records.
unfoldable pub reply : List ℕ → ℕ → ℕ → List Resource → List ℕ
reply domain id type rs =
    reply_header id (length rs)
    ++ (encoding (labels domain) ++ (0 ∷ type / 256 ∷ type % 256 ∷ 0 ∷ 1 ∷ resources_bytes rs))
