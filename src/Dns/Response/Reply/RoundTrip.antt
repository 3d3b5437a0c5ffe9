-- ===== src/Dns/Response/Reply/RoundTrip.antt =====
-- `ParseResponse` on the answer to a query.
use socks5proxy_native.Prelude.{
  ℕ, ◌+◌, ◌/◌, ◌%◌, ◌≤◌, ◌<◌, ◌≡◌, refl, ◌∙◌, ap, Bool, false, List, [], ◌∷◌, ◌++◌, append_assoc,
  append-nil, length, length-append, All, arith,
}
use socks5proxy_native.Outcome.{ok}
use socks5proxy_native.Net.{Family}
use socks5proxy_native.Dns.Wire.{read_u16}
use socks5proxy_native.Dns.Name.{skip_name}
use socks5proxy_native.Dns.Name.Labels.{skip_name-encoding}
use socks5proxy_native.Dns.Query.{labels}
use socks5proxy_native.Dns.Query.Laws.{IsDomain, encoding}
use socks5proxy_native.Dns.Response.{
  int_max, question, questions, sections, parse_flags, parse_response,
}
use socks5proxy_native.Dns.Response.Reply.{
  Resource, IsResource, resources_bytes, first_address, reply_header, reply,
}
use socks5proxy_native.Dns.Response.Reply.Expected.{expected_result, first_address-expected_result}
use socks5proxy_native.Dns.Response.Reply.Records.{answers-first_address}

module _ (domain : List ℕ) (id type : ℕ) (rs : List Resource) where
  abbrev message : List ℕ
  message = reply domain id type rs

  abbrev question_end : ℕ
  question_end = 12 + length (encoding (labels domain)) + 1

  abbrev question_rest : List ℕ
  question_rest = type / 256 ∷ type % 256 ∷ 0 ∷ 1 ∷ resources_bytes rs

  length-reply : length message ≡ question_end + 4 + length (resources_bytes rs)
  unfolding reply
  length-reply = omega (arith, length-append (encoding (labels domain)) (0 ∷ question_rest))

  name-reply : IsDomain domain → skip_name message (length message) 12 ≡ ok question_end
  name-reply d =
      skip_name-encoding (labels domain) (reply_header id (length rs)) question_rest message
        (length message) 12 (unfold reply in refl) refl d.split (omega (arith, length-reply))

  abbrev before_answers : List ℕ
  before_answers =
      reply_header id (length rs)
      ++ (encoding (labels domain) ++ (0 ∷ type / 256 ∷ type % 256 ∷ 0 ∷ 1 ∷ []))

  message_split : message ≡ before_answers ++ (resources_bytes rs ++ [])
  unfolding reply
  message_split = simp (append_assoc, append-nil)

  sections-reply :
      (inet_ntop : Family → List ℕ → List ℕ) (truncated : Bool)
      → IsDomain domain
      → All IsResource rs
      → sections inet_ntop message (length message) truncated type 1 (length rs)
        ≡ ok (first_address inet_ntop truncated type rs int_max)
  unfolding sections questions question
  sections-reply inet_ntop truncated d a =
      let found =
        answers-first_address inet_ntop message (length message) truncated type rs
          (question_end + 4) int_max before_answers [] a message_split
          (omega (
            arith,
            length-append (encoding (labels domain)) (0 ∷ type / 256 ∷ type % 256 ∷ 0 ∷ 1 ∷ []),
          ))
          (omega (arith, length-reply)) (omega (arith, length-reply)) in
      ground (arith, name-reply d, found, length-reply)

  id_at : id < 65536 → read_u16 message 0 ≡ ok id
  unfolding read_u16 reply
  id_at h = ap ok (omega arith)

  flags_at : read_u16 message 2 ≡ ok 0x8180
  unfolding read_u16 reply
  flags_at = refl

  qd_at : read_u16 message 4 ≡ ok 1
  unfolding read_u16 reply
  qd_at = refl

  an_at : length rs ≤ 64 → read_u16 message 6 ≡ ok (length rs)
  unfolding read_u16 reply
  an_at h = ap ok (omega arith)

  -- A reply for a valid domain and an id below 65536, with at most 64 records whose fields fit, is read as
  -- an untruncated answer: with the address of the first record of the wanted type that has data of that
  -- type's size, or none, and with the least time to live of the records up to it, where 2^31 - 1 or more
  -- counts as unknown and gives 30.
  pub parse_response-reply :
      (inet_ntop : Family → List ℕ → List ℕ)
      → id < 65536
      → IsDomain domain
      → All IsResource rs
      → length rs ≤ 64
      → parse_response inet_ntop message (length message) id type
        ≡ ok (expected_result inet_ntop type rs)
  unfolding parse_response parse_flags
  parse_response-reply inet_ntop i d a few =
      ground (
        arith,
        length-reply,
        id_at i,
        flags_at,
        qd_at,
        an_at few,
        sections-reply inet_ntop false d a,
      )
      ∙ ap ok (first_address-expected_result inet_ntop type rs)
