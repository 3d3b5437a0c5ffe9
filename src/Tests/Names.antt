-- ===== src/Tests/Names.antt =====
-- Names, replies and the cache of the DNS client.
use socks5proxy_native.Prelude.{
  ◌+◌, ◌*◌, ◌≡◌, ◌≢◌, ◌≤◌, ◌<◌, refl, false, [], ◌∷◌, length, ltb, if◌then◌else◌, none, some, arith,
}
use socks5proxy_native.Outcome.{ok, throws, Safe}
use socks5proxy_native.Dns.Query.{labels, build_query}
use socks5proxy_native.Dns.Query.Laws.{IsDomain, encoding, build_query-throws}
use socks5proxy_native.Dns.Query.Labels.{join}
use socks5proxy_native.Dns.Query.Packet.{packet, build_query-packet}
use socks5proxy_native.Dns.Name.{skip_name}
use socks5proxy_native.Dns.Name.Laws.{skip_name-Safe}
use socks5proxy_native.Dns.Name.Labels.{skip_name-encoding}
use socks5proxy_native.Dns.Response.{DnsResult, parse_response, answered}
use socks5proxy_native.Dns.Response.Laws.{IsWellFormed, parse_response_total}
use socks5proxy_native.Dns.Response.Reply.{IsResource, reply}
use socks5proxy_native.Dns.Response.Reply.Expected.{expected_result}
use socks5proxy_native.Dns.Response.Reply.RoundTrip.{parse_response-reply}
use socks5proxy_native.Dns.Cache.{try_get_cached, cache_result, to_lower, kept_for}
use socks5proxy_native.Dns.Cache.Laws.{
  try_get_cached-cache_result, length-cache_result, try_get_cached-cache_result_ne,
}
use socks5proxy_native.Tests.Fixtures.{plain_text, ab_c, one_address}

short_query-IsDomain : IsDomain ab_c
unfolding labels encoding
short_query-IsDomain = record {
  nonempty = omega arith;
  short = omega arith;
  split = ((omega arith, omega arith), ((omega arith, omega arith), tt));
  fits = omega arith;
}

parse_response_total_example :
    (r : DnsResult) × (parse_response plain_text (7 ∷ 7 ∷ 0x81 ∷ []) 3 7 1 ≡ ok r) × IsWellFormed r
parse_response_total_example =
    parse_response_total plain_text (7 ∷ 7 ∷ 0x81 ∷ []) 3 7 1 (omega arith)

one_address-IsResource : IsResource one_address
one_address-IsResource = record {
  type_fits = omega arith;
  ttl_fits = omega arith;
  rdata_fits = omega arith;
}

parse_response-reply_example :
    parse_response plain_text
      (reply ab_c 7 1 (one_address ∷ []))
      (length (reply ab_c 7 1 (one_address ∷ [])))
      7
      1
    ≡ ok (expected_result plain_text 1 (one_address ∷ []))
parse_response-reply_example =
    parse_response-reply ab_c 7 1 (one_address ∷ []) plain_text (omega arith) short_query-IsDomain
      (one_address-IsResource, tt) (omega arith)

build_query-packet_example :
    build_query (join ((97 ∷ []) ∷ (98 ∷ []) ∷ [])) 7 1
    ≡ ok (packet ((97 ∷ []) ∷ (98 ∷ []) ∷ []) 7 1)
unfolding join
build_query-packet_example =
    build_query-packet (97 ∷ []) ((98 ∷ []) ∷ []) 7 1
      (
        ((omega arith, ((λ e. omega arith), tt)), omega arith),
        (((omega arith, ((λ e. omega arith), tt)), omega arith), tt),
      )
      (omega arith)

-- A name with an empty label.
build_query-throws_example : build_query (46 ∷ 97 ∷ []) 7 1 ≡ throws
unfolding labels
build_query-throws_example =
    build_query-throws (46 ∷ 97 ∷ []) 7 1 (λ domain. omega (arith, domain.split.0.0))

skip_name-Safe_example : Safe (λ p. (1 < p) × (p ≤ 4)) (skip_name (9 ∷ 1 ∷ 97 ∷ 0 ∷ []) 4 1)
skip_name-Safe_example = skip_name-Safe (9 ∷ 1 ∷ 97 ∷ 0 ∷ []) 4 1 (omega arith)

skip_name-encoding_example :
    skip_name (9 ∷ 1 ∷ 97 ∷ 0 ∷ 5 ∷ []) 5 1 ≡ ok (1 + length (encoding ((97 ∷ []) ∷ [])) + 1)
unfolding encoding
skip_name-encoding_example =
    skip_name-encoding ((97 ∷ []) ∷ []) (9 ∷ []) (5 ∷ []) (9 ∷ 1 ∷ 97 ∷ 0 ∷ 5 ∷ []) 5 1 refl refl
      ((omega arith, omega arith), tt) (omega arith)

abbrev kept : DnsResult
kept = answered (some (1 ∷ [])) 60 false

try_get_cached-cache_result_example :
    try_get_cached (cache_result (λ t. t) [] ab_c kept 1000) ab_c 2000
    ≡ (if ltb 2000 (1000 + kept_for kept * 1000) then some kept.address else none)
try_get_cached-cache_result_example =
    try_get_cached-cache_result (λ t. t) [] ab_c ab_c kept 1000 2000 refl (omega arith)
      (omega arith) refl

length-cache_result_example : length (cache_result (λ t. t) [] ab_c kept 1000) ≤ 10000
length-cache_result_example = length-cache_result (λ t. t) [] ab_c kept 1000 refl (omega arith)

other_name : to_lower ab_c ≢ to_lower (99 ∷ [])
unfolding to_lower
other_name e = ground (arith, e)

try_get_cached-cache_result_ne_example :
    try_get_cached (cache_result (λ t. t) [] ab_c kept 1000) (99 ∷ []) 2000
    ≡ try_get_cached [] (99 ∷ []) 2000
try_get_cached-cache_result_ne_example =
    try_get_cached-cache_result_ne (λ t. t) [] ab_c (99 ∷ []) kept 1000 2000 (omega arith)
      other_name
