-- ===== src/Net.antt =====
-- network/Network.h and network/Network.cpp: addresses. A `sockaddr_storage` of the program holds a
-- family, the bytes of the address and the port, here in host order, and for IPv6 the flow information and the
-- scope id, which are 0 for IPv4. Its padding stays zero.
use socks5proxy_native.Prelude.{
  ℕ, zero, suc, ◌+◌, ◌/◌, ◌%◌, ◌≡◌, ◌↔◌, Bool, true, false, ◌&&◌, ◌||◌, List, [], ◌∷◌, ◌++◌, Option,
  none, some, ◌==◌, ltb, if◌then◌else◌, same_bytes, same_bytes_iff, Eq, arith,
}

pub data Family : Type 0 where
  inet inet6 : Family

pub record Endpoint : Type 0 where
  pub family : Family
  pub ip : List ℕ
  pub port : ℕ
  pub flow_info : ℕ
  pub scope_id : ℕ

-- `ParseIP`, where `inet_pton` belongs to the system: IPv4 is tried first.
unfoldable pub parse_ip : (Family → List ℕ → Option (List ℕ)) → List ℕ → Option (Family × List ℕ)
parse_ip inet_pton text = elim (inet_pton inet text) [
  | some ip ↦ some (inet, ip)
  | none ↦ elim (inet_pton inet6 text) [ some ip ↦ some (inet6, ip) | none ↦ none ]
]

abbrev pub same_family : Family → Family → Bool
same_family inet inet = true
same_family inet6 inet6 = true
same_family inet inet6 = false
same_family inet6 inet = false

-- `EndpointKey::operator==`: the whole address is compared.
unfoldable pub same_endpoint : Endpoint → Endpoint → Bool
same_endpoint a b =
    same_family a.family b.family
    && (same_bytes a.ip b.ip
        && ((a.port == b.port) && ((a.flow_info == b.flow_info) && (a.scope_id == b.scope_id))))

pub same_endpoint_iff : (a b : Endpoint) → (same_endpoint a b ≡ true) ↔ (a ≡ b)
unfolding same_endpoint
same_endpoint_iff a b = (
  (λ e. ground (arith, same_bytes_iff a.ip b.ip)),
  (λ e. ground (arith, same_bytes_iff a.ip b.ip)),
)

instance abbrev pub endpoint_eq : Eq Endpoint
endpoint_eq = record { beq = same_endpoint; beq_iff = same_endpoint_iff }

-- `std::to_string`, for numbers of up to twenty digits.
decimal : ℕ → ℕ → List ℕ
decimal zero n = []
decimal (suc fuel) n =
    let rest = decimal fuel (n / 10) in
    if ltb n 10 then (48 + n) ∷ [] else rest ++ ((48 + n % 10) ∷ [])

unfoldable pub to_string : ℕ → List ℕ
unfolding decimal
to_string n = decimal 20 n

-- `EndpointToString`, where `inet_ntop` belongs to the system.
unfoldable pub endpoint_to_string : (Family → List ℕ → List ℕ) → Endpoint → List ℕ
endpoint_to_string inet_ntop e = elim e.family [
  | inet ↦ inet_ntop inet e.ip ++ (b':' ∷ to_string e.port)
  | inet6 ↦ b'[' ∷ (inet_ntop inet6 e.ip ++ (b']' ∷ b':' ∷ to_string e.port))
]

-- `IsAnyAddress`: "0.0.0.0", "::" or nothing.
unfoldable pub is_any_address : List ℕ → Bool
is_any_address ip =
    same_bytes ip (48 ∷ 46 ∷ 48 ∷ 46 ∷ 48 ∷ 46 ∷ 48 ∷ [])
    || same_bytes ip (58 ∷ 58 ∷ [])
    || same_bytes ip []
