-- ===== src/Dns/Response/Reply/Expected.antt =====
-- What a list of records means to a reader who wants an address.
use socks5proxy_native.Prelude.{
  ℕ, ◌≤◌, ◌≡◌, refl, sym, ◌∙◌, ap, Bool, true, false, ◌&&◌, ◌||◌, List, [], ◌∷◌, Option, none, some,
  length, leb, ◌==◌, if◌then◌else◌, arith,
}
use socks5proxy_native.Net.{Family, inet, inet6}
use socks5proxy_native.Dns.Response.{DnsResult, int_max, lower_ttl}
use socks5proxy_native.Dns.Response.Reply.{Resource, first_address}

-- A record of the wanted type, A or AAAA, with an address of that type's size.
abbrev is_wanted : ℕ → Resource → Bool
is_wanted type r =
    (r.type == type)
    && (((type == 1) && (length r.rdata == 4)) || ((type == 28) && (length r.rdata == 16)))

-- The records up to the first one that is wanted, which is the last of them.
abbrev up_to_wanted : ℕ → List Resource → List Resource
up_to_wanted type [] = []
up_to_wanted type (r ∷ rs) = r ∷ (if is_wanted type r then [] else up_to_wanted type rs)

-- The least time to live, and 2^31 - 1 if none is less.
abbrev least_ttl : List Resource → ℕ
least_ttl [] = 2147483647
least_ttl (r ∷ rs) = if leb r.ttl (least_ttl rs) then r.ttl else least_ttl rs

abbrev wanted_address : (Family → List ℕ → List ℕ) → ℕ → List Resource → Option (List ℕ)
wanted_address inet_ntop type [] = none
wanted_address inet_ntop type (r ∷ rs) =
    if is_wanted type r
    then some (inet_ntop (if type == 1 then inet else inet6) r.rdata)
    else wanted_address inet_ntop type rs

-- A time to live that is not below 2^31 - 1 counts as unknown and is given as 30.
abbrev given_ttl : ℕ → ℕ
given_ttl ttl = if ttl == 2147483647 then 30 else ttl

abbrev pub expected_result : (Family → List ℕ → List ℕ) → ℕ → List Resource → DnsResult
expected_result inet_ntop type rs = record {
  address = wanted_address inet_ntop type rs;
  ttl = given_ttl (least_ttl (up_to_wanted type rs));
  truncated = false;
  from_network = true;
}

abbrev smaller : ℕ → ℕ → ℕ
smaller a b = if leb a b then a else b

lower_ttl-smaller :
    (ttl m least : ℕ)
    → m ≤ int_max
    → smaller (lower_ttl ttl m) least ≡ smaller m (if leb ttl least then ttl else least)
lower_ttl-smaller ttl m least h = ground (arith, h)

lower_ttl-int_max : (ttl m : ℕ) → m ≤ int_max → lower_ttl ttl m ≤ int_max
lower_ttl-int_max ttl m h = ground (arith, h)

module _ (inet_ntop : Family → List ℕ → List ℕ) (type : ℕ) where
  -- With the least time to live so far.
  abbrev from_here : ℕ → List Resource → DnsResult
  from_here m rs = record {
    address = wanted_address inet_ntop type rs;
    ttl = given_ttl (smaller m (least_ttl (up_to_wanted type rs)));
    truncated = false;
    from_network = true;
  }

  least_ttl-int_max : (rs : List Resource) → least_ttl rs ≤ int_max
  least_ttl-int_max [] = omega arith
  least_ttl-int_max (r ∷ rs) = ground (arith, least_ttl-int_max rs)

  -- A result, by its address and its time to live.
  abbrev result : Option (List ℕ) → ℕ → DnsResult
  result address ttl = record {
    address = address;
    ttl = given_ttl ttl;
    truncated = false;
    from_network = true;
  }

  -- The first record is the wanted one, or it is passed over; `t` is its time to live, `m` the least one
  -- before it and `n` the least one with it.
  from_here-first :
      (r : Resource) (rs : List Resource) (m n : ℕ) (wanted : Bool)
      → is_wanted type r ≡ wanted
      → n ≡ smaller m (if leb r.ttl 2147483647 then r.ttl else 2147483647)
      → ((least : ℕ) → smaller n least ≡ smaller m (if leb r.ttl least then r.ttl else least))
      → from_here m (r ∷ rs) ≡ (
          if wanted
          then result (some (inet_ntop (if type == 1 then inet else inet6) r.rdata)) n
          else from_here n rs)
  from_here-first r rs m n true w one more =
      rw (w) (ap (result (some (inet_ntop (if type == 1 then inet else inet6) r.rdata))) (sym one))
  from_here-first r rs m n false w one more = rw (w) (
      ap (result (wanted_address inet_ntop type rs))
        (sym (more (least_ttl (up_to_wanted type rs)))))

  -- The tests of the loop, with the wanted size for each type.
  tests-is_wanted :
      {A : Type 0} (r : Resource) (four sixteen : A) (rest : A)
      → (if r.type == type && (type == 1 && length r.rdata == 4)
          then four
          else if r.type == type && (type == 28 && length r.rdata == 16)
          then sixteen
          else rest)
        ≡ (if is_wanted type r then (if type == 1 then four else sixteen) else rest)
  tests-is_wanted r four sixteen rest = ground arith

  result-family :
      (b : Bool) (bytes : List ℕ) (n : ℕ)
      → (if b
          then result (some (inet_ntop inet bytes)) n
          else result (some (inet_ntop inet6 bytes)) n)
        ≡ result (some (inet_ntop (if b then inet else inet6) bytes)) n
  result-family true bytes n = refl
  result-family false bytes n = refl

  first_address-from_here :
      (rs : List Resource) (m : ℕ)
      → m ≤ int_max
      → first_address inet_ntop false type rs m ≡ from_here m rs
  unfolding first_address
  first_address-from_here [] m h =
      let same : m ≡ smaller m 2147483647 = ground (arith, h) in ap (result none) same
  first_address-from_here (r ∷ rs) m h =
      let n = lower_ttl r.ttl m in
      tests-is_wanted r (result (some (inet_ntop inet r.rdata)) n)
        (result (some (inet_ntop inet6 r.rdata)) n) (first_address inet_ntop false type rs n)
      ∙ ap (λ found. if is_wanted type r then found else first_address inet_ntop false type rs n)
          (result-family (type == 1) r.rdata n)
      ∙ ap
          (λ rest.
            if is_wanted type r
            then result (some (inet_ntop (if type == 1 then inet else inet6) r.rdata)) n
            else rest)
          (first_address-from_here rs n (lower_ttl-int_max r.ttl m h))
      ∙ sym (
          from_here-first r rs m n (is_wanted type r) refl (ground (arith, h))
            (λ least. lower_ttl-smaller r.ttl m least h))

  pub first_address-expected_result :
      (rs : List Resource)
      → first_address inet_ntop false type rs int_max ≡ expected_result inet_ntop type rs
  first_address-expected_result rs =
      let least = least_ttl (up_to_wanted type rs) in
      let same : smaller int_max least ≡ least =
        ground (arith, least_ttl-int_max (up_to_wanted type rs)) in
      first_address-from_here rs int_max (omega arith)
      ∙ ap (result (wanted_address inet_ntop type rs)) same
