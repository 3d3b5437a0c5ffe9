-- ===== src/Resolver/Pending/Once.antt =====
-- dns/DnsResolver.cpp: how often a callback is called.
use socks5proxy_native.Prelude.{
  ℕ, ◌+◌, ◌≤◌, ◌<◌, ◌≡◌, ◌≢◌, refl, ap, Bool, true, false, not, List, [], ◌∷◌, Option, none, some,
  ◌==◌, if◌then◌else◌, if-elim, Option-elim, lookup, insert, erase, lookup-insert, lookup-erase,
  nat_eq, bytes_eq, ◌=?◌, arith,
}
use socks5proxy_native.Resolver.Pending.{
  DnsResolver, PendingQuery, Host, Event, called, put_query, call_all, cancelled,
}
use socks5proxy_native.Resolver.Pending.Ids.{random_id, from_sequence, alloc_txid}
use socks5proxy_native.Resolver.Pending.Sends.{can_send, posted, pump_loop}
use socks5proxy_native.Resolver.Pending.Queries.{release_query}

abbrev pub count : ℕ → List ℕ → ℕ
count c [] = 0
count c (d ∷ ds) = (if d == c then 1 else 0) + count c ds

-- How often a callback has been called.
abbrev pub calls : ℕ → List Event → ℕ
calls c [] = 0
calls c (called d address ∷ events) = (if d == c then 1 else 0) + calls c events
calls c (event ∷ events) = calls c events

-- How often it waits in a query.
abbrev pub waits : ℕ → List (ℕ × PendingQuery) → ℕ
waits c [] = 0
waits c ((ref, q) ∷ queries) = count c q.callbacks + waits c queries

abbrev pub callbacks_of : Option PendingQuery → List ℕ
callbacks_of none = []
callbacks_of (some q) = q.callbacks

pub waits-insert :
    (c ref : ℕ) (q : PendingQuery) (queries : List (ℕ × PendingQuery))
    → waits c (insert ref q queries) + count c (callbacks_of (lookup ref queries))
      ≡ waits c queries + count c q.callbacks
unfolding insert lookup
waits-insert c ref q [] = omega arith
waits-insert c ref q ((j, p) ∷ queries) = ground (arith, waits-insert c ref q queries)

pub calls-call_all :
    (c : ℕ) (callbacks : List ℕ) (address : Option (List ℕ)) (events : List Event)
    → calls c (call_all callbacks address events) ≡ count c callbacks + calls c events
calls-call_all c [] address events = omega arith
calls-call_all c (d ∷ ds) address events =
    omega (arith, calls-call_all c ds address (called d address ∷ events))

-- Called and waiting callbacks are the ones of `total`; a name leads to a query that stands.
pub record IsGood (total : ℕ → ℕ) (r : DnsResolver) : Type 0 where
  pub counts : (c : ℕ) → calls c r.events + waits c r.queries ≡ total c
  pub stands :
      (domain : List ℕ) (ref : ℕ)
      → lookup domain r.by_domain ≡ some ref
      → lookup ref r.queries ≢ none
  pub fresh : (ref : ℕ) → r.next_query ≤ ref → lookup ref r.queries ≡ none

abbrev pub At : ℕ → PendingQuery → DnsResolver → Type 0
At ref q r = (callbacks_of (lookup ref r.queries) ≡ q.callbacks) × (ref < r.next_query)

pub insert-stands :
    (ref j : ℕ) (q : PendingQuery) (queries : List (ℕ × PendingQuery))
    → lookup j queries ≢ none
    → lookup j (insert ref q queries) ≢ none
insert-stands ref j q queries h = rw (lookup-insert ref j q queries) (go (ref =? j))
  where
    go : (b : Bool) → (if b then some q else lookup j queries) ≢ none
    go true = λ e. cc
    go false = h

pub insert-fresh :
    (ref j : ℕ) (q : PendingQuery) (queries : List (ℕ × PendingQuery))
    → ref < j
    → lookup j queries ≡ none
    → lookup j (insert ref q queries) ≡ none
insert-fresh ref j q queries h e =
    let other : nat_eq.beq ref j ≡ false = ground (arith, h) in
    rw (lookup-insert ref j q queries, other) e

pub put_query-IsGood :
    (total : ℕ → ℕ) (ref : ℕ) (q : PendingQuery) (r : DnsResolver)
    → At ref q r
    → IsGood total r
    → IsGood total (put_query ref q r)
put_query-IsGood total ref q r at_ref g = record {
  counts = λ c. omega (arith, g.counts c, waits-insert c ref q r.queries, ap (count c) at_ref.0);
  stands = λ domain j e. insert-stands ref j q r.queries (g.stands domain j e);
  fresh = λ j h. insert-fresh ref j q r.queries (omega (arith, h, at_ref.1)) (g.fresh j h);
}

-- The rest of the state does not matter.
pub like-IsGood :
    (total : ℕ → ℕ) (r s : DnsResolver)
    → ((c : ℕ) → calls c s.events ≡ calls c r.events)
    → s.queries ≡ r.queries
    → s.by_domain ≡ r.by_domain
    → s.next_query ≡ r.next_query
    → IsGood total r
    → IsGood total s
like-IsGood total r s e q d n g = record {
  counts = λ c. rw (e c, q) (g.counts c);
  stands = rw (q, d) g.stands;
  fresh = rw (q, n) g.fresh;
}

pub release_query-IsGood :
    (total : ℕ → ℕ) (ref : ℕ) (q : PendingQuery) (address : Option (List ℕ)) (r : DnsResolver)
    → At ref q r
    → IsGood total r
    → IsGood total (release_query ref q address r)
unfolding release_query
release_query-IsGood total ref q address r at_ref g = record {
  counts = λ c. omega (
    arith,
    g.counts c,
    waits-insert c ref (record q { callbacks = [] }) r.queries,
    ap (count c) at_ref.0,
    calls-call_all c q.callbacks address r.events,
  );
  stands = λ domain j e.
      insert-stands ref j (record q { callbacks = [] }) r.queries
        (g.stands domain j (erased q.domain domain j r.by_domain e));
  fresh = λ j h.
      insert-fresh ref j (record q { callbacks = [] }) r.queries (omega (arith, h, at_ref.1))
        (g.fresh j h);
}
  where
    erased :
        (gone domain : List ℕ) (j : ℕ) (names : List (List ℕ × ℕ))
        → lookup domain (erase gone names) ≡ some j
        → lookup domain names ≡ some j
    erased gone domain j names e = ground (arith, e, lookup-erase gone domain names)

pub calls-cancelled :
    (timer c : ℕ) (events : List Event) → calls c (cancelled timer events) ≡ calls c events
calls-cancelled timer c events = ground arith

-- Sending leaves the queries and the calls alone.
pub record SameQueries (r s : DnsResolver) : Type 0 where
  pub told : (c : ℕ) → calls c s.events ≡ calls c r.events
  pub queries : s.queries ≡ r.queries
  pub names : s.by_domain ≡ r.by_domain
  pub next : s.next_query ≡ r.next_query

module _ (host : Host) where
  pub pump_loop-SameQueries :
      (queue : List (List ℕ)) (r : DnsResolver) → SameQueries r (pump_loop host queue r)
  unfolding pump_loop
  pump_loop-SameQueries [] r = record {
    told = λ c. refl;
    queries = refl;
    names = refl;
    next = refl;
  }
  pump_loop-SameQueries (query ∷ rest) r =
      if-elim (SameQueries r) (not (can_send r)) _ _
        (λ _. record { told = λ c. refl; queries = refl; names = refl; next = refl })
        (λ _.
          if-elim (SameQueries r) (host.accepts r.posts) _ _
            (λ _.
              let more = pump_loop-SameQueries rest (posted query r) in
              record {
                told = λ c. more.told c;
                queries = more.queries;
                names = more.names;
                next = more.next;
              })
            (λ _. record { told = λ c. refl; queries = refl; names = refl; next = refl }))

  -- A new id changes nothing but the counters.
  pub alloc_txid-SameQueries : (r : DnsResolver) → SameQueries r (alloc_txid host r).0
  unfolding alloc_txid from_sequence
  alloc_txid-SameQueries r =
      Option-elim {B = DnsResolver × ℕ} (λ out. SameQueries r out.0)
        (random_id host.generate_id 10000 r.draws r.by_id).1 _ _
        (record { told = λ c. refl; queries = refl; names = refl; next = refl })
        (λ id. record { told = λ c. refl; queries = refl; names = refl; next = refl })
