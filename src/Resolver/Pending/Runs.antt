-- ===== src/Resolver/Pending/Runs.antt =====
-- dns/DnsResolver.cpp: sequences of calls of a resolver, with `Stop`.
use socks5proxy_native.Prelude.{
  ℕ, ◌+◌, ◌≤◌, ◌≡◌, ◌≢◌, refl, ap, Bool, true, false, not, List, [], ◌∷◌, none, some, if◌then◌else◌,
  if-elim, ◌==◌, lookup, nat_eq, bytes_eq, lookup_empty, arith,
}
use socks5proxy_native.Resolver.Pending.{DnsResolver, PendingQuery, Host, put_query, call_all}
use socks5proxy_native.Resolver.Pending.Queries.{resolve_async}
use socks5proxy_native.Resolver.Pending.Handlers.{
  Completion, on_io_completed, cancel_timers, drop_all, stop,
}
use socks5proxy_native.Resolver.Pending.Once.{
  count, calls, waits, waits-insert, calls-call_all, IsGood, At, insert-stands, insert-fresh,
  like-IsGood,
}
use socks5proxy_native.Resolver.Pending.Conserves.{cancel_timer-Holds}
use socks5proxy_native.Resolver.Pending.Called.{submitted, resolve_async-IsGood}
use socks5proxy_native.Resolver.Pending.Completed.{at_query, on_io_completed-IsGood}

-- A name is submitted with a callback; an operation of the completion port ends; the resolver stops.
pub data Call : Type 0 where
  asks : List ℕ → ℕ → Bool → ℕ → Call
  completes : Completion → ℕ → Call
  stops : Call

abbrev pub apply_call : Host → Call → DnsResolver → DnsResolver
apply_call host (asks domain callback use_cache now) r =
    resolve_async host domain callback use_cache now r
apply_call host (completes completion now) r = on_io_completed host completion now r
apply_call host stops r = stop r

abbrev pub run_resolver : Host → List Call → DnsResolver → DnsResolver
run_resolver host [] r = r
run_resolver host (call ∷ calls) r = run_resolver host calls (apply_call host call r)

-- How often a callback is submitted.
abbrev pub submissions : ℕ → List Call → ℕ
submissions c [] = 0
submissions c (asks domain callback use_cache now ∷ calls) =
    (if callback == c then 1 else 0) + submissions c calls
submissions c (call ∷ calls) = submissions c calls

module _ (total : ℕ → ℕ) (host : Host) where
  cancel_timers-IsGood :
      (ids : List (ℕ × ℕ)) (r : DnsResolver) → IsGood total r → IsGood total (cancel_timers ids r)
  unfolding cancel_timers
  cancel_timers-IsGood [] r g = g
  cancel_timers-IsGood ((txid, ref) ∷ ids) r g = cancel_timers-IsGood ids _ (
      at_query total host r g ref _
        (λ q p. (cancel_timer-Holds total host ref q r (record { good = g; place = p })).good))

  -- The callbacks of a query leave it and are called.
  emptied-IsGood :
      (ref : ℕ) (q : PendingQuery) (r : DnsResolver)
      → At ref q r
      → IsGood total r
      → IsGood total (record (put_query ref (record q { callbacks = []; has_tcp = false }) r) {
        events = call_all q.callbacks none r.events;
      })
  emptied-IsGood ref q r p g =
      let empty : PendingQuery = record q { callbacks = []; has_tcp = false } in
      record {
        counts = λ c. omega (
          arith,
          g.counts c,
          waits-insert c ref empty r.queries,
          ap (count c) p.0,
          calls-call_all c q.callbacks none r.events,
        );
        stands = λ domain j e. insert-stands ref j empty r.queries (g.stands domain j e);
        fresh = λ j h. insert-fresh ref j empty r.queries (omega (arith, h, p.1)) (g.fresh j h);
      }

  drop_all-IsGood :
      (ids : List (ℕ × ℕ)) (r : DnsResolver) → IsGood total r → IsGood total (drop_all ids r)
  unfolding drop_all
  drop_all-IsGood [] r g = g
  drop_all-IsGood ((txid, ref) ∷ ids) r g =
      drop_all-IsGood ids _ (at_query total host r g ref _ (λ q p. emptied-IsGood ref q r p g))

  stop-IsGood : (r : DnsResolver) → IsGood total r → IsGood total (stop r)
  unfolding stop
  stop-IsGood r g =
      let quiet =
        cancel_timers-IsGood r.by_id (record r { stopping = true })
          (like-IsGood total r _ (λ c. refl) refl refl refl g) in
      let cut : DnsResolver = record (cancel_timers r.by_id (record r { stopping = true })) {
        by_id = [];
        by_domain = [];
        pending_sends = [];
      } in
      let dropped = drop_all-IsGood r.by_id cut (record {
        counts = quiet.counts;
        stands = λ domain ref e. absurd (nowhere domain ref e);
        fresh = quiet.fresh;
      }) in
      if-elim (IsGood total) (not r.is_started) _ _ (λ _. g)
        (λ _. like-IsGood total (drop_all r.by_id cut) _ (λ c. refl) refl refl refl dropped)
    where
      nowhere : (domain : List ℕ) (ref : ℕ) → lookup domain [] ≢ some ref
      nowhere domain ref e = let none_there = lookup_empty {V = ℕ} domain [] refl in absurd (cc)

module _ (host : Host) where
  counted :
      (script : List Call) (total : ℕ → ℕ) (r : DnsResolver)
      → IsGood total r
      → (c : ℕ)
      → calls c (run_resolver host script r).events + waits c (run_resolver host script r).queries
        ≡ submissions c script + total c
  counted [] total r g c = omega (arith, g.counts c)
  counted (asks domain callback use_cache now ∷ script) total r g c = omega (
    arith,
    counted script (submitted callback total) _
        (resolve_async-IsGood total host domain callback use_cache now r g) c,
  )
  counted (completes completion now ∷ script) total r g c =
      counted script total _ (on_io_completed-IsGood total host completion now r g) c
  counted (stops ∷ script) total r g c = counted script total _ (stop-IsGood total host r g) c

  pub run_resolver_counts :
      (script : List Call) (r : DnsResolver)
      → r.queries ≡ []
      → r.by_domain ≡ []
      → r.events ≡ []
      → (c : ℕ)
      → calls c (run_resolver host script r).events + waits c (run_resolver host script r).queries
        ≡ submissions c script
  run_resolver_counts script r no_queries no_names no_events c =
      omega (arith, counted script (λ d. 0) r empty c)
    where
      empty : IsGood (λ d. 0) r
      empty = record {
        counts = λ d. rw (no_events, no_queries) refl;
        stands = λ domain ref e.
            let none_there = lookup_empty domain r.by_domain no_names in absurd (cc);
        fresh = λ ref h. lookup_empty ref r.queries no_queries;
      }

  -- In a resolver without queries, whatever is submitted and completes, and whenever it is stopped: no
  -- callback is called more often than it was submitted.
  pub calls-run_resolver :
      (script : List Call) (r : DnsResolver)
      → r.queries ≡ []
      → r.by_domain ≡ []
      → r.events ≡ []
      → (c : ℕ) → calls c (run_resolver host script r).events ≤ submissions c script
  calls-run_resolver script r no_queries no_names no_events c =
      omega (arith, run_resolver_counts script r no_queries no_names no_events c)
