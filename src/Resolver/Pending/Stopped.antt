-- ===== src/Resolver/Pending/Stopped.antt =====
-- dns/DnsResolver.cpp, `Stop`: what becomes of the callbacks.
use socks5proxy_native.Prelude.{
  ℕ, ◌+◌, ◌≡◌, refl, ◌∙◌, ap, Bool, true, false, List, [], ◌∷◌, ◌++◌, Option, none, some,
  if◌then◌else◌, Option-elim, if-elim, not, All, ◌==◌, ◌=?◌, lookup, insert, lookup-insert,
  lookup-insert_self, nat_eq,
}
use socks5proxy_native.Resolver.Pending.{
  DnsResolver, PendingQuery, Host, query_at, put_query, call_all,
}
use socks5proxy_native.Resolver.Pending.Handlers.{cancel_timers, drop_all, stop}
use socks5proxy_native.Resolver.Pending.Once.{calls, waits, callbacks_of}
use socks5proxy_native.Resolver.Pending.Runs.{
  Call, asks, completes, stops, apply_call, run_resolver, submissions, run_resolver_counts,
}

-- No callback of the query at `ref` waits.
abbrev pub IsEmpty : DnsResolver → ℕ → Type 0
IsEmpty r ref = callbacks_of (query_at ref r) ≡ []

emptied_itself :
    (ref : ℕ) (q : PendingQuery) (queries : List (ℕ × PendingQuery))
    → callbacks_of (lookup ref (insert ref q queries)) ≡ q.callbacks
emptied_itself ref q queries = ap callbacks_of (lookup-insert_self ref q queries)

-- A query without callbacks is put at `ref`, and none comes to wait anywhere.
emptied_elsewhere :
    (ref j : ℕ) (q : PendingQuery) (queries : List (ℕ × PendingQuery))
    → q.callbacks ≡ []
    → callbacks_of (lookup j queries) ≡ []
    → callbacks_of (lookup j (insert ref q queries)) ≡ []
emptied_elsewhere ref j q queries e h = rw (lookup-insert ref j q queries) (go (ref =? j))
  where
    go : (b : Bool) → callbacks_of (if b then some q else lookup j queries) ≡ []
    go true = e
    go false = h

drop_all-IsEmpty :
    (ids : List (ℕ × ℕ)) (r : DnsResolver) (ref : ℕ) → IsEmpty r ref → IsEmpty (drop_all ids r) ref
unfolding drop_all
drop_all-IsEmpty [] r ref e = e
drop_all-IsEmpty ((txid, j) ∷ ids) r ref e = drop_all-IsEmpty ids _ ref (
    Option-elim (λ s. IsEmpty s ref) (query_at j r) _ _ e
      (λ q.
        emptied_elsewhere j ref (record q { callbacks = []; has_tcp = false }) r.queries refl e))

drop_all_empties :
    (ids : List (ℕ × ℕ)) (r : DnsResolver) → All (λ entry. IsEmpty (drop_all ids r) entry.1) ids
unfolding drop_all
drop_all_empties [] r = tt
drop_all_empties ((txid, j) ∷ ids) r =
    (drop_all-IsEmpty ids _ j (here (query_at j r) refl), drop_all_empties ids _)
  where
    here :
        (o : Option PendingQuery)
        → query_at j r ≡ o
        → IsEmpty
            (elim o [
              | none ↦ r
              | some q ↦ record (put_query j (record q { callbacks = []; has_tcp = false }) r) {
                events = call_all q.callbacks none r.events;
              }
            ])
            j
    here none e = ap callbacks_of e
    here (some q) e = emptied_itself j (record q { callbacks = []; has_tcp = false }) r.queries

-- The queries of the id table are emptied by `Stop`.
stop_empties :
    (r : DnsResolver) → r.is_started ≡ true → All (λ entry. IsEmpty (stop r) entry.1) r.by_id
unfolding stop
stop_empties r started =
    if-elim (λ s. All (λ entry. IsEmpty s entry.1) r.by_id) (not r.is_started) _ _
      (λ e. absurd (cc))
      (λ _.
        drop_all_empties r.by_id (record (cancel_timers r.by_id (record r { stopping = true })) {
          by_id = [];
          by_domain = [];
          pending_sends = [];
        }))

run_then :
    (host : Host) (script : List Call) (call : Call) (r : DnsResolver)
    → run_resolver host (script ++ (call ∷ [])) r
      ≡ apply_call host call (run_resolver host script r)
run_then host [] call r = refl
run_then host (first ∷ script) call r = run_then host script call (apply_call host first r)

submissions-stops :
    (c : ℕ) (script : List Call) → submissions c (script ++ (stops ∷ [])) ≡ submissions c script
submissions-stops c [] = refl
submissions-stops c (asks domain callback use_cache now ∷ script) =
    ap (λ n. (if callback == c then 1 else 0) + n) (submissions-stops c script)
submissions-stops c (completes completion now ∷ script) = submissions-stops c script
submissions-stops c (stops ∷ script) = submissions-stops c script

pub stop-run_resolver :
    (host : Host) (script : List Call) (r : DnsResolver)
    → r.queries ≡ []
    → r.by_domain ≡ []
    → r.events ≡ []
    → (run_resolver host script r).is_started ≡ true
    → (c : ℕ)
    → All
        (λ entry. IsEmpty (stop (run_resolver host script r)) entry.1)
        (run_resolver host script r).by_id
      × (calls c (stop (run_resolver host script r)).events
            + waits c (stop (run_resolver host script r)).queries
          ≡ submissions c script)
stop-run_resolver host script r no_queries no_names no_events started c =
    let last = run_then host script stops r in
    let counts =
      run_resolver_counts host (script ++ (stops ∷ [])) r no_queries no_names no_events c in
    (
      stop_empties (run_resolver host script r) started,
      (rw last at counts) ∙ submissions-stops c script,
    )
