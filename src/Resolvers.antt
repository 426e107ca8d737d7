-- ===== src/Resolvers.antt =====
-- The two resolvers, lm-blocking-resolver.c and lm-asyncns-resolver.c, side by side.
pub mod Contract
mod Tests
use lm_transport.Base.{
  ◌≡◌, refl, subst, ℕ, ◌∙◌, ap, ℤ, pos, int_eq, not, ◌&&◌, Bool, true, false, Option, none, some,
  List, [], ◌∷◌, arith, if◌then◌else◌,
}
use lm_transport.Address.{Addrinfo, SocketAddress, address_ref, is_null, set_results}
use lm_transport.Resolver.{ResolverResult, ok, failed, host, srv}
use lm_transport.Blocking.{
  System, BlockingResolver, blocking_new, blocking_lookup_host, blocking_lookup_srv, res_init,
  idle_fires,
}
use lm_transport.Blocking.Protocol.{
  reports as blocking_reports, lookup_host_reports, srv_report, lookup_srv_reports,
}
use lm_transport.AsyncnsResolver.{
  Asyncns, AsyncnsResolver, wait, call, asyncns_resolver_new, asyncns_lookup_host,
  asyncns_lookup_srv, positive, asyncns_prep, asyncns_io_cb,
}
use lm_transport.AsyncnsResolver.Outcome.{
  reports as async_reports, outcome, host_outcome, srv_outcome, io_cb_reports, io_cb_some, Ends,
}

abbrev pub Report : Type 0
Report = ResolverResult × Option SocketAddress

-- What a lookup for a host is to report when it is answered by these results without an error, or
-- with an error.
unfoldable pub host_report : (ℕ → ℕ) → SocketAddress → ℤ × List Addrinfo → Report
host_report htons sa answer =
    if int_eq answer.0 (pos 0)
    then (ok, some (set_results htons (address_ref sa) answer.1))
    else (failed, some (address_ref sa))

-- What a new asynchronous resolver is like while it looks up a host.
record Asked (sa : SocketAddress) (t : AsyncnsResolver) : Type 0 where
  watch : t.watch_resolv ≡ true
  ctx : t.asyncns_ctx ≡ true
  kind : t.resolve_type ≡ host
  address : t.sa ≡ some (address_ref sa)
  silent : async_reports t.calls ≡ []

lookup-Asked :
    (a : Asyncns) (sa : SocketAddress)
    → a.makes_ctx [] ≡ true
    → Asked sa (asyncns_lookup_host a asyncns_resolver_new sa)
unfolding asyncns_lookup_host asyncns_prep asyncns_resolver_new
lookup-Asked a sa m = ground arith

async_report :
    (a : Asyncns) (sa : SocketAddress) (q : ℕ) (t : AsyncnsResolver)
    → Asked sa t
    → outcome a q (call wait t)
      ≡ some (host_report a.htons sa (a.getaddrinfo_done (wait ∷ t.calls) q))
unfolding outcome host_outcome host_report
async_report a sa q t i = ground (arith, i.kind, i.address)

-- The answer to a lookup for a host by a new resolver is reported alone.
pub lookup_host-reports :
    (a : Asyncns) (sa : SocketAddress) (q : ℕ)
    → let t = asyncns_lookup_host a asyncns_resolver_new sa in
      a.makes_ctx [] ≡ true
      → t.resolv_query ≡ some q
      → a.isdone (wait ∷ t.calls) q ≡ true
      → (t.watch_resolv ≡ true)
        × (v : AsyncnsResolver) × (asyncns_io_cb a t ≡ some (false, v))
        × (async_reports v.calls
            ≡ host_report a.htons sa (a.getaddrinfo_done (wait ∷ t.calls) q) ∷ [])
lookup_host-reports a sa q m e d =
    let t = asyncns_lookup_host a asyncns_resolver_new sa in
    let i = lookup-Asked a sa m in
    let report = host_report a.htons sa (a.getaddrinfo_done (wait ∷ t.calls) q) in
    let (v, calls_back, released, reported) =
      io_cb_some a t q report i.ctx e d (async_report a sa q t i) in
    (i.watch, v, calls_back, reported ∙ ap (λ l. report ∷ l) i.silent)

-- The test of the blocking resolver: a result without an error and with none fails.
blocking_report :
    (htons : ℕ → ℕ) (sa : SocketAddress) (answer : ℤ × List Addrinfo)
    → let r : Report =
        if int_eq answer.0 (pos 0) && not (is_null answer.1)
        then (ok, some (set_results htons (address_ref sa) answer.1))
        else (failed, some (address_ref sa)) in
      (int_eq answer.0 (pos 0) && is_null answer.1 ≡ false → r ≡ host_report htons sa answer)
      × (int_eq answer.0 (pos 0) && is_null answer.1 ≡ true → r ≡ (failed, some (address_ref sa)))
unfolding host_report
blocking_report htons sa answer = (λ n. ground arith, λ n. ground arith)

-- The same answer to the same lookup for a host, on new resolvers with a library that takes the
-- query: both callbacks report once and end. If there are results or an error, the two reports are
-- the same, OK with the results in the address or FAILED without. If there is neither, the blocking
-- resolver reports FAILED and the asynchronous one OK.
pub hosts-agree :
    (b : System) (a : Asyncns) (sa : SocketAddress) (q : ℕ)
    → let s = blocking_lookup_host blocking_new sa in
      let t = asyncns_lookup_host a asyncns_resolver_new sa in
      let answer = b.getaddrinfo s.calls sa.hostname in
      a.makes_ctx [] ≡ true
      → t.resolv_query ≡ some q
      → a.isdone (wait ∷ t.calls) q ≡ true
      → a.getaddrinfo_done (wait ∷ t.calls) q ≡ answer
      → a.htons ≡ b.htons
      → (u : BlockingResolver) × (v : AsyncnsResolver) × (idle_fires b s ≡ some u)
        × (asyncns_io_cb a t ≡ some (false, v))
        × (async_reports v.calls ≡ host_report b.htons sa answer ∷ [])
        × (int_eq answer.0 (pos 0) && is_null answer.1 ≡ false
            → blocking_reports u.calls ≡ host_report b.htons sa answer ∷ [])
        × (int_eq answer.0 (pos 0) && is_null answer.1 ≡ true
            → blocking_reports u.calls ≡ (failed, some (address_ref sa)) ∷ [])
hosts-agree b a sa q m e d w h =
    let s = blocking_lookup_host blocking_new sa in
    let (u, fires, reported, idle, unref) = lookup_host_reports b sa in
    let (watch, v, calls_back, reported') = lookup_host-reports a sa q m e d in
    let answer = b.getaddrinfo s.calls sa.hostname in
    let same = ap (host_report a.htons sa) w ∙ ap (λ f. host_report f sa answer) h in
    let (agrees, differs) = blocking_report b.htons sa answer in
    (
      u,
      v,
      fires,
      calls_back,
      reported' ∙ ap (λ r. r ∷ []) same,
      λ n. reported ∙ ap (λ r. r ∷ []) (agrees n),
      λ n. reported ∙ ap (λ r. r ∷ []) (differs n),
    )

-- The same while it looks up a service.
record AskedSrv (t : AsyncnsResolver) : Type 0 where
  ctx : t.asyncns_ctx ≡ true
  kind : t.resolve_type ≡ srv
  address : t.sa ≡ none
  silent : async_reports t.calls ≡ []

lookup-AskedSrv :
    (a : Asyncns) (name : List ℕ)
    → a.makes_ctx [] ≡ true
    → AskedSrv (asyncns_lookup_srv a asyncns_resolver_new name)
unfolding asyncns_lookup_srv asyncns_prep asyncns_resolver_new
lookup-AskedSrv a name m = ground arith

async_srv_report :
    (a : Asyncns) (q : ℕ) (t : AsyncnsResolver)
    → AskedSrv t
    → let answer = a.res_done (wait ∷ t.calls) q in
      let report = srv_report a.nameser a.name_buffer answer in
      (positive answer.0 ≡ true → report.0 ≡ ok → outcome a q (call wait t) ≡ some report)
      × (positive answer.0 ≡ true → report.0 ≡ failed → outcome a q (call wait t) ≡ none)
      × (positive answer.0 ≡ false → outcome a q (call wait t) ≡ some (failed, none))
unfolding outcome srv_outcome srv_report
async_srv_report a q t i = (
  λ p r. ground (arith, i.kind, i.address),
  λ p r. ground (arith, i.kind, i.address),
  λ p. ground (arith, i.kind, i.address),
)

-- What a callback for a service comes to, by what the blocking resolver reports and by the length of
-- the response.
abbrev pub Compared : Asyncns → AsyncnsResolver → Report → (positive : Bool) → Type 0
Compared a t report true =
    (report.0 ≡ ok
      → (v : AsyncnsResolver) × (asyncns_io_cb a t ≡ some (false, v))
        × (async_reports v.calls ≡ report ∷ []))
    × (report.0 ≡ failed → asyncns_io_cb a t ≡ none)
Compared a t report false =
    (v : AsyncnsResolver) × (asyncns_io_cb a t ≡ some (false, v))
    × (async_reports v.calls ≡ (failed, none) ∷ [])

-- The same response to the same lookup for a service, on new resolvers with a library that takes the
-- query and the same resolver library under both. The blocking resolver reports once and ends. If
-- the response has a positive length, the callback of the asynchronous one reports the same where
-- that is OK; where it is FAILED, the callback frees a pointer that nothing has set, and what
-- follows is not defined. If the length is not positive, it reports FAILED, and the blocking
-- resolver what it parses all the same.
pub services-agree :
    (b : System) (a : Asyncns) (name : List ℕ) (q : ℕ)
    → let s = blocking_lookup_srv blocking_new name in
      let t = asyncns_lookup_srv a asyncns_resolver_new name in
      let answer = b.res_query (res_init ∷ s.calls) name in
      let report = srv_report b.nameser b.name_buffer answer in
      a.makes_ctx [] ≡ true
      → t.resolv_query ≡ some q
      → a.isdone (wait ∷ t.calls) q ≡ true
      → a.res_done (wait ∷ t.calls) q ≡ answer
      → a.nameser ≡ b.nameser
      → a.name_buffer ≡ b.name_buffer
      → (u : BlockingResolver) × (idle_fires b s ≡ some u)
        × (blocking_reports u.calls ≡ report ∷ [])
        × Compared a t report (positive answer.0)
services-agree b a name q m e d w n k =
    let s = blocking_lookup_srv blocking_new name in
    let t = asyncns_lookup_srv a asyncns_resolver_new name in
    let i = lookup-AskedSrv a name m in
    let (u, fires, reported, idle, unref) = lookup_srv_reports b name in
    let done = a.res_done (wait ∷ t.calls) q in
    let same : srv_report a.nameser a.name_buffer done
        ≡ srv_report b.nameser b.name_buffer (b.res_query (res_init ∷ s.calls) name) =
      ap (λ x. srv_report x a.name_buffer done) n
      ∙ ap (λ x. srv_report b.nameser x done) k
      ∙ ap (srv_report b.nameser b.name_buffer) w in
    let compared =
      compare (srv_report a.nameser a.name_buffer done) (positive done.0) i
        (async_srv_report a q t i) in
    (
      u,
      fires,
      reported,
      subst (λ r. Compared a t r (positive (b.res_query (res_init ∷ s.calls) name).0)) same
          (subst (λ x. Compared a t (srv_report a.nameser a.name_buffer done) (positive x.0)) w
            compared),
    )
  where
    ending :
        (t : AsyncnsResolver) (r : Report)
        → async_reports t.calls ≡ []
        → Ends (some r) (async_reports t.calls) (asyncns_io_cb a t)
        → (v : AsyncnsResolver) × (asyncns_io_cb a t ≡ some (false, v))
          × (async_reports v.calls ≡ r ∷ [])
    ending t r z (v, f, released, g) = (v, f, g ∙ ap (λ l. r ∷ l) z)

    compare :
        (report : Report) (b : Bool)
        → AskedSrv (asyncns_lookup_srv a asyncns_resolver_new name)
        → let t = asyncns_lookup_srv a asyncns_resolver_new name in
          (b ≡ true → report.0 ≡ ok → outcome a q (call wait t) ≡ some report)
            × (b ≡ true → report.0 ≡ failed → outcome a q (call wait t) ≡ none)
            × (b ≡ false → outcome a q (call wait t) ≡ some (failed, none))
          → Compared a t report b
    compare r true i (f, g, h) =
        let t = asyncns_lookup_srv a asyncns_resolver_new name in
        let z = io_cb_reports a t q i.ctx e d in
        (
          λ o.
              ending t r i.silent
                (subst (λ x. Ends x (async_reports t.calls) (asyncns_io_cb a t)) (f refl o) z),
          λ o. subst (λ x. Ends x (async_reports t.calls) (asyncns_io_cb a t)) (g refl o) z,
        )
    compare r false i (f, g, h) =
        let t = asyncns_lookup_srv a asyncns_resolver_new name in
        let z = io_cb_reports a t q i.ctx e d in
        ending t (failed, none) i.silent
          (subst (λ x. Ends x (async_reports t.calls) (asyncns_io_cb a t)) (h refl) z)
