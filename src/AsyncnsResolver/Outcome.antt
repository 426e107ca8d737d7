-- ===== src/AsyncnsResolver/Outcome.antt =====
-- What a lookup of lm-asyncns-resolver.c reports, and when.
use lm_transport.Base.{
  ℕ, ◌≡◌, refl, pos, int_eq, Bool, true, false, Option, none, some, List, [], ◌∷◌, is_some,
  if◌then◌else◌, arith, ◌∙◌, ap, sym, subst, Bool-cases, Option-cases, inl, inr,
}
use lm_transport.Address.{SocketAddress, get_host, address_new}
use lm_transport.Resolver.{ResolverResult, ok, failed, Lookup, host, srv}
use lm_transport.Srv.{Name, parse_srv_response}
use lm_transport.AsyncnsResolver.{
  Call, finished, ctx_new, ctx_free, channel_new, channel_unref, watch_add, watch_destroy, wait,
  address_unref, warning, query_done, Asyncns, AsyncnsResolver, asyncns_prep, asyncns_finished,
  filled, asyncns_host_done, positive, asyncns_srv_done, asyncns_done, asyncns_io_cb,
  asyncns_lookup_host, asyncns_resolver_new, call, call_if, srv_parsed, given_up,
}

-- The `finished` signals, latest first.
abbrev pub reports : List Call → List (ResolverResult × Option SocketAddress)
reports [] = []
reports (finished r sa ∷ h) = (r, sa) ∷ reports h
reports (_ ∷ h) = reports h

-- Nothing of a lookup is left.
pub record Released (s : AsyncnsResolver) : Type 0 where
  pub watch : s.watch_resolv ≡ false
  pub query : s.resolv_query ≡ none
  pub ctx : s.asyncns_ctx ≡ false
  pub channel : s.resolv_channel ≡ false
  pub address : s.sa ≡ none

-- What the answers to a query for an address come to.
unfoldable pub host_outcome : Asyncns → ℕ → AsyncnsResolver → ResolverResult × Option SocketAddress
host_outcome y q s =
    let (err, ans) = y.getaddrinfo_done s.calls q in
    if int_eq err (pos 0) then (ok, filled y s.sa ans) else (failed, s.sa)

abbrev pub named : Option (Name × ℕ) → Option (ResolverResult × Option SocketAddress)
named none = none
named (some (server, port)) = some (ok, some (address_new server port))

-- What the response to a query for a service comes to: none where it has a positive length and does
-- not parse.
unfoldable pub srv_outcome :
    Asyncns → ℕ → AsyncnsResolver → Option (ResolverResult × Option SocketAddress)
srv_outcome y q s =
    let (len, m) = y.res_done s.calls q in
    if positive len
    then named (parse_srv_response y.nameser m len y.name_buffer)
    else some (failed, s.sa)

unfoldable pub outcome :
    Asyncns → ℕ → AsyncnsResolver → Option (ResolverResult × Option SocketAddress)
outcome y q s = elim s.resolve_type [ host ↦ some (host_outcome y q s) | srv ↦ srv_outcome y q s ]

reports-call_if :
    (b : Bool) (c : Call) (h : List Call)
    → reports (c ∷ h) ≡ reports h
    → reports (call_if b c h) ≡ reports h
reports-call_if false c h e = refl
reports-call_if true c h e = e

pub finished-Released :
    (r : ResolverResult) (s : AsyncnsResolver)
    → Released (asyncns_finished r s)
      × (reports (asyncns_finished r s).calls ≡ (r, s.sa) ∷ reports s.calls)
unfolding asyncns_finished
finished-Released r s = (
  record { watch = refl; query = refl; ctx = refl; channel = refl; address = refl },
  reports-call_if (is_some s.sa) address_unref _ refl
      ∙ reports-call_if s.asyncns_ctx ctx_free _ refl
      ∙ reports-call_if s.watch_resolv watch_destroy _ refl
      ∙ reports-call_if s.resolv_channel channel_unref _ refl,
)

-- The resolver has released the lookup and reported this.
abbrev Done :
    (ResolverResult × Option SocketAddress)
    → List (ResolverResult × Option SocketAddress)
    → AsyncnsResolver
    → Type 0
Done o h t = Released t × (reports t.calls ≡ o ∷ h)

finished-Done :
    (r : ResolverResult) (s : AsyncnsResolver) {h : List (ResolverResult × Option SocketAddress)}
    → reports s.calls ≡ h
    → Done (r, s.sa) h (asyncns_finished r s)
finished-Done r s e =
    let (released, f) = finished-Released r s in (released, f ∙ ap (λ l. (r, s.sa) ∷ l) e)

host_done_lem :
    (y : Asyncns) (q : ℕ) (s : AsyncnsResolver)
    → Done (host_outcome y q s) (reports s.calls) (asyncns_host_done y q s)
unfolding host_outcome asyncns_host_done
host_done_lem y q s = elim (Bool-cases (int_eq (y.getaddrinfo_done s.calls q).0 (pos 0))) [
  | inl e ↦ rw e (finished-Done ok _ refl)
  | inr e ↦ rw e (finished-Done failed _ refl)
]

-- What a callback comes to, by the outcome of its query.
abbrev pub Ends :
    Option (ResolverResult × Option SocketAddress)
    → List (ResolverResult × Option SocketAddress)
    → Option (Bool × AsyncnsResolver)
    → Type 0
Ends none h r = r ≡ none
Ends (some o) h r =
    (t : AsyncnsResolver) × (r ≡ some (false, t)) × Released t × (reports t.calls ≡ o ∷ h)

parsed-Ends :
    (p : Option (Name × ℕ)) (h : List (ResolverResult × Option SocketAddress)) (t : AsyncnsResolver)
    → reports t.calls ≡ h
    → Ends (named p) h (given_up (srv_parsed p t))
parsed-Ends none h t e = refl
parsed-Ends (some (server, port)) h t e = let d = finished-Done ok _ e in (_, refl, d.0, d.1)

done-Ends :
    (y : Asyncns) (k : Lookup) (q : ℕ) (s : AsyncnsResolver)
    → Ends
        (elim k [ host ↦ some (host_outcome y q s) | srv ↦ srv_outcome y q s ])
        (reports s.calls)
        (asyncns_done y k q s)
unfolding asyncns_done asyncns_srv_done srv_outcome
done-Ends y host q s = let d = host_done_lem y q s in (asyncns_host_done y q s, refl, d.0, d.1)
done-Ends y srv q s =
    let (len, m) = y.res_done s.calls q in
    elim (Bool-cases (positive len)) [
      | inl e ↦ rw e (
          parsed-Ends (parse_srv_response y.nameser m len y.name_buffer) _
            (record (call (query_done q) s) { resolv_query = none }) refl)
      | inr e ↦ rw e (
          let d =
            finished-Done failed
              (call warning (record (call (query_done q) s) { resolv_query = none })) refl in
          (_, refl, d.0, d.1))
    ]

pub io_cb_step :
    (y : Asyncns) (s : AsyncnsResolver) (q : ℕ)
    → s.asyncns_ctx ≡ true
    → s.resolv_query ≡ some q
    → y.isdone (wait ∷ s.calls) q ≡ true
    → asyncns_io_cb y s ≡ asyncns_done y s.resolve_type q (call wait s)
unfolding asyncns_io_cb
io_cb_step y s q c e d = ground arith

-- A query that the library has not answered keeps the watch, and nothing is reported.
pub io_cb_waits :
    (y : Asyncns) (s : AsyncnsResolver) (q : ℕ)
    → s.asyncns_ctx ≡ true
    → s.resolv_query ≡ some q
    → y.isdone (wait ∷ s.calls) q ≡ false
    → asyncns_io_cb y s ≡ some (true, call wait s)
unfolding asyncns_io_cb
io_cb_waits y s q c e d = ground arith

-- A query that is answered is reported once, by its outcome: OK exactly for a host lookup without
-- error and for a service lookup whose response is not empty and names a server. The watch is then
-- given up and everything that the lookup held is released. A service lookup whose response is not
-- empty and names no server has no outcome: the callback frees a pointer that nothing has set, and
-- what follows is not defined.
pub io_cb_reports :
    (y : Asyncns) (s : AsyncnsResolver) (q : ℕ)
    → s.asyncns_ctx ≡ true
    → s.resolv_query ≡ some q
    → y.isdone (wait ∷ s.calls) q ≡ true
    → Ends (outcome y q (call wait s)) (reports s.calls) (asyncns_io_cb y s)
unfolding outcome
io_cb_reports y s q c e d =
    subst (Ends (outcome y q (call wait s)) (reports s.calls)) (sym (io_cb_step y s q c e d))
      (done-Ends y s.resolve_type q (call wait s))

-- A query that has an outcome.
pub io_cb_some :
    (y : Asyncns) (s : AsyncnsResolver) (q : ℕ) (o : ResolverResult × Option SocketAddress)
    → s.asyncns_ctx ≡ true
    → s.resolv_query ≡ some q
    → y.isdone (wait ∷ s.calls) q ≡ true
    → outcome y q (call wait s) ≡ some o
    → Ends (some o) (reports s.calls) (asyncns_io_cb y s)
io_cb_some y s q o c e d f =
    subst (λ x. Ends x (reports s.calls) (asyncns_io_cb y s)) f (io_cb_reports y s q c e d)

io_cb_idle : (y : Asyncns) (s : AsyncnsResolver) → s.asyncns_ctx ≡ false → asyncns_io_cb y s ≡ none
unfolding asyncns_io_cb
io_cb_idle y s n = ground arith

io_cb_unasked :
    (y : Asyncns) (s : AsyncnsResolver) → s.resolv_query ≡ none → asyncns_io_cb y s ≡ none
unfolding asyncns_io_cb
io_cb_unasked y s n = ground arith

-- A callback that returns has kept the watch as it was, or has none.
pub io_cb_watch :
    (y : Asyncns) (s t : AsyncnsResolver) (kept : Bool)
    → asyncns_io_cb y s ≡ some (kept, t)
    → t.watch_resolv ≡ (if kept then s.watch_resolv else false)
io_cb_watch y s t kept f = elim (Bool-cases s.asyncns_ctx) [
  | inr c ↦ ground (arith, f, io_cb_idle y s c)
  | inl c ↦ elim (Option-cases s.resolv_query) [
    | inl n ↦ ground (arith, f, io_cb_unasked y s n)
    | inr (q, e) ↦ elim (Bool-cases (y.isdone (wait ∷ s.calls) q)) [
      | inr w ↦
          let g = sym (io_cb_waits y s q c e w) ∙ f in
          let k : true ≡ kept = ground (arith, g) in
          let u : call wait s ≡ t = ground (arith, g) in
          ap (λ x. x.watch_resolv) (sym u) ∙ ground (arith, k)
      | inl w ↦ ended (outcome y q (call wait s)) (io_cb_reports y s q c e w)
    ]
  ]
]
  where
    ended :
        (o : Option (ResolverResult × Option SocketAddress))
        → Ends o (reports s.calls) (asyncns_io_cb y s)
        → t.watch_resolv ≡ (if kept then s.watch_resolv else false)
    ended none g = ground (arith, f, g)
    ended (some o) (v, g, released, r) =
        let h = sym g ∙ f in
        let k : false ≡ kept = ground (arith, h) in
        let u : v ≡ t = ground (arith, h) in
        ap (λ x. x.watch_resolv) (sym u) ∙ released.watch ∙ ground (arith, k)

-- A lookup of a new resolver to which the library gives a context is watched.
pub lookup_host_watched :
    (y : Asyncns) (sa : SocketAddress)
    → y.makes_ctx [] ≡ true
    → (asyncns_lookup_host y asyncns_resolver_new sa).watch_resolv ≡ true
unfolding asyncns_lookup_host asyncns_prep asyncns_resolver_new
lookup_host_watched y sa m = ground arith

-- A lookup for which the library gives no context ends without a report: no signal is emitted then,
-- and no watch is there to emit one later.
pub lookup_host_silent :
    (y : Asyncns) (s : AsyncnsResolver) (sa : SocketAddress)
    → s.asyncns_ctx ≡ false
    → y.makes_ctx s.calls ≡ false
    → let t = asyncns_lookup_host y s sa in
      (reports t.calls ≡ reports s.calls)
      × (t.watch_resolv ≡ s.watch_resolv)
      × (t.asyncns_ctx ≡ false)
unfolding asyncns_lookup_host asyncns_prep
lookup_host_silent y s sa c m = ground arith

-- A lookup whose query the library refuses is watched all the same, and its callback aborts.
pub lookup_host_refused :
    (y : Asyncns) (s : AsyncnsResolver) (sa : SocketAddress)
    → s.asyncns_ctx ≡ false
    → y.makes_ctx s.calls ≡ true
    → y.getaddrinfo (watch_add ∷ channel_new ∷ ctx_new ∷ s.calls) sa.hostname ≡ none
    → let t = asyncns_lookup_host y s sa in (t.watch_resolv ≡ true) × (asyncns_io_cb y t ≡ none)
unfolding asyncns_lookup_host asyncns_prep asyncns_io_cb get_host
lookup_host_refused y s sa c m e = ground arith
