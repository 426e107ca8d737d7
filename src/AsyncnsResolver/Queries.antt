-- ===== src/AsyncnsResolver/Queries.antt =====
-- A callback of lm-asyncns-resolver.c has a query to ask about.
use lm_transport.Base.{
  ◌≡◌, refl, Option, sym, ◌∙◌, ℕ, Bool, true, false, none, some, is_some, List, ◌∷◌, arith,
  Option-cases, inl, inr, Bool-cases, subst,
}
use lm_transport.Address.{SocketAddress, get_host, address_new}
use lm_transport.Resolver.{ResolverResult, ok, failed, is_answer, Lookup, host, srv}
use lm_transport.Srv.{parse_srv_response}
use lm_transport.AsyncnsResolver.{
  Call, wait, Asyncns, AsyncnsResolver, asyncns_resolver_new, asyncns_cleanup, asyncns_prep,
  asyncns_finished, asyncns_io_cb, asyncns_lookup_host, asyncns_lookup_srv, asyncns_resolver_cancel,
  call, watch_add, channel_new, ctx_new, positive,
}
use lm_transport.AsyncnsResolver.Outcome.{
  outcome, host_outcome, srv_outcome, io_cb_some, io_cb_waits,
}
use lm_transport.AsyncnsResolver.Resources.{
  Reach, start, lookup_host, lookup_srv, cancel, io_cb, Reach-Balanced,
}

-- A library that refuses no query, and whose responses for a service, unless empty, name a server.
pub record Accepting (y : Asyncns) : Type 0 where
  pub hosts : (h : List Call) (name : List ℕ) → is_some (y.getaddrinfo h name) ≡ true
  pub services : (h : List Call) (name : List ℕ) → is_some (y.res_query h name) ≡ true
  pub names :
      (h : List Call) (q : ℕ)
      → positive (y.res_done h q).0 ≡ true
      → is_some (parse_srv_response y.nameser (y.res_done h q).1 (y.res_done h q).0 y.name_buffer)
        ≡ true

abbrev Asking : AsyncnsResolver → Type 0
Asking s = s.asyncns_ctx ≡ true → is_some s.resolv_query ≡ true

lookup_host-Asking :
    (y : Asyncns) (s : AsyncnsResolver) (sa : SocketAddress)
    → Accepting y
    → Asking s
    → Asking (asyncns_lookup_host y s sa)
unfolding asyncns_lookup_host asyncns_prep
lookup_host-Asking y s sa a i e =
    ground (arith, i, a.hosts (watch_add ∷ channel_new ∷ ctx_new ∷ s.calls) (get_host sa))

lookup_srv-Asking :
    (y : Asyncns) (s : AsyncnsResolver) (name : List ℕ)
    → Accepting y
    → Asking s
    → Asking (asyncns_lookup_srv y s name)
unfolding asyncns_lookup_srv asyncns_prep
lookup_srv-Asking y s name a i e =
    ground (arith, i, a.services (watch_add ∷ channel_new ∷ ctx_new ∷ s.calls) name)

cancel-Asking : (s : AsyncnsResolver) → Asking (asyncns_resolver_cancel s)
unfolding asyncns_resolver_cancel asyncns_finished asyncns_cleanup
cancel-Asking s e = ground arith

-- Each query then has an outcome.
pub outcome-some :
    (y : Asyncns) (q : ℕ) (s : AsyncnsResolver)
    → Accepting y
    → (o : ResolverResult × Option SocketAddress) × (outcome y q s ≡ some o)
      × (is_answer o.0 ≡ true)
unfolding outcome host_outcome srv_outcome
outcome-some y q s a = by_kind s.resolve_type
  where
    by_kind :
        (k : Lookup)
        → (o : ResolverResult × Option SocketAddress) × (elim k [
          | host ↦ some (host_outcome y q s)
          | srv ↦ srv_outcome y q s
        ]
            ≡ some o)
          × (is_answer o.0 ≡ true)
    by_kind host = (host_outcome y q s, refl, ground arith)
    by_kind srv =
        let (len, m) = y.res_done s.calls q in
        elim (Bool-cases (positive len)) [
          | inr e ↦ ((failed, s.sa), rw e refl, refl)
          | inl e ↦ elim (Option-cases (parse_srv_response y.nameser m len y.name_buffer)) [
            | inl n ↦ ground (arith, n, a.names s.calls q e)
            | inr ((server, port), p) ↦ ((ok, some (address_new server port)), rw (e, p) refl, refl)
          ]
        ]

-- The callback keeps the resolver as it is, or releases it.
io_cb_cases :
    (y : Asyncns) (s : AsyncnsResolver)
    → Accepting y
    → s.asyncns_ctx ≡ true
    → is_some s.resolv_query ≡ true
    → (kept : Bool) × (t : AsyncnsResolver) × (asyncns_io_cb y s ≡ some (kept, t)) × Asking t
io_cb_cases y s a c d = elim (Option-cases s.resolv_query) [
  | inl n ↦ ground arith
  | inr (q, e) ↦ elim (Bool-cases (y.isdone (wait ∷ s.calls) q)) [
    | inl w ↦
        let (o, f, answer) = outcome-some y q (call wait s) a in
        let (t, r, released, reported) = io_cb_some y s q o c e w f in
        (false, t, r, λ h. ground (arith, released.ctx))
    | inr w ↦ (true, call wait s, io_cb_waits y s q c e w, λ h. d)
  ]
]

state_inj : {p q : Bool × AsyncnsResolver} → some p ≡ some q → p.1 ≡ q.1
state_inj e = ground arith

io_cb_idle : (y : Asyncns) (s : AsyncnsResolver) → s.asyncns_ctx ≡ false → asyncns_io_cb y s ≡ none
unfolding asyncns_io_cb
io_cb_idle y s n = ground arith

io_cb-Asking :
    (y : Asyncns) (s : AsyncnsResolver) {kept : Bool} {t : AsyncnsResolver}
    → Accepting y
    → asyncns_io_cb y s ≡ some (kept, t)
    → Asking s
    → Asking t
io_cb-Asking y s a f i = elim (Bool-cases s.asyncns_ctx) [
  | inl c ↦
      let (kept, t, e, asking) = io_cb_cases y s a c (i c) in
      subst (λ u. u.asyncns_ctx ≡ true → is_some u.resolv_query ≡ true) (state_inj (sym e ∙ f))
        asking
  | inr n ↦ ground (arith, io_cb_idle y s n)
]

pub Reach-Asking : (y : Asyncns) {s : AsyncnsResolver} → Accepting y → Reach y s → Asking s
unfolding asyncns_resolver_new
Reach-Asking y a start = λ e. ground arith
Reach-Asking y a (lookup_host sa r) = lookup_host-Asking y _ sa a (Reach-Asking y a r)
Reach-Asking y a (lookup_srv name r) = lookup_srv-Asking y _ name a (Reach-Asking y a r)
Reach-Asking y a (cancel r) = cancel-Asking _
Reach-Asking y a (io_cb e r) = io_cb-Asking y _ a e (Reach-Asking y a r)

-- With such a library, whatever lookups, cancellations and callbacks came before,
-- a callback of a watch that is set returns: it finds a context and a query, and no assertion fails.
pub Reach-io_cb :
    (y : Asyncns) {s : AsyncnsResolver}
    → Accepting y
    → Reach y s
    → s.watch_resolv ≡ true
    → (kept : Bool) × (t : AsyncnsResolver) × (asyncns_io_cb y s ≡ some (kept, t))
Reach-io_cb y {s} a r w =
    let c = sym (Reach-Balanced y r).with_watch ∙ w in
    let (kept, t, e, asking) = io_cb_cases y s a c (Reach-Asking y a r c) in (kept, t, e)
