-- ===== src/AsyncnsResolver/References.antt =====
-- The reference to an address that a lookup of lm-asyncns-resolver.c takes.
use lm_transport.Base.{
  ℕ, suc, ◌≡◌, refl, sym, subst, ap, ◌∙◌, pos, int_eq, Bool, true, false, Option, none, some, List,
  [], ◌∷◌, is_some, if◌then◌else◌, arith, Bool-cases, inl, inr,
}
use lm_transport.Address.{Addrinfo, SocketAddress}
use lm_transport.Resolver.{ResolverResult, ok, failed, Lookup, host, srv}
use lm_transport.AsyncnsResolver.{
  Call, address_unref, query_done, wait, ctx_free, watch_destroy, channel_unref, Asyncns,
  AsyncnsResolver, asyncns_resolver_new, asyncns_prep, asyncns_lookup_host, asyncns_io_cb,
  asyncns_cleanup, asyncns_finished, asyncns_finalize, asyncns_host_done, asyncns_done, filled,
  call, call_if,
}
use lm_transport.AsyncnsResolver.Outcome.{io_cb_step}

-- How often a reference to an address was given back.
abbrev pub returned : List Call → ℕ
returned [] = 0
returned (address_unref ∷ h) = suc (returned h)
returned (_ ∷ h) = returned h

returned-call_if :
    (b : Bool) (c : Call) (h : List Call)
    → returned (c ∷ h) ≡ returned h
    → returned (call_if b c h) ≡ returned h
returned-call_if false c h e = refl
returned-call_if true c h e = e

cleanup-returned :
    (s : AsyncnsResolver)
    → returned (asyncns_cleanup s).calls
      ≡ (if is_some s.sa then suc (returned s.calls) else returned s.calls)
unfolding asyncns_cleanup
cleanup-returned s =
    let h1 = call_if s.resolv_channel channel_unref s.calls in
    let h2 = call_if s.watch_resolv watch_destroy h1 in
    let h3 = call_if s.asyncns_ctx ctx_free h2 in
    let e : returned h3 ≡ returned s.calls =
      returned-call_if s.asyncns_ctx ctx_free h2 refl
      ∙ returned-call_if s.watch_resolv watch_destroy h1 refl
      ∙ returned-call_if s.resolv_channel channel_unref s.calls refl in
    elim (Bool-cases (is_some s.sa)) [ inl y ↦ ground (arith, y, e) | inr n ↦ ground (arith, n, e) ]

-- What a lookup that has an address is like when its answer is reported.
record Returns (t : AsyncnsResolver) : Type 0 where
  once : returned t.calls ≡ 1
  none_left : t.sa ≡ none

finished-Returns :
    (r : ResolverResult) (s : AsyncnsResolver)
    → is_some s.sa ≡ true
    → returned s.calls ≡ 0
    → Returns (asyncns_finished r s)
unfolding asyncns_finished asyncns_cleanup
finished-Returns r s y z = record {
  once = ground (arith, y, z, cleanup-returned (call (Call.finished r s.sa) s));
  none_left = refl;
}

host_done-Returns :
    (y : Asyncns) (q : ℕ) (s : AsyncnsResolver)
    → is_some s.sa ≡ true
    → returned s.calls ≡ 0
    → Returns (asyncns_host_done y q s)
unfolding asyncns_host_done
host_done-Returns y q s h z =
    let done = y.getaddrinfo_done s.calls q in
    let t = record (call (query_done q) s) { resolv_query = none } in
    let filled_in = record t { sa = filled y t.sa done.1 } in
    elim (Bool-cases (int_eq done.0 (pos 0))) [
      | inl e ↦ rw e (finished-Returns ok filled_in (filled-is_some y s.sa done.1 h) z)
      | inr e ↦ rw e (finished-Returns failed t h z)
    ]
  where
    filled-is_some :
        (y : Asyncns) (o : Option SocketAddress) (l : List Addrinfo)
        → is_some o ≡ true
        → is_some (filled y o l) ≡ true
    filled-is_some y none l e = e
    filled-is_some y (some x) l e = refl

finalize-returned : (s : AsyncnsResolver) → Returns s → returned (asyncns_finalize s).calls ≡ 1
unfolding asyncns_finalize
finalize-returned s r = ground (arith, cleanup-returned s, r.once, r.none_left)

record Asked (t : AsyncnsResolver) : Type 0 where
  ctx : t.asyncns_ctx ≡ true
  kind : t.resolve_type ≡ host
  address : is_some t.sa ≡ true
  silent : returned t.calls ≡ 0

lookup-Asked :
    (a : Asyncns) (sa : SocketAddress)
    → a.makes_ctx [] ≡ true
    → Asked (asyncns_lookup_host a asyncns_resolver_new sa)
unfolding asyncns_lookup_host asyncns_prep asyncns_resolver_new
lookup-Asked a sa m = ground arith

-- A new resolver that has looked up a host and ended gives its reference back once.
pub lookup_host-returned :
    (a : Asyncns) (sa : SocketAddress) (q : ℕ) (v : AsyncnsResolver)
    → let t = asyncns_lookup_host a asyncns_resolver_new sa in
      a.makes_ctx [] ≡ true
      → t.resolv_query ≡ some q
      → a.isdone (wait ∷ t.calls) q ≡ true
      → asyncns_io_cb a t ≡ some (false, v)
      → returned (asyncns_finalize v).calls ≡ 1
unfolding asyncns_done
lookup_host-returned a sa q v m e d f =
    let t = asyncns_lookup_host a asyncns_resolver_new sa in
    let i = lookup-Asked a sa m in
    let step = io_cb_step a t q i.ctx e d in
    finalize-returned v (
      same t.resolve_type (sym f ∙ step) i.kind
        (host_done-Returns a q (call wait t) i.address i.silent))
  where
    same :
        (k : Lookup)
        → some (false, v)
          ≡ asyncns_done a k q (call wait (asyncns_lookup_host a asyncns_resolver_new sa))
        → k ≡ host
        → Returns
            (asyncns_host_done a q (call wait (asyncns_lookup_host a asyncns_resolver_new sa)))
        → Returns v
    same host p k r = subst Returns (ap (λ o. elim o [ none ↦ v | some x ↦ x.1 ]) (sym p)) r
    same srv p k r = ground (arith, k)
