-- ===== src/AsyncnsResolver/Answers.antt =====
-- How a lookup of lm-asyncns-resolver.c ends.
use lm_transport.Base.{
  ℕ, ◌≡◌, refl, ap, sym, ◌∙◌, Bool, true, false, Option, none, some, List, ◌∷◌, inl, inr, arith,
  Option-cases, Bool-cases, ◌⊎◌, if◌then◌else◌,
}
use lm_transport.Address.{SocketAddress}
use lm_transport.Resolver.{ResolverResult, cancelled, is_answer}
use lm_transport.AsyncnsResolver.{
  wait, Asyncns, AsyncnsResolver, asyncns_io_cb, asyncns_lookup_host, asyncns_lookup_srv,
  asyncns_prep, asyncns_resolver_cancel, call, drop_query,
}
use lm_transport.AsyncnsResolver.Outcome.{reports, io_cb_some, io_cb_waits, finished-Released}
use lm_transport.AsyncnsResolver.Resources.{Reach, io_cb, Reach-Balanced}
use lm_transport.AsyncnsResolver.Queries.{Accepting, Reach-Asking, outcome-some}

abbrev pub reported : AsyncnsResolver → List (ResolverResult × Option SocketAddress)
reported s = reports s.calls

abbrev pub busy : AsyncnsResolver → Bool
busy s = s.watch_resolv

-- The main context runs the callback of the watch, if there is one.
pub watch_fires : Asyncns → AsyncnsResolver → Option AsyncnsResolver
watch_fires y s =
    if s.watch_resolv
    then elim (asyncns_io_cb y s) [ none ↦ none | some (kept, t) ↦ some t ]
    else some s

watch_fires-io_cb :
    (y : Asyncns) (s : AsyncnsResolver) {kept : Bool} {t : AsyncnsResolver}
    → s.watch_resolv ≡ true
    → asyncns_io_cb y s ≡ some (kept, t)
    → watch_fires y s ≡ some t
unfolding watch_fires
watch_fires-io_cb y s on e = ground (arith, on, e)

watch_fires-off :
    (y : Asyncns) (s : AsyncnsResolver) → s.watch_resolv ≡ false → watch_fires y s ≡ some s
unfolding watch_fires
watch_fires-off y s off = ground (arith, off)

pub asyncns_fire_law :
    (y : Asyncns) (s : AsyncnsResolver)
    → Accepting y
    → Reach y s
    → (t : AsyncnsResolver) × (watch_fires y s ≡ some t)
      × Reach y t
      × (((busy t ≡ busy s) × (reported t ≡ reported s))
          ⊎ ((busy s ≡ true)
              × (busy t ≡ false)
              × ((a : ResolverResult × Option SocketAddress) × (is_answer a.0 ≡ true)
                  × (reported t ≡ a ∷ reported s))))
asyncns_fire_law y s a r = elim (Bool-cases s.watch_resolv) [
  | inr off ↦ (s, watch_fires-off y s off, r, inl (refl, refl))
  | inl on ↦
      let c = sym (Reach-Balanced y r).with_watch ∙ on in
      elim (Option-cases s.resolv_query) [
        | inl n ↦ ground (arith, n, Reach-Asking y a r c)
        | inr (q, e) ↦ elim (Bool-cases (y.isdone (wait ∷ s.calls) q)) [
          | inl w ↦
              let (o, g, answered) = outcome-some y q (call wait s) a in
              let (t, f, released, report) = io_cb_some y s q o c e w g in
              (
                t,
                watch_fires-io_cb y s on f,
                io_cb f r,
                inr (on, released.watch, (o, answered, report)),
              )
          | inr w ↦
              let f = io_cb_waits y s q c e w in
              (call wait s, watch_fires-io_cb y s on f, io_cb f r, inl (refl, refl))
        ]
      ]
]

drop_query-reported : (s : AsyncnsResolver) → reported (drop_query s) ≡ reported s
drop_query-reported s = ground arith

pub asyncns_cancel_law :
    (s : AsyncnsResolver)
    → let t = asyncns_resolver_cancel s in
      (busy t ≡ false) × ((a : Option SocketAddress) × (reported t ≡ (cancelled, a) ∷ reported s))
unfolding asyncns_resolver_cancel
asyncns_cancel_law s =
    let t = drop_query s in
    let (released, report) = finished-Released cancelled t in
    (released.watch, (t.sa, report ∙ ap (λ h. (cancelled, t.sa) ∷ h) (drop_query-reported s)))

pub asyncns_lookup_host_law :
    (y : Asyncns) (s : AsyncnsResolver) (sa : SocketAddress)
    → reported (asyncns_lookup_host y s sa) ≡ reported s
unfolding asyncns_lookup_host asyncns_prep
asyncns_lookup_host_law y s sa = ground arith

pub asyncns_lookup_srv_law :
    (y : Asyncns) (s : AsyncnsResolver) (name : List ℕ)
    → reported (asyncns_lookup_srv y s name) ≡ reported s
unfolding asyncns_lookup_srv asyncns_prep
asyncns_lookup_srv_law y s name = ground arith
