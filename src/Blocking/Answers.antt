-- ===== src/Blocking/Answers.antt =====
-- How a lookup of lm-blocking-resolver.c ends.
use lm_transport.Base.{
  ℕ, ◌≡◌, refl, Bool, true, false, Option, none, some, List, ◌∷◌, is_some, inl, inr, arith,
  Option-cases, Bool-cases, int_eq, pos, not, ◌||◌, ◌⊎◌,
}
use lm_transport.Address.{address_new, SocketAddress, is_null, get_host}
use lm_transport.Srv.{Name, parse_srv_response}
use lm_transport.Resolver.{ResolverResult, ok, failed, cancelled, is_answer, Lookup, host, srv}
use lm_transport.Blocking.{
  System, BlockingResolver, blocking_lookup_host, blocking_lookup_srv, blocking_cancel,
  blocking_finished, drop_idle, idle_fires, idle_lookup_host, idle_lookup_srv, host_answer,
  srv_answer, res_init, res_query,
}
use lm_transport.Blocking.Protocol.{reports, Reach, fires, Reach-Inv}

abbrev pub reported : BlockingResolver → List (ResolverResult × Option SocketAddress)
reported s = reports s.calls

abbrev pub busy : BlockingResolver → Bool
busy s = is_some s.idle_source

-- The lookup is over, with an answer.
abbrev Answered : BlockingResolver → BlockingResolver → Type 0
Answered s t =
    (t.idle_source ≡ none)
    × ((r : ResolverResult × Option SocketAddress) × (is_answer r.0 ≡ true)
        × (reported t ≡ r ∷ reported s))

host_answer-Answered :
    (y : System) (sa : SocketAddress) (s : BlockingResolver) → Answered s (host_answer y sa s)
unfolding host_answer blocking_finished
host_answer-Answered y sa s =
    let answer = y.getaddrinfo s.calls (get_host sa) in
    elim (Bool-cases (not (int_eq answer.0 (pos 0)) || is_null answer.1)) [
      | inl e ↦ rw e (refl, (_, refl, refl))
      | inr e ↦ rw e (refl, (_, refl, refl))
    ]

parsed-Answered :
    (p : Option (Name × ℕ)) (u : BlockingResolver)
    → Answered u (elim p [
      | none ↦ blocking_finished failed u
      | some (server, port) ↦
          blocking_finished ok (record u { sa = some (address_new server port) })
    ])
unfolding blocking_finished
parsed-Answered none u = (refl, (_, refl, refl))
parsed-Answered (some (server, port)) u = (refl, (_, refl, refl))

srv_answer-Answered :
    (y : System) (name : List ℕ) (s : BlockingResolver) → Answered s (srv_answer y name s)
unfolding srv_answer
srv_answer-Answered y name s =
    let (len, m) = y.res_query (res_init ∷ s.calls) name in
    parsed-Answered (parse_srv_response y.nameser m len y.name_buffer)
      (record s { calls = res_query name ∷ res_init ∷ s.calls })

fires-Answered :
    (y : System) (s : BlockingResolver) (k : Lookup)
    → Reach y s
    → s.idle_source ≡ some k
    → (t : BlockingResolver) × (idle_fires y s ≡ some t) × Answered s t
unfolding idle_fires idle_lookup_host idle_lookup_srv
fires-Answered y s host r e = elim (Option-cases s.sa) [
  | inl n ↦ ground (arith, (Reach-Inv y r).has_sa e)
  | inr (sa, h) ↦ (host_answer y sa s, ground arith, host_answer-Answered y sa s)
]
fires-Answered y s srv r e = elim (Option-cases s.srv_name) [
  | inl n ↦ ground (arith, (Reach-Inv y r).has_name e)
  | inr (name, h) ↦ (srv_answer y name s, ground arith, srv_answer-Answered y name s)
]

pub blocking_fire_law :
    (y : System) (s : BlockingResolver)
    → Reach y s
    → (t : BlockingResolver) × (idle_fires y s ≡ some t)
      × Reach y t
      × (((busy t ≡ busy s) × (reported t ≡ reported s))
          ⊎ ((busy s ≡ true)
              × (busy t ≡ false)
              × ((a : ResolverResult × Option SocketAddress) × (is_answer a.0 ≡ true)
                  × (reported t ≡ a ∷ reported s))))
unfolding idle_fires
blocking_fire_law y s r = elim (Option-cases s.idle_source) [
  | inl n ↦ let e : idle_fires y s ≡ some s = ground arith in (s, e, r, inl (refl, refl))
  | inr (k, h) ↦
      let (t, e, (n, answer)) = fires-Answered y s k r h in
      (t, e, fires e r, inr (ground arith, ground arith, answer))
]

pub blocking_cancel_law :
    (s : BlockingResolver)
    → let t = blocking_cancel s in
      (busy t ≡ false) × ((a : Option SocketAddress) × (reported t ≡ (cancelled, a) ∷ reported s))
unfolding blocking_cancel drop_idle blocking_finished
blocking_cancel_law s = elim (Option-cases s.idle_source) [
  | inl n ↦ rw n (refl, (_, refl))
  | inr (k, e) ↦ rw e (refl, (_, refl))
]

pub blocking_lookup_host_law :
    (s : BlockingResolver) (sa : SocketAddress) → reported (blocking_lookup_host s sa) ≡ reported s
unfolding blocking_lookup_host
blocking_lookup_host_law s sa = refl

pub blocking_lookup_srv_law :
    (s : BlockingResolver) (name : List ℕ) → reported (blocking_lookup_srv s name) ≡ reported s
unfolding blocking_lookup_srv
blocking_lookup_srv_law s name = refl

pub not_busy : (s : BlockingResolver) → busy s ≡ false → s.idle_source ≡ none
not_busy s idle = ground (arith, idle)
