-- ===== src/Blocking/Protocol.antt =====
-- What a lookup of lm-blocking-resolver.c reports, and when.
use lm_transport.Base.{
  ℕ, suc, ◌≡◌, refl, ◌&&◌, ℤ, pos, int_eq, not, true, Option, none, some, List, [], ◌∷◌, is_some,
  if◌then◌else◌, length, arith, Option-cases, inl, inr, sym, subst, ◌∙◌,
}
use lm_transport.Address.{SocketAddress, address_ref, address_new, get_host, set_results, is_null}
use lm_transport.Srv.{Message, Name, Nameser, parse_srv_response}
use lm_transport.Resolver.{ResolverResult, ok, failed, Lookup, host, srv}
use lm_transport.Blocking.{
  res_init, Call, finished, object_unref, System, BlockingResolver, blocking_new, blocking_finished,
  drop_idle, host_answer, srv_answer, idle_lookup_host, idle_lookup_srv, blocking_lookup_host,
  blocking_lookup_srv, blocking_cancel, idle_fires,
}

-- The `finished` signals, latest first.
abbrev pub reports : List Call → List (ResolverResult × Option SocketAddress)
reports [] = []
reports (finished r sa ∷ h) = (r, sa) ∷ reports h
reports (_ ∷ h) = reports h

-- How often the resolver gave up its reference to itself.
abbrev pub unrefs : List Call → ℕ
unrefs [] = 0
unrefs (object_unref ∷ h) = suc (unrefs h)
unrefs (_ ∷ h) = unrefs h

-- A host lookup reports once, when its idle callback runs: OK with the results in the address if
-- there is no error and some result, else FAILED with the address as it was. It then has no idle
-- source and has given up one reference.
pub lookup_host_reports :
    (y : System) (sa : SocketAddress)
    → let s = blocking_lookup_host blocking_new sa in
      let answer = y.getaddrinfo s.calls sa.hostname in
      let own = address_ref sa in
      (t : BlockingResolver) × (idle_fires y s ≡ some t)
      × (reports t.calls
          ≡ (if int_eq answer.0 (pos 0) && not (is_null answer.1)
              then (ok, some (set_results y.htons own answer.1))
              else (failed, some own))
            ∷ [])
      × (t.idle_source ≡ none)
      × (unrefs t.calls ≡ 1)
unfolding idle_fires blocking_lookup_host blocking_new get_host address_ref
lookup_host_reports y sa = (_, refl, ground arith, ground arith, ground arith)

-- What a lookup for a service comes to, by the response.
unfoldable pub srv_report : Nameser → Name → ℤ × Message → ResolverResult × Option SocketAddress
srv_report ns name_buffer answer = elim (parse_srv_response ns answer.1 answer.0 name_buffer) [
  | none ↦ (failed, none)
  | some (server, port) ↦ (ok, some (address_new server port))
]

-- A service lookup reports once, when its idle callback runs: OK with a new address for the server
-- that the response names, else FAILED without an address. It then has no idle source and has given
-- up one reference.
pub lookup_srv_reports :
    (y : System) (name : List ℕ)
    → let s = blocking_lookup_srv blocking_new name in
      (t : BlockingResolver) × (idle_fires y s ≡ some t)
      × (reports t.calls
          ≡ srv_report y.nameser y.name_buffer (y.res_query (res_init ∷ s.calls) name) ∷ [])
      × (t.idle_source ≡ none)
      × (unrefs t.calls ≡ 1)
unfolding idle_fires blocking_lookup_srv blocking_new srv_report srv_answer blocking_finished
lookup_srv_reports y name = (_, refl, ground arith, ground arith, ground arith)

-- What the user and the main loop do to a resolver: one lookup at a time, and a callback only while
-- its source is there.
pub data Reach (y : System) : BlockingResolver → Type 0 where
  start : Reach y blocking_new
  looks_host :
      {s : BlockingResolver} (sa : SocketAddress)
      → s.idle_source ≡ none
      → Reach y s
      → Reach y (blocking_lookup_host s sa)
  looks_srv :
      {s : BlockingResolver} (name : List ℕ)
      → s.idle_source ≡ none
      → Reach y s
      → Reach y (blocking_lookup_srv s name)
  cancels : {s : BlockingResolver} → Reach y s → Reach y (blocking_cancel s)
  fires : {s t : BlockingResolver} → idle_fires y s ≡ some t → Reach y s → Reach y t

pub record Inv (s : BlockingResolver) : Type 0 where
  pub has_sa : s.idle_source ≡ some host → is_some s.sa ≡ true
  pub has_name : s.idle_source ≡ some srv → is_some s.srv_name ≡ true
  pub unref_each : unrefs s.calls ≡ length (reports s.calls)

host_answer-Reported :
    (y : System) (sa : SocketAddress) (s : BlockingResolver)
    → let t = host_answer y sa s in
      (t.idle_source ≡ none)
      × (length (reports t.calls) ≡ suc (length (reports s.calls)))
      × (unrefs t.calls ≡ suc (unrefs s.calls))
unfolding host_answer blocking_finished
host_answer-Reported y sa s = ground arith

srv_answer-Reported :
    (y : System) (name : List ℕ) (s : BlockingResolver)
    → let t = srv_answer y name s in
      (t.idle_source ≡ none)
      × (length (reports t.calls) ≡ suc (length (reports s.calls)))
      × (unrefs t.calls ≡ suc (unrefs s.calls))
unfolding srv_answer blocking_finished
srv_answer-Reported y name s = ground arith

abbrev Reported : BlockingResolver → BlockingResolver → Type 0
Reported s t =
    (t.idle_source ≡ none)
    × (length (reports t.calls) ≡ suc (length (reports s.calls)))
    × (unrefs t.calls ≡ suc (unrefs s.calls))

fires-Reported :
    (y : System) (s : BlockingResolver) (k : Lookup)
    → Inv s
    → s.idle_source ≡ some k
    → (t : BlockingResolver) × (idle_fires y s ≡ some t) × Reported s t
unfolding idle_fires idle_lookup_host idle_lookup_srv
fires-Reported y s host i e = elim (Option-cases s.sa) [
  | inl n ↦ ground (arith, i.has_sa e)
  | inr (sa, h) ↦ (host_answer y sa s, ground arith, host_answer-Reported y sa s)
]
fires-Reported y s srv i e = elim (Option-cases s.srv_name) [
  | inl n ↦ ground (arith, i.has_name e)
  | inr (name, h) ↦ (srv_answer y name s, ground arith, srv_answer-Reported y name s)
]

Reported-Inv : {s t : BlockingResolver} → Reported s t → Inv s → Inv t
Reported-Inv r i = record {
  has_sa = λ e. ground arith;
  has_name = λ e. ground arith;
  unref_each = ground (arith, i.unref_each);
}

cancel-Reported : (s : BlockingResolver) → Reported s (blocking_cancel s)
unfolding blocking_cancel drop_idle blocking_finished
cancel-Reported s = ground arith

some_inj : {x y : BlockingResolver} → some x ≡ some y → x ≡ y
some_inj e = ground arith

idle_fires-none :
    (y : System) (s t : BlockingResolver) → s.idle_source ≡ none → idle_fires y s ≡ some t → s ≡ t
unfolding idle_fires
idle_fires-none y s t n e = ground arith

fires-Inv : (y : System) (s t : BlockingResolver) → idle_fires y s ≡ some t → Inv s → Inv t
fires-Inv y s t e i = elim (Option-cases s.idle_source) [
  | inl n ↦ subst Inv (idle_fires-none y s t n e) i
  | inr (k, h) ↦
      let (u, f, r) = fires-Reported y s k i h in
      subst Inv (some_inj (sym f ∙ e)) (Reported-Inv r i)
]

pub Reach-Inv : (y : System) {s : BlockingResolver} → Reach y s → Inv s
unfolding blocking_new blocking_lookup_host blocking_lookup_srv
Reach-Inv y start = record {
  has_sa = λ e. ground arith;
  has_name = λ e. ground arith;
  unref_each = refl;
}
Reach-Inv y (looks_host sa n r) =
    let i = Reach-Inv y r in
    record { has_sa = λ e. refl; has_name = λ e. ground arith; unref_each = i.unref_each }
Reach-Inv y (looks_srv name n r) =
    let i = Reach-Inv y r in
    record { has_sa = λ e. ground arith; has_name = λ e. refl; unref_each = i.unref_each }
Reach-Inv y (cancels r) = Reported-Inv (cancel-Reported _) (Reach-Inv y r)
Reach-Inv y (fires e r) = fires-Inv y _ _ e (Reach-Inv y r)

-- Whatever lookups, each made while no other is under way, callbacks and cancellations came before,
-- the callback of an idle source that is there follows no NULL pointer, emits `finished` exactly once, gives up the resolver's reference to
-- itself once, and leaves no idle source.
pub Reach-fires :
    (y : System) {s : BlockingResolver} (k : Lookup)
    → Reach y s
    → s.idle_source ≡ some k
    → (t : BlockingResolver) × (idle_fires y s ≡ some t)
      × (t.idle_source ≡ none)
      × (length (reports t.calls) ≡ suc (length (reports s.calls)))
      × (unrefs t.calls ≡ suc (unrefs s.calls))
Reach-fires y k r e =
    let (t, f, (idle, once, unref)) = fires-Reported y _ k (Reach-Inv y r) e in
    (t, f, idle, once, unref)

-- At any moment the resolver has given up its reference to itself as often as it has reported.
pub Reach-unrefs :
    (y : System) {s : BlockingResolver} → Reach y s → unrefs s.calls ≡ length (reports s.calls)
Reach-unrefs y r = (Reach-Inv y r).unref_each
