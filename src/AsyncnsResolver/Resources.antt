-- ===== src/AsyncnsResolver/Resources.antt =====
-- Whatever happens to a resolver of lm-asyncns-resolver.c, it gives up what it acquires.
use lm_transport.Base.{
  ◌≡◌, refl, ◌∙◌, ap, Bool, true, false, Option, none, some, List, ℕ, subst, int_eq, pos,
  if◌then◌else◌, not,
}
use lm_transport.Address.{SocketAddress, address_ref}
use lm_transport.Resolver.{failed, ok, cancelled, Lookup, host, srv}
use lm_transport.AsyncnsResolver.{
  Asyncns, AsyncnsResolver, asyncns_resolver_new, asyncns_prep, asyncns_host_done, asyncns_srv_done,
  asyncns_done, asyncns_io_cb, asyncns_lookup_host, asyncns_lookup_srv, asyncns_resolver_cancel,
  asyncns_finalize, positive, call, wait, query_cancel, drop_query, srv_parsed, given_up,
}
use lm_transport.Srv.{Name, parse_srv_response}
use lm_transport.AsyncnsResolver.Balance.{
  Kind, context, channel, watch, acquire, owned, Balanced, cleanup-held, Same, Same-Balanced, each,
  finished-Balanced,
}

-- The states that lookups, cancellations and callbacks of the watch lead to.
pub data Reach (y : Asyncns) : AsyncnsResolver → Type 0 where
  start : Reach y asyncns_resolver_new
  lookup_host :
      {s : AsyncnsResolver} (sa : SocketAddress) → Reach y s → Reach y (asyncns_lookup_host y s sa)
  lookup_srv :
      {s : AsyncnsResolver} (name : List ℕ) → Reach y s → Reach y (asyncns_lookup_srv y s name)
  cancel : {s : AsyncnsResolver} → Reach y s → Reach y (asyncns_resolver_cancel s)
  io_cb :
      {s t : AsyncnsResolver} {kept : Bool}
      → asyncns_io_cb y s ≡ some (kept, t)
      → Reach y s
      → Reach y t

if-Balanced :
    (b : Bool) {s t : AsyncnsResolver} → Balanced s → Balanced t → Balanced (if b then s else t)
if-Balanced false i j = j
if-Balanced true i j = i

host_done-Balanced :
    (y : Asyncns) (q : ℕ) (s : AsyncnsResolver) → Balanced s → Balanced (asyncns_host_done y q s)
unfolding asyncns_host_done
host_done-Balanced y q s i =
    if-Balanced (not (int_eq (y.getaddrinfo_done s.calls q).0 (pos 0)))
      (finished-Balanced failed _ (Same-Balanced (refl, refl, refl, each _ refl refl refl) i))
      (finished-Balanced ok _ (Same-Balanced (refl, refl, refl, each _ refl refl refl) i))

AfterSrv : Option AsyncnsResolver → Type 0
AfterSrv none = Unit
AfterSrv (some t) = Balanced t

if-AfterSrv :
    (b : Bool) (o p : Option AsyncnsResolver)
    → AfterSrv o
    → AfterSrv p
    → AfterSrv (if b then o else p)
if-AfterSrv false o p i j = j
if-AfterSrv true o p i j = i

parsed-Balanced :
    (p : Option (Name × ℕ)) (s : AsyncnsResolver) → Balanced s → AfterSrv (srv_parsed p s)
unfolding AfterSrv
parsed-Balanced none s i = tt
parsed-Balanced (some (server, port)) s i =
    finished-Balanced ok _ (Same-Balanced (refl, refl, refl, each _ refl refl refl) i)

srv_done-Balanced :
    (y : Asyncns) (q : ℕ) (s : AsyncnsResolver) → Balanced s → AfterSrv (asyncns_srv_done y q s)
unfolding asyncns_srv_done AfterSrv
srv_done-Balanced y q s i =
    if-AfterSrv (not (positive (y.res_done s.calls q).0)) _ _
      (finished-Balanced failed _ (Same-Balanced (refl, refl, refl, each _ refl refl refl) i))
      (parsed-Balanced
        (parse_srv_response y.nameser (y.res_done s.calls q).1 (y.res_done s.calls q).0
          y.name_buffer)
        _ (Same-Balanced (refl, refl, refl, each _ refl refl refl) i))

After : Option (Bool × AsyncnsResolver) → Type 0
After none = Unit
After (some (kept, t)) = Balanced t

if-After :
    (b : Bool) (o p : Option (Bool × AsyncnsResolver))
    → After o
    → After p
    → After (if b then o else p)
if-After false o p i j = j
if-After true o p i j = i

from_srv : (o : Option AsyncnsResolver) → AfterSrv o → After (given_up o)
unfolding After AfterSrv
from_srv none a = tt
from_srv (some t) a = a

answer-After :
    (y : Asyncns) (q : ℕ) (s : AsyncnsResolver) (k : Lookup)
    → Balanced s
    → After (asyncns_done y k q s)
unfolding After asyncns_done
answer-After y q s host i = host_done-Balanced y q s i
answer-After y q s srv i = from_srv (asyncns_srv_done y q s) (srv_done-Balanced y q s i)

query-After :
    (y : Asyncns) (s : AsyncnsResolver) (o : Option ℕ)
    → Balanced s
    → After (elim o [
      | none ↦ none
      | some q ↦
          if not (y.isdone s.calls q) then some (true, s) else asyncns_done y s.resolve_type q s
    ])
unfolding After
query-After y s none i = tt
query-After y s (some q) i =
    if-After (not (y.isdone s.calls q)) _ _ i (answer-After y q s s.resolve_type i)

io_cb-Balanced :
    (y : Asyncns) (s : AsyncnsResolver) {kept : Bool} {t : AsyncnsResolver}
    → asyncns_io_cb y s ≡ some (kept, t)
    → Balanced s
    → Balanced t
unfolding asyncns_io_cb After
io_cb-Balanced y s e i = subst After e (
    query-After y (call wait s) (if s.asyncns_ctx then s.resolv_query else none)
      (Same-Balanced (refl, refl, refl, each _ refl refl refl) i))

split-Balanced :
    (b : Bool) (p q : Bool × AsyncnsResolver)
    → (b ≡ true → Balanced p.1)
    → (b ≡ false → Balanced q.1)
    → Balanced (if b then p else q).1
split-Balanced false p q f g = g refl
split-Balanced true p q f g = f refl

prep-Balanced :
    (y : Asyncns) (kind : Lookup) (s : AsyncnsResolver)
    → Balanced s
    → Balanced (asyncns_prep y kind s).1
unfolding asyncns_prep acquire
prep-Balanced y kind s i =
    split-Balanced s.asyncns_ctx _ _ (λ e. i)
      (λ e.
        split-Balanced (not (y.makes_ctx s.calls)) _ _
          (λ _. Same-Balanced (refl, refl, refl, each _ refl refl refl) i)
          (λ _. record {
            with_channel = refl;
            with_watch = refl;
            held =
                each _ (ap acquire (i.held context ∙ ap some e))
                  (ap acquire (i.held channel ∙ ap some e)) (ap acquire (i.held watch ∙ ap some e));
          }))

lookup_host-Balanced :
    (y : Asyncns) (s : AsyncnsResolver) (sa : SocketAddress)
    → Balanced s
    → Balanced (asyncns_lookup_host y s sa)
unfolding asyncns_lookup_host
lookup_host-Balanced y s sa i =
    let j =
      prep-Balanced y host (record s { sa = some (address_ref sa) })
        (Same-Balanced (refl, refl, refl, each _ refl refl refl) i) in
    if-Balanced (not (asyncns_prep y host (record s { sa = some (address_ref sa) })).0)
      (Same-Balanced (refl, refl, refl, each _ refl refl refl) j)
      (Same-Balanced (refl, refl, refl, each _ refl refl refl) j)

lookup_srv-Balanced :
    (y : Asyncns) (s : AsyncnsResolver) (name : List ℕ)
    → Balanced s
    → Balanced (asyncns_lookup_srv y s name)
unfolding asyncns_lookup_srv
lookup_srv-Balanced y s name i =
    let j = prep-Balanced y srv s i in
    if-Balanced (not (asyncns_prep y srv s).0)
      (Same-Balanced (refl, refl, refl, each _ refl refl refl) j)
      (Same-Balanced (refl, refl, refl, each _ refl refl refl) j)

if-Same : (b : Bool) (r s t : AsyncnsResolver) → Same r s → Same r t → Same r (if b then s else t)
if-Same false r s t i j = j
if-Same true r s t i j = i

dropped-Same :
    (s : AsyncnsResolver) (o : Option ℕ)
    → Same s (elim o [
      | none ↦ s
      | some q ↦
          if s.asyncns_ctx then record (call (query_cancel q) s) { resolv_query = none } else s
    ])
dropped-Same s none = (refl, refl, refl, each _ refl refl refl)
dropped-Same s (some q) =
    if-Same s.asyncns_ctx s _ s (refl, refl, refl, each _ refl refl refl)
      (refl, refl, refl, each _ refl refl refl)

drop_query-Same : (s : AsyncnsResolver) → Same s (drop_query s)
drop_query-Same s = dropped-Same s s.resolv_query

pub Reach-Balanced : (y : Asyncns) {s : AsyncnsResolver} → Reach y s → Balanced s
unfolding asyncns_resolver_new asyncns_resolver_cancel
Reach-Balanced y start = record {
  with_channel = refl;
  with_watch = refl;
  held = each _ refl refl refl;
}
Reach-Balanced y (lookup_host sa r) = lookup_host-Balanced y _ sa (Reach-Balanced y r)
Reach-Balanced y (lookup_srv name r) = lookup_srv-Balanced y _ name (Reach-Balanced y r)
Reach-Balanced y (cancel r) =
    finished-Balanced cancelled _ (Same-Balanced (drop_query-Same _) (Reach-Balanced y r))
Reach-Balanced y (io_cb e r) = io_cb-Balanced y _ e (Reach-Balanced y r)

-- Whatever lookups, cancellations and callbacks of the watch came before, a finalized resolver holds
-- no context, no channel and no watch: each one acquired was given up once, none was acquired while
-- another of its kind was held, and none was given up that was not held.
pub Reach-finalize :
    (y : Asyncns) {s : AsyncnsResolver}
    → Reach y s
    → (k : Kind) → owned k (asyncns_finalize s).calls ≡ some false
unfolding asyncns_finalize
Reach-finalize y r = cleanup-held _ (Reach-Balanced y r)
