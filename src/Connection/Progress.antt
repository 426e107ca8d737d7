-- ===== src/Connection/Progress.antt =====
-- A connection of lm-socket.c to a host that has an address which the system accepts.
use mathlib.Core.List.{map-append}
use lm_transport.Base.{◌≡◌, refl, sym, ◌∙◌, ◌%◌, pos, false, some, List, [], ◌∷◌, ◌++◌, map, subst}
use lm_transport.Address.{
  Addrinfo, SocketAddress, address_ref, is_null, is_resolved, set_results, with_port,
}
use lm_transport.Resolver.{host}
use lm_transport.Blocking.{System, BlockingResolver, blocking_class, blocking_new, add_idle}
use lm_transport.Socket.{Os, socket_new, attempt_connect_next}
use lm_transport.Socket.Invariant.{attempt_connect_next-connected}
use lm_transport.Socket.Attempts.{Accepts, Accepts-attempt_connect_next}
use lm_transport.Connection.{Pair, connect, idle}
use lm_transport.Connection.Outcome.{Opens, opens, waiting, answered, idle-answered}

is_null-append :
    (before after : List Addrinfo) (a : Addrinfo) → is_null (before ++ a ∷ after) ≡ false
is_null-append [] after a = refl
is_null-append (b ∷ before) after a = refl

answered-found :
    (os : Os) (y : System) (sa : SocketAddress) (before after : List Addrinfo) (a : Addrinfo)
    → y.getaddrinfo (add_idle host ∷ []) sa.hostname ≡ (pos 0, before ++ a ∷ after)
    → answered os y sa
      ≡ attempt_connect_next os (record (waiting sa) {
        sa = set_results y.htons (address_ref (address_ref sa)) (before ++ a ∷ after);
      })
unfolding answered
answered-found os y sa before after a e = rw (e, is_null-append before after a) refl

-- A socket for a host that is not resolved connects, and the idle callback runs. If the lookup
-- succeeds and the system accepts one of the results whenever it is tried, with the address's port,
-- then nothing is reported yet, and a callback for output opens the channel and reports OK.
pub connect-Opens :
    (os : Os) (y : System) (sa : SocketAddress) (before after : List Addrinfo) (a : Addrinfo)
    → is_resolved sa ≡ false
    → y.getaddrinfo (add_idle host ∷ []) sa.hostname ≡ (pos 0, before ++ a ∷ after)
    → Accepts os (with_port (y.htons (sa.port % 65536)) a)
    → (p : Pair BlockingResolver) × (idle os y
          (connect blocking_class blocking_new os (socket_new sa))
        ≡ some p)
      × Opens os p.socket
unfolding set_results address_ref waiting socket_new
connect-Opens os y sa before after a h e accepts =
    let (p, i, f) = idle-answered os y sa h in
    let port = with_port (y.htons (sa.port % 65536)) in
    let s = record (waiting sa) {
      sa = set_results y.htons (address_ref (address_ref sa)) (before ++ a ∷ after);
    } in
    let quiet =
      Accepts-attempt_connect_next os (map port before) (map port after) (port a) s accepts refl
        (map-append port before (a ∷ after)) in
    (
      p,
      i,
      subst (Opens os) (sym (f ∙ answered-found os y sa before after a e))
          (opens os (attempt_connect_next os s) (attempt_connect_next-connected os s) quiet),
    )
