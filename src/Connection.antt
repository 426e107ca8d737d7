-- ===== src/Connection.antt =====
-- A socket of lm-socket.c with the resolver that lm-resolver.c makes for it: one of
-- lm-asyncns-resolver.c, since lm-resolver.c defines HAVE_ASYNCNS itself, or one of
-- lm-blocking-resolver.c, its other branch. The address is one object: what the resolver does to it,
-- the socket sees.
pub mod Outcome
mod Progress
mod Watched
mod References
mod Tests
use lm_transport.Base.{Bool, true, false, Option, none, some, List, [], ◌∷◌, not, if◌then◌else◌}
use lm_transport.Address.{SocketAddress, address_ref, is_resolved}
use lm_transport.Resolver.{ResolverResult, ResolverClass, resolver_lookup_host}
use lm_transport.Blocking.{System, BlockingResolver, idle_fires}
use lm_transport.Blocking.Protocol.{reports as blocking_reports}
use lm_transport.AsyncnsResolver.{
  Asyncns, AsyncnsResolver, asyncns_io_cb, asyncns_lookup_host, asyncns_resolver_new,
}
use lm_transport.AsyncnsResolver.Outcome.{reports as asyncns_reports}
use lm_transport.Socket.{LmSocket, Os, socket_connect, resolver_finished_cb}

pub record Pair (R : Type 0) : Type 0 where
  pub socket : LmSocket
  pub resolver : Option R

-- lm_socket_connect with lm_resolver_lookup_host on the new resolver `made`, which takes a reference
-- to the address.
pub connect : {R : Type 0} → ResolverClass R → (made : R) → Os → LmSocket → Pair R
connect class made os s =
    let t = socket_connect os s in
    if is_resolved s.sa then record { socket = t; resolver = none } else record {
      socket = record t { sa = address_ref t.sa };
      resolver = resolver_lookup_host class made s.sa;
    }

-- The lookup that lm_socket_connect has asked for, by the resolver of the class that is defined, with a
-- reference to the address of its own.
unfoldable pub resolve : Asyncns → LmSocket → LmSocket × Option AsyncnsResolver
resolve a t =
    if t.resolving
    then (
      record t { sa = address_ref t.sa },
      some (asyncns_lookup_host a asyncns_resolver_new t.sa),
    )
    else (t, none)

-- The last `finished` signal reaches the socket's handler.
pub deliver : Os → List (ResolverResult × Option SocketAddress) → LmSocket → LmSocket
deliver os [] s = s
deliver os ((r, none) ∷ _) s = resolver_finished_cb os r s
deliver os ((r, some sa) ∷ _) s = resolver_finished_cb os r (record s { sa = sa })

-- The main context runs the blocking resolver's idle callback, if there is one; none stands for a
-- NULL pointer that is followed.
pub idle : Os → System → Pair BlockingResolver → Option (Pair BlockingResolver)
unfolding deliver
idle os y p = elim p.resolver [
  | none ↦ some p
  | some r ↦ elim r.idle_source [
    | none ↦ some p
    | some _ ↦ elim (idle_fires y r) [
      | none ↦ none
      | some r' ↦
          some (record {
            socket = deliver os (blocking_reports r'.calls) p.socket;
            resolver = some r';
          })
    ]
  ]
]

-- The main context runs the callback of the asynchronous resolver's watch, if there is one. A
-- callback that keeps the watch has emitted nothing.
pub readable : Os → Asyncns → Pair AsyncnsResolver → Option (Pair AsyncnsResolver)
unfolding deliver
readable os y p = elim p.resolver [
  | none ↦ some p
  | some r ↦ if not r.watch_resolv then some p else elim (asyncns_io_cb y r) [
    | none ↦ none
    | some (true, r') ↦ some (record { socket = p.socket; resolver = some r' })
    | some (false, r') ↦
        some
          (record { socket = deliver os (asyncns_reports r'.calls) p.socket; resolver = some r' })
  ]
]
