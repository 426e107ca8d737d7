-- ===== src/Connection/Watched.antt =====
-- A connection of lm-socket.c to a host that lm-asyncns-resolver.c looks up.
use lm_transport.Base.{
  ◌≡◌, sym, ◌∙◌, ap, ℕ, ◌%◌, pos, int_eq, true, false, some, [], ◌∷◌, map, subst, arith,
}
use lm_transport.Address.{SocketAddress, address_ref, is_resolved, set_results, with_port}
use lm_transport.Resolver.{resolver_lookup_host}
use lm_transport.AsyncnsResolver.{
  Asyncns, AsyncnsResolver, wait, asyncns_class, asyncns_resolver_new, asyncns_lookup_host,
  asyncns_io_cb,
}
use lm_transport.AsyncnsResolver.Outcome.{reports as asyncns_reports}
use lm_transport.Resolvers.{host_report, lookup_host-reports}
use lm_transport.Socket.{LmSocket, Os, socket_new, socket_connect}
use lm_transport.Connection.{Pair, connect, deliver, readable}
use lm_transport.Connection.Outcome.{Ends, waiting, deliver_either, answered-Ends}

-- The asynchronous resolver, asked for the host of an address that the socket shares.
abbrev pub asked : Asyncns → SocketAddress → AsyncnsResolver
asked a sa = asyncns_lookup_host a asyncns_resolver_new (address_ref sa)

pub connect-watched :
    (a : Asyncns) (os : Os) (sa : SocketAddress)
    → is_resolved sa ≡ false
    → connect (asyncns_class a) asyncns_resolver_new os (socket_new sa)
      ≡ record { socket = waiting sa; resolver = some (asked a sa) }
unfolding connect socket_connect socket_new waiting asyncns_class resolver_lookup_host is_resolved
    address_ref
connect-watched a os sa h = ground arith

pub readable_step :
    (os : Os) (a : Asyncns) (s : LmSocket) (r u : AsyncnsResolver)
    → r.watch_resolv ≡ true
    → asyncns_io_cb a r ≡ some (false, u)
    → readable os a (record { socket = s; resolver = some r })
      ≡ some (record { socket = deliver os (asyncns_reports u.calls) s; resolver = some u })
unfolding readable
readable_step os a s r u w e = ground arith

-- A socket for a host that is not resolved connects, with a resolver whose library takes the query
-- and has answered it when the watch's callback runs. If the answer is an error, DNS is reported and
-- no address is tried. Else a first part of the results has been tried in order, with the address's
-- port; if none is left that may be reported, and if it is not, a callback for output opens the
-- channel and reports OK, and that alone.
pub watched-outcome :
    (os : Os) (a : Asyncns) (sa : SocketAddress) (q : ℕ)
    → let t = asked a sa in
      let answer = a.getaddrinfo_done (wait ∷ t.calls) q in
      is_resolved sa ≡ false
      → a.makes_ctx [] ≡ true
      → t.resolv_query ≡ some q
      → a.isdone (wait ∷ t.calls) q ≡ true
      → (p : Pair AsyncnsResolver) × (readable os a
            (connect (asyncns_class a) asyncns_resolver_new os (socket_new sa))
          ≡ some p)
        × Ends os
            (int_eq answer.0 (pos 0))
            (map (with_port (a.htons (sa.port % 65536))) answer.1)
            p.socket
unfolding host_report set_results address_ref
watched-outcome os a sa q h m e d =
    let r = asked a sa in
    let answer = a.getaddrinfo_done (wait ∷ r.calls) q in
    let b = int_eq answer.0 (pos 0) in
    let own = address_ref (address_ref sa) in
    let x = set_results a.htons own answer.1 in
    let (watch, u, calls_back, reported) = lookup_host-reports a (address_ref sa) q m e d in
    (
      record { socket = deliver os (asyncns_reports u.calls) (waiting sa); resolver = some u },
      ap (readable os a) (connect-watched a os sa h)
          ∙ readable_step os a (waiting sa) r u watch calls_back,
      subst (Ends os b (map (with_port (a.htons (sa.port % 65536))) answer.1))
          (sym
            (ap (λ l. deliver os l (waiting sa)) reported ∙ deliver_either os b x own (waiting sa)))
          (answered-Ends os b sa x own),
    )
