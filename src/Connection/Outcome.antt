-- ===== src/Connection/Outcome.antt =====
-- What becomes of a connection of lm-socket.c to a host that has still to be looked up.
use lm_transport.Base.{
  ◌≡◌, refl, sym, ◌∙◌, ap, ◌⊎◌, inl, inr, ◌%◌, pos, int_eq, ◌&&◌, not, Bool, true, false, some,
  List, [], ◌∷◌, ◌++◌, map, arith, if◌then◌else◌, subst,
}
use lm_transport.Address.{
  Addrinfo, SocketAddress, address_ref, current, is_null, is_resolved, set_results, with_port,
}
use lm_transport.Resolver.{ok, failed, host, resolver_lookup_host}
use lm_transport.Blocking.{
  System, BlockingResolver, add_idle, blocking_new, blocking_class, blocking_lookup_host,
  idle_fires,
}
use lm_transport.Blocking.Protocol.{reports as resolver_reports, lookup_host_reports}
use lm_transport.Socket.{
  LmSocket, Os, ok as connected_ok, failed_dns, failed_tried_all, lookup_host, socket_new,
  socket_connect, attempt_connect_next, resolver_finished_cb, out_cb, emit_connect_result, call,
}
use lm_transport.Socket.History.{tried, reports, onto}
use lm_transport.Socket.Invariant.{is_open, attempt_connect_next-connected}
use lm_transport.Socket.Attempts.{attempt_connect_next-tried}
use lm_transport.Connection.{Pair, connect, deliver, idle}

-- The socket while its host is looked up.
unfoldable pub waiting : SocketAddress → LmSocket
waiting sa = record (call lookup_host (socket_new sa)) {
  resolving = true;
  sa = address_ref (address_ref sa);
}

pub connect-waiting :
    (os : Os) (sa : SocketAddress)
    → is_resolved sa ≡ false
    → connect blocking_class blocking_new os (socket_new sa) ≡ record {
      socket = waiting sa;
      resolver = some (blocking_lookup_host blocking_new (address_ref sa));
    }
unfolding connect socket_connect socket_new waiting blocking_class resolver_lookup_host is_resolved
    address_ref
connect-waiting os sa h = ground arith

-- The socket when the lookup has reported.
unfoldable pub answered : Os → System → SocketAddress → LmSocket
answered os y sa =
    let answer = y.getaddrinfo (add_idle host ∷ []) sa.hostname in
    let own = address_ref (address_ref sa) in
    if int_eq answer.0 (pos 0) && not (is_null answer.1)
    then attempt_connect_next os (record (waiting sa) { sa = set_results y.htons own answer.1 })
    else emit_connect_result failed_dns (record (waiting sa) { sa = own })

pub idle_step :
    (os : Os) (y : System) (s : LmSocket) (r u : BlockingResolver)
    → r.idle_source ≡ some host
    → idle_fires y r ≡ some u
    → idle os y (record { socket = s; resolver = some r })
      ≡ some (record { socket = deliver os (resolver_reports u.calls) s; resolver = some u })
unfolding idle
idle_step os y s r u e f = ground arith

pub deliver_either :
    (os : Os) (b : Bool) (x z : SocketAddress) (s : LmSocket)
    → deliver os ((if b then (ok, some x) else (failed, some z)) ∷ []) s ≡ (
        if b
        then attempt_connect_next os (record s { sa = x })
        else emit_connect_result failed_dns (record s { sa = z }))
unfolding deliver resolver_finished_cb
deliver_either os false x z s = refl
deliver_either os true x z s = refl

pub idle-answered :
    (os : Os) (y : System) (sa : SocketAddress)
    → is_resolved sa ≡ false
    → (p : Pair BlockingResolver) × (idle os y
          (connect blocking_class blocking_new os (socket_new sa))
        ≡ some p)
      × (p.socket ≡ answered os y sa)
unfolding answered blocking_lookup_host blocking_new address_ref
idle-answered os y sa h =
    let r = blocking_lookup_host blocking_new (address_ref sa) in
    let (u, fires, reported, idle_after, unref) = lookup_host_reports y (address_ref sa) in
    (
      record { socket = deliver os (resolver_reports u.calls) (waiting sa); resolver = some u },
      ap (idle os y) (connect-waiting os sa h) ∙ idle_step os y (waiting sa) r u refl fires,
      ap (λ l. deliver os l (waiting sa)) reported ∙ deliver_either os _ _ _ (waiting sa),
    )

-- A callback for output on a socket that is not connected yet reports the connection.
out_cb-connects :
    (os : Os) (s : LmSocket)
    → s.connected ≡ false
    → let t = (out_cb os s).1 in
      (t.connected ≡ true)
      × (is_open t.calls ≡ true)
      × (reports t.calls ≡ connected_ok ∷ reports s.calls)
unfolding out_cb emit_connect_result
out_cb-connects os s c = ground arith

-- A callback for output would open the channel and report OK, where nothing was reported.
abbrev pub Opens : Os → LmSocket → Type 0
Opens os s =
    let t = (out_cb os s).1 in
    (reports s.calls ≡ [])
    × (t.connected ≡ true)
    × (is_open t.calls ≡ true)
    × (reports t.calls ≡ connected_ok ∷ [])

-- What the socket is like after a lookup that found these addresses, or none.
abbrev pub Ends : Os → Bool → List Addrinfo → LmSocket → Type 0
Ends os false found s = (tried s.calls ≡ []) × (reports s.calls ≡ failed_dns ∷ [])
Ends os true found s =
    (before : List Addrinfo) × (found ≡ before ++ current s.sa)
    × (tried s.calls ≡ onto before [])
    × (((current s.sa ≡ []) × (reports s.calls ≡ failed_tried_all ∷ [])) ⊎ Opens os s)

pub opens : (os : Os) (s : LmSocket) → s.connected ≡ false → reports s.calls ≡ [] → Opens os s
opens os s c r =
    let (connected, is_on, reported) = out_cb-connects os s c in
    (r, connected, is_on, reported ∙ ap (λ l. connected_ok ∷ l) r)

pub answered-Ends :
    (os : Os) (b : Bool) (sa x z : SocketAddress)
    → Ends os b x.results (
        if b
        then attempt_connect_next os (record (waiting sa) { sa = x })
        else emit_connect_result failed_dns (record (waiting sa) { sa = z }))
unfolding waiting socket_new emit_connect_result
answered-Ends os false sa x z = (refl, refl)
answered-Ends os true sa x z =
    let s = record (waiting sa) { sa = x } in
    let (before, split, order, reported) = attempt_connect_next-tried os s refl in
    (
      before,
      split,
      order,
      elim reported [
        | inl same ↦
            inr (opens os (attempt_connect_next os s) (attempt_connect_next-connected os s) same)
        | inr (none_left, all) ↦ inl (none_left, all)
      ],
    )

-- A socket for a host that is not resolved connects, and the idle callback runs. If the lookup fails
-- or has no result, DNS is reported and no address is tried. Else a first part of the results has
-- been tried in order, with the address's port; if none is left that may be reported, and if it is
-- not, a callback for output opens the channel and reports OK, and that alone.
pub connect-outcome :
    (os : Os) (y : System) (sa : SocketAddress)
    → is_resolved sa ≡ false
    → let answer = y.getaddrinfo (add_idle host ∷ []) sa.hostname in
      (p : Pair BlockingResolver) × (idle os y
          (connect blocking_class blocking_new os (socket_new sa))
        ≡ some p)
      × Ends os
          (int_eq answer.0 (pos 0) && not (is_null answer.1))
          (map (with_port (y.htons (sa.port % 65536))) answer.1)
          p.socket
unfolding answered set_results address_ref
connect-outcome os y sa h =
    let (p, e, f) = idle-answered os y sa h in
    let answer = y.getaddrinfo (add_idle host ∷ []) sa.hostname in
    let b = int_eq answer.0 (pos 0) && not (is_null answer.1) in
    let own = address_ref (address_ref sa) in
    (
      p,
      e,
      subst (Ends os b (map (with_port (y.htons (sa.port % 65536))) answer.1)) (sym f)
          (answered-Ends os b sa (set_results y.htons own answer.1) own),
    )
