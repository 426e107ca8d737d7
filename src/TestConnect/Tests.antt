-- ===== src/TestConnect/Tests.antt =====
-- test-connect.c with a host that answers: it writes when the channel opens, and closes when there is
-- something to read.
use lm_transport.Base.{
  ◌≡◌, refl, ◌⊎◌, ℕ, ℤ, true, false, none, some, List, [], ◌∷◌, is_some, length,
}
use lm_transport.Glib.{normal}
use lm_transport.Address.{
  Addrinfo, SocketAddress, address_new, address_ref, set_results, is_resolved, get_host,
}
use lm_transport.Resolver.{ok}
use lm_transport.Srv.{Nameser}
use lm_transport.AsyncnsResolver.{
  Asyncns, AsyncnsResolver, asyncns_resolver_new, asyncns_lookup_host, asyncns_prep, asyncns_io_cb,
}
use lm_transport.AsyncnsResolver.Outcome.{reports, outcome, host_outcome, Released, io_cb_some}
use lm_transport.Connection.{resolve}
use lm_transport.Socket.{
  Os, socket_new, socket_connect, attempt_connect_next, attempts, attempt_connect, with_iter,
  out_cb, resolver_finished_cb,
}
use lm_transport.Socket.Watches.{Unwatched}
use lm_transport.TestConnect.{
  Program, Runs, awaiting, finishes, on_finished, start, on_in, on_out, socket_connected,
  channel_opened, channel_readable, write_some, here, next, in_fires, out_fires,
}
use lm_transport.TestConnect.Freeing.{freed, Runs-freed}

abbrev result : Addrinfo
result = record {
  family = ℤ.pos 2;
  socktype = ℤ.pos 1;
  protocol = ℤ.pos 6;
  sin_port = 80;
  sockaddr = 1 ∷ [];
}

abbrev system : Os
system = record {
  errno = record { einprogress = ℤ.pos 115; ealready = ℤ.pos 114; eisconn = ℤ.pos 106 };
  socket_fd = λ h a. ℤ.pos 5;
  connect_to = λ h fd a. ℤ.pos 0;
  last_error = λ h. ℤ.pos 0;
  so_error = λ h fd. ℤ.pos 0;
  new_channel = λ h. 7;
  new_source = λ h. 8;
  read_chars = λ h ch len. (normal, b'o' ∷ b'k' ∷ []);
  write_chars = λ h ch buf. (normal, length buf);
}

abbrev message : List ℕ
message = b'H' ∷ b'e' ∷ b'y' ∷ []

abbrev yay : ℕ → List ℕ
yay n = b'Y' ∷ n ∷ []

abbrev host : List ℕ
host = b'h' ∷ []

abbrev nameser : Nameser
nameser = record {
  header_size = 12;
  qfixedsz = 4;
  qdcount = λ m. 0;
  ancount = λ m. 0;
  get_short = λ m p. m p;
  dn_expand = λ m end p name. (none, []);
}

-- A library that answers a lookup for a host with one address.
abbrev dns : Asyncns
dns = record {
  makes_ctx = λ h. true;
  getaddrinfo = λ h name. some 3;
  res_query = λ h name. some 4;
  isdone = λ h q. true;
  getaddrinfo_done = λ h q. (ℤ.pos 0, result ∷ []);
  res_done = λ h q. (ℤ.pos 0, λ p. p);
  htons = λ p. p;
  nameser = nameser;
  name_buffer = [];
}

abbrev asked : AsyncnsResolver
asked = asyncns_lookup_host dns asyncns_resolver_new (socket_new (address_new host 80)).sa

-- The address with its results.
abbrev filled_in : SocketAddress
filled_in = set_results dns.htons (address_ref (socket_new (address_new host 80)).sa) (result ∷ [])

answered :
    (v : AsyncnsResolver) × (asyncns_io_cb dns asked ≡ some (false, v))
    × Released v
    × (reports v.calls ≡ (ok, some filled_in) ∷ [])
unfolding asyncns_lookup_host asyncns_prep asyncns_resolver_new outcome host_outcome get_host
answered = io_cb_some dns asked 3 (ok, some filled_in) refl refl refl refl

abbrev released : AsyncnsResolver
released = answered.0

abbrev begun : Program
begun = start system dns message yay host 80

abbrev resolved : Program
resolved = on_finished system dns message yay ok filled_in released begun

abbrev connected : Program
connected = on_out system dns message yay resolved

asks : begun.resolver ≡ some asked
unfolding start resolve socket_connect socket_new address_new is_resolved
asks = refl

asked_watches : asked.watch_resolv ≡ true
unfolding asyncns_lookup_host asyncns_prep asyncns_resolver_new
asked_watches = refl

watches_out : is_some resolved.socket.out_watch ≡ true
unfolding start resolve socket_connect socket_new address_new is_resolved on_finished
    socket_connected resolver_finished_cb attempt_connect_next attempts attempt_connect with_iter
    asyncns_lookup_host asyncns_prep asyncns_resolver_new set_results address_ref
watches_out = refl

watches_in : is_some connected.socket.in_watch ≡ true
unfolding on_out channel_opened out_cb start resolve socket_connect socket_new address_new
    is_resolved on_finished socket_connected resolver_finished_cb attempt_connect_next attempts
    attempt_connect with_iter asyncns_lookup_host asyncns_prep asyncns_resolver_new set_results
    address_ref
watches_in = refl

host_freed : freed (on_in system dns message yay connected).effects ≡ 1
unfolding on_in channel_readable write_some on_out channel_opened out_cb start resolve
    socket_connect socket_new address_new is_resolved on_finished socket_connected
    resolver_finished_cb attempt_connect_next attempts attempt_connect with_iter asyncns_lookup_host
    asyncns_prep asyncns_resolver_new set_results address_ref
host_freed = refl

runs : Runs system dns message yay begun (on_in system dns message yay connected)
runs =
    next
      (next (next here (finishes ok (some filled_in) [] asks asked_watches answered.1 answered.3))
        (out_fires watches_out))
      (in_fires watches_in)

Runs-freed_example :
    let p = on_in system dns message yay connected in
    (freed p.effects ≡ 0)
    ⊎ ((freed p.effects ≡ 1)
        × (p.socket.io_channel ≡ none)
        × Unwatched p.socket
        × (awaiting p ≡ false))
Runs-freed_example =
    Runs-freed system dns message yay host 80 (on_in system dns message yay connected) runs
