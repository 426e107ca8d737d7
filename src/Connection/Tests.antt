-- ===== src/Connection/Tests.antt =====
-- A connection to a host with two addresses, of which the system refuses the first.
use lm_transport.Base.{
  ◌≡◌, refl, ◌&&◌, ◌%◌, ◌==◌, ℕ, ℤ, pos, int_eq, not, true, none, if◌then◌else◌, some, List, [],
  ◌∷◌, map,
}
use lm_transport.Glib.{eof}
use lm_transport.Sock.{sock_is_blocking_error}
use lm_transport.Address.{Addrinfo, SocketAddress, address_new, is_null, is_resolved, with_port}
use lm_transport.Resolver.{host}
use lm_transport.Srv.{Nameser}
use lm_transport.Blocking.{System, BlockingResolver, blocking_class, blocking_new, add_idle}
use lm_transport.Socket.{Os, socket_new, attempt_connect}
use lm_transport.AsyncnsResolver.{
  Asyncns, AsyncnsResolver, wait, asyncns_class, asyncns_resolver_new, asyncns_lookup_host,
  asyncns_prep,
}
use lm_transport.Socket.Attempts.{Accepts}
use lm_transport.Connection.{Pair, connect, idle, readable}
use lm_transport.Connection.Outcome.{Ends, Opens, connect-outcome}
use lm_transport.Connection.Watched.{asked, watched-outcome}
use lm_transport.Blocking.{blocking_finalize}
use lm_transport.Blocking.References.{returned as blocking_returned}
use lm_transport.AsyncnsResolver.{asyncns_finalize}
use lm_transport.AsyncnsResolver.References.{returned as asyncns_returned}
use lm_transport.Socket.{LmSocket}
use lm_transport.Connection.References.{Balanced, idle-Balanced, readable-Balanced}
use lm_transport.Connection.Progress.{connect-Opens}

abbrev nameser : Nameser
nameser = record {
  header_size = 12;
  qfixedsz = 4;
  qdcount = λ m. 0;
  ancount = λ m. 0;
  get_short = λ m p. m p;
  dn_expand = λ m end p name. (some 1, []);
}

abbrev result : ℕ → Addrinfo
result n = record {
  family = ℤ.pos 2;
  socktype = ℤ.pos 1;
  protocol = ℤ.pos 6;
  sin_port = 0;
  sockaddr = n ∷ [];
}

abbrev names : System
names = record {
  getaddrinfo = λ h name. (pos 0, result 1 ∷ result 2 ∷ []);
  res_query = λ h name. (ℤ.negsuc 0, λ p. 0);
  htons = λ p. p;
  nameser = nameser;
  name_buffer = [];
}

abbrev fd_for : List ℕ → ℤ
fd_for [] = ℤ.pos 5
fd_for (c ∷ _) = if c == 1 then ℤ.negsuc 0 else ℤ.pos 5

abbrev sockets : Os
sockets = record {
  errno = record { einprogress = ℤ.pos 115; ealready = ℤ.pos 114; eisconn = ℤ.pos 106 };
  socket_fd = λ h a. fd_for a.sockaddr;
  connect_to = λ h fd a. ℤ.negsuc 0;
  last_error = λ h. ℤ.pos 115;
  so_error = λ h fd. ℤ.pos 111;
  new_channel = λ h. 7;
  new_source = λ h. 8;
  read_chars = λ h ch len. (eof, []);
  write_chars = λ h ch buf. (eof, 0);
}

abbrev address : SocketAddress
address = address_new (b'h' ∷ []) 5222

connect-outcome_example :
    let answer = names.getaddrinfo (add_idle host ∷ []) address.hostname in
    (p : Pair BlockingResolver) × (idle sockets names
        (connect blocking_class blocking_new sockets (socket_new address))
      ≡ some p)
    × Ends sockets
        (int_eq answer.0 (pos 0) && not (is_null answer.1))
        (map (with_port (names.htons (address.port % 65536))) answer.1)
        p.socket
unfolding is_resolved address_new
connect-outcome_example = connect-outcome sockets names address refl

second-Accepts : Accepts sockets (with_port 5222 (result 2))
unfolding attempt_connect sock_is_blocking_error
second-Accepts t = refl

connect-Opens_example :
    (p : Pair BlockingResolver) × (idle sockets names
        (connect blocking_class blocking_new sockets (socket_new address))
      ≡ some p)
    × Opens sockets p.socket
unfolding is_resolved address_new
connect-Opens_example =
    connect-Opens sockets names address (result 1 ∷ []) [] (result 2) refl refl second-Accepts

-- The same addresses from a library that answers the third query.
abbrev library : Asyncns
library = record {
  makes_ctx = λ h. true;
  getaddrinfo = λ h name. some 3;
  res_query = λ h name. none;
  isdone = λ h q. true;
  getaddrinfo_done = λ h q. (pos 0, result 1 ∷ result 2 ∷ []);
  res_done = λ h q. (ℤ.negsuc 0, λ p. 0);
  htons = λ p. p;
  nameser = nameser;
  name_buffer = [];
}

watched-outcome_example :
    let answer = library.getaddrinfo_done (wait ∷ (asked library address).calls) 3 in
    (p : Pair AsyncnsResolver) × (readable sockets library
        (connect (asyncns_class library) asyncns_resolver_new sockets (socket_new address))
      ≡ some p)
    × Ends sockets
        (int_eq answer.0 (pos 0))
        (map (with_port (library.htons (address.port % 65536))) answer.1)
        p.socket
unfolding is_resolved address_new asyncns_lookup_host asyncns_prep asyncns_resolver_new
watched-outcome_example = watched-outcome sockets library address 3 refl refl refl refl

idle-Balanced_example :
    (s : LmSocket) × (u : BlockingResolver) × (idle sockets names
        (connect blocking_class blocking_new sockets (socket_new address))
      ≡ some (record { socket = s; resolver = some u }))
    × Balanced s (blocking_returned (blocking_finalize u).calls)
unfolding is_resolved address_new
idle-Balanced_example = idle-Balanced sockets names address refl refl

readable-Balanced_example :
    (s : LmSocket) × (v : AsyncnsResolver) × (readable sockets library
        (connect (asyncns_class library) asyncns_resolver_new sockets (socket_new address))
      ≡ some (record { socket = s; resolver = some v }))
    × Balanced s (asyncns_returned (asyncns_finalize v).calls)
unfolding is_resolved address_new asyncns_lookup_host asyncns_prep asyncns_resolver_new
readable-Balanced_example = readable-Balanced sockets library address 3 refl refl refl refl refl
