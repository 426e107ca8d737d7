-- ===== src/TestSecure/Tests.antt =====
-- test-secure.c with a host that answers: the handshake is made when the channel opens, and two bytes
-- are read before the host hangs up.
use lm_transport.Base.{
  ◌≡◌, refl, ◌⊎◌, ℕ, ℤ, pos, negsuc, true, false, none, some, List, [], ◌∷◌, is_some, length, All,
  arith,
}
use lm_transport.Glib.{normal}
use lm_transport.Address.{
  Addrinfo, SocketAddress, address_new, address_ref, set_results, is_resolved, get_host,
}
use lm_transport.Resolver.{ok}
use lm_transport.Srv.{Nameser}
use lm_transport.AsyncnsResolver.{
  Asyncns, AsyncnsResolver, asyncns_resolver_new, asyncns_lookup_host, asyncns_prep, asyncns_io_cb,
}
use lm_transport.AsyncnsResolver.Outcome.{reports, outcome, host_outcome, Released, io_cb_some}
use lm_transport.Connection.{resolve}
use lm_transport.Socket.{
  Os, socket_new, socket_connect, attempt_connect_next, attempts, attempt_connect, with_iter,
  out_cb, in_cb, resolver_finished_cb,
}
use lm_transport.Socket.Watches.{Unwatched}
use lm_transport.Gnutls.{Gnutls, start_handshake, gnutls_read, settle, read_status, retries}
use lm_transport.Gnutls.Records.{AtMost}
use lm_transport.TestSecure.{
  Program, Runs, awaiting, finishes, on_finished, Effect, handshakes, reads, frees_host, quits,
  start, on_in, on_out, on_hup, reported, socket_connected, channels_opened, channels_readable,
  read_len, channels_closed, here, next, in_fires, out_fires, hup_fires,
}
use lm_transport.TestSecure.Effects.{freed, Sound}
use lm_transport.TestSecure.Handling.{Runs-Sound}

abbrev result : Addrinfo
result = record {
  family = ℤ.pos 2;
  socktype = ℤ.pos 1;
  protocol = ℤ.pos 6;
  sin_port = 443;
  sockaddr = 1 ∷ [];
}

abbrev system : Os
system = record {
  errno = record { einprogress = ℤ.pos 115; ealready = ℤ.pos 114; eisconn = ℤ.pos 106 };
  socket_fd = λ h a. ℤ.pos 5;
  connect_to = λ h fd a. ℤ.pos 0;
  last_error = λ h. ℤ.pos 0;
  so_error = λ h fd. ℤ.pos 0;
  new_channel = λ h. 7;
  new_source = λ h. 8;
  read_chars = λ h ch len. (normal, b'o' ∷ b'k' ∷ []);
  write_chars = λ h ch buf. (normal, length buf);
}

abbrev peer : Gnutls
peer = record {
  e_interrupted = negsuc 51;
  e_again = negsuc 27;
  e_no_certificate_found = negsuc 48;
  handshake = pos 0;
  verify_peers2 = pos 0;
  cert_invalid = false;
  cert_revoked = false;
  expiration_time = 300;
  activation_time = 50;
  now = 200;
  is_x509 = true;
  cert_list = some (48 ∷ []);
  crt_import = λ datum. pos 0;
  check_hostname = λ server. true;
  fingerprint_code = λ datum. pos 0;
  digest = 1 ∷ 2 ∷ [];
  digest_size = 2;
  fingerprint_text = 1 ∷ 2 ∷ [];
}

-- It has to be asked again once.
abbrev records : List Effect → List ℤ
records h = negsuc 27 ∷ pos 2 ∷ []

records-AtMost : (h : List Effect) → All (AtMost 1023) (records h)
records-AtMost h = ground arith

abbrev host : List ℕ
host = b'h' ∷ []

abbrev nameser : Nameser
nameser = record {
  header_size = 12;
  qfixedsz = 4;
  qdcount = λ m. 0;
  ancount = λ m. 0;
  get_short = λ m p. m p;
  dn_expand = λ m end p name. (none, []);
}

-- A library that answers a lookup for a host with one address.
abbrev dns : Asyncns
dns = record {
  makes_ctx = λ h. true;
  getaddrinfo = λ h name. some 3;
  res_query = λ h name. some 4;
  isdone = λ h q. true;
  getaddrinfo_done = λ h q. (ℤ.pos 0, result ∷ []);
  res_done = λ h q. (ℤ.pos 0, λ p. p);
  htons = λ p. p;
  nameser = nameser;
  name_buffer = [];
}

abbrev asked : AsyncnsResolver
asked = asyncns_lookup_host dns asyncns_resolver_new (socket_new (address_new host 443)).sa

-- The address with its results.
abbrev filled_in : SocketAddress
filled_in = set_results dns.htons (address_ref (socket_new (address_new host 443)).sa) (result ∷ [])

answered :
    (v : AsyncnsResolver) × (asyncns_io_cb dns asked ≡ some (false, v))
    × Released v
    × (reports v.calls ≡ (ok, some filled_in) ∷ [])
unfolding asyncns_lookup_host asyncns_prep asyncns_resolver_new outcome host_outcome get_host
answered = io_cb_some dns asked 3 (ok, some filled_in) refl refl refl refl

abbrev released : AsyncnsResolver
released = answered.0

abbrev begun : Program
begun = start system dns (λ h. peer) records host 443

abbrev resolved : Program
resolved = on_finished system dns (λ h. peer) records host ok filled_in released begun

asks : begun.resolver ≡ some asked
unfolding start resolve socket_connect socket_new address_new is_resolved
asks = refl

asked_watches : asked.watch_resolv ≡ true
unfolding asyncns_lookup_host asyncns_prep asyncns_resolver_new
asked_watches = refl

abbrev connected : Program
connected = on_out system dns (λ h. peer) records host resolved

abbrev after_read : Program
after_read = record connected {
  socket = (in_cb connected.socket).1;
  effects = reads (some 2) ∷ connected.effects;
}

watches_out : is_some resolved.socket.out_watch ≡ true
unfolding on_finished reported resolver_finished_cb start resolve socket_connect socket_new
    address_new is_resolved socket_connected attempt_connect_next attempts attempt_connect with_iter
    asyncns_lookup_host asyncns_prep asyncns_resolver_new set_results address_ref
watches_out = refl

reads_two :
    (is_some connected.socket.in_watch ≡ true)
    × (on_in system dns (λ h. peer) records host connected ≡ some after_read)
unfolding on_in in_cb channels_readable read_len gnutls_read settle read_status retries on_out
    channels_opened start_handshake out_cb on_finished reported resolver_finished_cb start resolve
    socket_connect socket_new address_new is_resolved socket_connected attempt_connect_next attempts
    attempt_connect with_iter asyncns_lookup_host asyncns_prep asyncns_resolver_new set_results
    address_ref
reads_two = (refl, refl)

watches_hup : is_some after_read.socket.hup_watch ≡ true
unfolding on_out in_cb channels_opened start_handshake out_cb on_finished reported
    resolver_finished_cb start resolve socket_connect socket_new address_new is_resolved
    socket_connected attempt_connect_next attempts attempt_connect with_iter asyncns_lookup_host
    asyncns_prep asyncns_resolver_new set_results address_ref
watches_hup = refl

abbrev hung_up : Program
hung_up = on_hup system dns (λ h. peer) records host after_read

done : hung_up.effects ≡ quits ∷ frees_host ∷ reads (some 2) ∷ handshakes ∷ []
unfolding on_hup channels_closed on_out in_cb channels_opened start_handshake out_cb on_finished
    reported resolver_finished_cb start resolve socket_connect socket_new address_new is_resolved
    socket_connected attempt_connect_next attempts attempt_connect with_iter asyncns_lookup_host
    asyncns_prep asyncns_resolver_new set_results address_ref
done = refl

runs : Runs system dns (λ h. peer) records host begun hung_up
runs =
    next
      (next
        (next (next here (finishes ok (some filled_in) [] asks asked_watches answered.1 answered.3))
          (out_fires watches_out))
        (in_fires reads_two.0 reads_two.1))
      (hup_fires watches_hup)

Runs-Sound_example :
    Sound hung_up.effects
    × ((freed hung_up.effects ≡ 0)
        ⊎ ((freed hung_up.effects ≡ length hung_up.channels)
            × (hung_up.socket.io_channel ≡ none)
            × Unwatched hung_up.socket
            × (awaiting hung_up ≡ false)))
Runs-Sound_example = Runs-Sound system dns (λ h. peer) records host 443 hung_up records-AtMost runs
