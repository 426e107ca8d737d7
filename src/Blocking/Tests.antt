-- ===== src/Blocking/Tests.antt =====
-- A lookup of lm-blocking-resolver.c that the system answers with one address.
use lm_transport.Base.{◌≡◌, refl, suc, ℤ, pos, none, some, [], ◌∷◌, length}
use lm_transport.Address.{Addrinfo, SocketAddress, address_new}
use lm_transport.Resolver.{srv}
use lm_transport.Srv.{Nameser}
use lm_transport.Blocking.{
  System, BlockingResolver, blocking_new, blocking_lookup_host, blocking_lookup_srv,
  blocking_cancel, idle_fires,
}
use lm_transport.Blocking.Protocol.{
  reports, unrefs, start, looks_host, looks_srv, cancels, Reach-fires,
}

abbrev nameser : Nameser
nameser = record {
  header_size = 12;
  qfixedsz = 4;
  qdcount = λ m. 0;
  ancount = λ m. 1;
  get_short = λ m p. m p;
  dn_expand = λ m end p name. (some 1, b'a' ∷ []);
}

abbrev result : Addrinfo
result = record {
  family = ℤ.pos 2;
  socktype = ℤ.pos 1;
  protocol = ℤ.pos 6;
  sin_port = 0;
  sockaddr = 1 ∷ [];
}

abbrev system : System
system = record {
  getaddrinfo = λ h name. (pos 0, result ∷ []);
  res_query = λ h name. (pos 60, λ p. p);
  htons = λ p. p;
  nameser = nameser;
  name_buffer = [];
}

abbrev example_address : SocketAddress
example_address = address_new (b'h' ∷ []) 5222

-- A host lookup that is cancelled, and then a service lookup.
abbrev waiting : BlockingResolver
waiting =
    blocking_lookup_srv (blocking_cancel (blocking_lookup_host blocking_new example_address))
      (b's' ∷ [])

Reach-fires_example :
    (t : BlockingResolver) × (idle_fires system waiting ≡ some t)
    × (t.idle_source ≡ none)
    × (length (reports t.calls) ≡ suc (length (reports waiting.calls)))
    × (unrefs t.calls ≡ suc (unrefs waiting.calls))
unfolding blocking_new blocking_lookup_host blocking_cancel blocking_lookup_srv
Reach-fires_example =
    Reach-fires system srv
      (looks_srv (b's' ∷ []) refl (cancels (looks_host example_address refl start))) refl
