-- ===== src/AsyncnsResolver/Tests.antt =====
-- Lookups of lm-asyncns-resolver.c with a library that answers at once, with one that gives no
-- context, and with one that refuses every query.
use lm_transport.Base.{arith, ◌≡◌, refl, pos, negsuc, Bool, true, false, none, some, [], ◌∷◌}
use lm_transport.Address.{SocketAddress, address_new}
use lm_transport.Srv.{Nameser}
use lm_transport.AsyncnsResolver.{
  wait, Asyncns, AsyncnsResolver, asyncns_resolver_new, asyncns_lookup_host, asyncns_prep,
  asyncns_io_cb, asyncns_resolver_cancel, asyncns_finalize, call,
}
use lm_transport.AsyncnsResolver.Balance.{context, owned}
use lm_transport.AsyncnsResolver.Resources.{start, lookup_host, cancel, Reach-finalize}
use lm_transport.AsyncnsResolver.Queries.{Accepting, Reach-io_cb}
use lm_transport.AsyncnsResolver.Outcome.{reports, outcome, Ends, io_cb_reports}

abbrev nameser : Nameser
nameser = record {
  header_size = 12;
  qfixedsz = 4;
  qdcount = λ m. 0;
  ancount = λ m. 1;
  get_short = λ m p. m p;
  dn_expand = λ m end p name. (some 1, b'a' ∷ []);
}

abbrev library : (makes_ctx takes isdone : Bool) → Asyncns
library makes_ctx takes isdone = record {
  makes_ctx = λ h. makes_ctx;
  getaddrinfo = λ h name. elim takes [ true ↦ some 3 | false ↦ none ];
  res_query = λ h name. elim takes [ true ↦ some 4 | false ↦ none ];
  isdone = λ h q. isdone;
  getaddrinfo_done = λ h q. (negsuc 1, []);
  res_done = λ h q. (pos 60, λ p. p);
  htons = λ p. p;
  nameser = nameser;
  name_buffer = [];
}

abbrev example_address : SocketAddress
example_address = address_new (b'h' ∷ []) 5222

abbrev asked : AsyncnsResolver
asked = asyncns_lookup_host (library true true true) asyncns_resolver_new example_address

Reach-finalize_example :
    owned context
      (asyncns_finalize (
        asyncns_resolver_cancel (
          asyncns_lookup_host (library true true true) asyncns_resolver_new example_address))).calls
    ≡ some false
Reach-finalize_example =
    Reach-finalize (library true true true) (cancel (lookup_host example_address start)) context

io_cb_reports_example :
    Ends
      (outcome (library true true true) 3 (call wait asked))
      (reports asked.calls)
      (asyncns_io_cb (library true true true) asked)
unfolding asyncns_lookup_host asyncns_prep asyncns_resolver_new
io_cb_reports_example = io_cb_reports (library true true true) asked 3 refl refl refl

-- A library whose responses for services are empty.
abbrev quiet : Asyncns
quiet = record (library true true true) { res_done = λ h q. (pos 0, λ p. p) }

abbrev accepting : Accepting quiet
accepting = record {
  hosts = λ h name. refl;
  services = λ h name. refl;
  names = λ h q e. ground (arith, e);
}

io_cb_returns :
    (kept : Bool) × (t : AsyncnsResolver) × (asyncns_io_cb quiet
        (asyncns_lookup_host quiet asyncns_resolver_new example_address)
      ≡ some (kept, t))
unfolding asyncns_lookup_host asyncns_prep asyncns_resolver_new
io_cb_returns = Reach-io_cb quiet accepting (lookup_host example_address start) refl
