-- ===== src/Address/Ports.antt =====
-- `lm_socket_address_set_results` of lm-socket-address.c.
use lm_transport.Base.{if◌then◌else◌, ℕ, ◌%◌, ◌≡◌, refl, ap, List, [], ◌∷◌, map, All, true, false}
use lm_transport.Address.{is_null, Addrinfo, SocketAddress, with_port, set_results, is_resolved}

-- The results without their ports.
abbrev pub strip : Addrinfo → Addrinfo
strip a = record a { sin_port = 0 }

ports : (p : ℕ) (ai : List Addrinfo) → All (λ a. a.sin_port ≡ p) (map (with_port p) ai)
ports p [] = tt
ports p (a ∷ ai) = (refl, ports p ai)

strips : (p : ℕ) (ai : List Addrinfo) → map strip (map (with_port p) ai) ≡ map strip ai
strips p [] = refl
strips p (a ∷ ai) = ap (◌∷◌ (strip a)) (strips p ai)

unresolved :
    (p : ℕ) (ai : List Addrinfo)
    → (if is_null (map (with_port p) ai) then false else true) ≡ false
    → ai ≡ []
unresolved p [] h = refl
unresolved p (a ∷ ai) h = cc

-- Every result gets the address's port in network order, and is else the resolver's, in its order;
-- host, port, iterator and references stay. The address is resolved unless there is no result.
pub set_results_lem :
    (htons : ℕ → ℕ) (sa : SocketAddress) (ai : List Addrinfo)
    → let t = set_results htons sa ai in
      All (λ a. a.sin_port ≡ htons (sa.port % 65536)) t.results
      × (map strip t.results ≡ map strip ai)
      × (t ≡ record sa { results = t.results })
      × (is_resolved t ≡ false → ai ≡ [])
unfolding set_results is_resolved
set_results_lem htons sa ai = (ports _ ai, strips _ ai, refl, unresolved _ ai)
