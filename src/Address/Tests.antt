-- ===== src/Address/Tests.antt =====
-- An address of lm-socket-address.c with two results, on a machine that swaps the bytes of a port.
use lm_transport.Base.{◌≡◌, refl, ◌+◌, ◌*◌, ◌/◌, ◌%◌, ℕ, ℤ, List, [], ◌∷◌, map}
use lm_transport.Address.{Addrinfo, SocketAddress, address_new, set_results}

abbrev result : ℕ → Addrinfo
result n = record {
  family = ℤ.pos 2;
  socktype = ℤ.pos 1;
  protocol = ℤ.pos 6;
  sin_port = 0;
  sockaddr = n ∷ [];
}

abbrev swap_bytes : ℕ → ℕ
swap_bytes p = p % 256 * 256 + p / 256

abbrev unresolved_address : SocketAddress
unresolved_address = address_new (b'h' ∷ []) 5222

abbrev answers : List Addrinfo
answers = result 1 ∷ result 2 ∷ []

abbrev resolved : SocketAddress
resolved = set_results swap_bytes unresolved_address answers

ports_swapped : map (λ a. a.sin_port) resolved.results ≡ 26132 ∷ 26132 ∷ []
unfolding set_results address_new
ports_swapped = refl
