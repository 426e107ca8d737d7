-- ===== src/Address.antt =====
-- lm-socket-address.c: the reference-counted socket address and its result iterator. A chain of
-- `struct addrinfo` is a list, NULL the empty one; the iterator's `current` is the rest of the chain.
mod Iteration
pub mod Lifetime
mod Ports
mod Tests
use lm_transport.Base.{
  ℕ, ◌+◌, ◌%◌, ℤ, Bool, true, false, Option, none, some, List, [], ◌∷◌, map, ◌==◌, if◌then◌else◌,
}

-- `sockaddr` is what `ai_addr` holds besides the port.
pub record Addrinfo : Type 0 where
  pub family : ℤ
  pub socktype : ℤ
  pub protocol : ℤ
  pub sin_port : ℕ
  pub sockaddr : List ℕ

-- `results_iter` is none before the iterator is made, and else its `current`; the iterator's `sa` is
-- the address that holds it.
pub record SocketAddress : Type 0 where
  pub hostname : List ℕ
  pub port : ℕ
  pub results : List Addrinfo
  pub results_iter : Option (List Addrinfo)
  pub ref_count : ℕ

unfoldable pub address_new : List ℕ → ℕ → SocketAddress
address_new hostname port = record {
  hostname = hostname;
  port = port;
  results = [];
  results_iter = none;
  ref_count = 1;
}

unfoldable pub get_host : SocketAddress → List ℕ
get_host sa = sa.hostname

pub get_port : SocketAddress → ℕ
get_port sa = sa.port

abbrev pub is_null {ℓ} : {A : Type ℓ} → List A → Bool
is_null [] = true
is_null (_ ∷ _) = false

unfoldable pub is_resolved : SocketAddress → Bool
is_resolved sa = if is_null sa.results then false else true

-- Makes the iterator, or resets it; the pointer returned is to the address's own iterator.
unfoldable pub get_result_iter : SocketAddress → SocketAddress
get_result_iter sa = record sa { results_iter = some sa.results }

-- `guint` arithmetic.
unfoldable pub address_ref : SocketAddress → SocketAddress
address_ref sa = record sa { ref_count = (sa.ref_count + 1) % 4294967296 }

-- What `unref` frees at the last reference.
pub data Freed : Type 0 where
  hostname : List ℕ → Freed
  addrinfo : List Addrinfo → Freed
  address : Freed

unfoldable pub release : SocketAddress → List Freed
release sa =
    hostname sa.hostname
    ∷ (if is_null sa.results then address ∷ [] else addrinfo sa.results ∷ address ∷ [])

-- The address while it lives on, and what is freed.
pub address_unref : SocketAddress → Option SocketAddress × List Freed
unfolding release
address_unref sa =
    let n = (sa.ref_count + 4294967295) % 4294967296 in
    if n == 0 then (none, release sa) else (some (record sa { ref_count = n }), [])

abbrev pub with_port : ℕ → Addrinfo → Addrinfo
with_port p a = record a { sin_port = p }

-- `htons` is the C library's; its argument is cut to sixteen bits.
unfoldable pub set_results : (htons : ℕ → ℕ) → SocketAddress → List Addrinfo → SocketAddress
set_results htons sa ai = record sa { results = map (with_port (htons (sa.port % 65536))) ai }

abbrev pop : List Addrinfo → Option Addrinfo × List Addrinfo
pop [] = (none, [])
pop (a ∷ rest) = (some a, rest)

-- What the iterator has still to give; nothing before it is made.
abbrev pub current : SocketAddress → List Addrinfo
current sa = elim sa.results_iter [ none ↦ [] | some l ↦ l ]

unfoldable pub iter_get_next : SocketAddress → Option Addrinfo × SocketAddress
iter_get_next sa = let (a, rest) = pop (current sa) in (a, record sa { results_iter = some rest })

pub iter_reset : SocketAddress → SocketAddress
iter_reset sa = record sa { results_iter = some sa.results }
