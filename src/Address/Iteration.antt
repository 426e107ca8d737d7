-- ===== src/Address/Iteration.antt =====
-- The result iterator of lm-socket-address.c.
use native.Mathlib.Nat.{zero-add, suc-add}
use lm_transport.Base.{
  ℕ, zero, suc, ◌+◌, ◌≡◌, refl, ap, Option, none, some, List, [], ◌∷◌, ◌++◌, map, length,
}
use lm_transport.Address.{
  Addrinfo, SocketAddress, current, get_result_iter, iter_get_next, iter_reset,
}

-- The results of `n` calls of `lm_socket_address_iter_get_next`.
pub pull : ℕ → SocketAddress → List (Option Addrinfo)
pull zero sa = []
pull (suc n) sa = let (a, sa') = iter_get_next sa in a ∷ pull n sa'

pub nulls : ℕ → List (Option Addrinfo)
nulls zero = []
nulls (suc n) = none ∷ nulls n

pull-nulls : (n : ℕ) (sa : SocketAddress) → current sa ≡ [] → pull n sa ≡ nulls n
unfolding pull nulls iter_get_next
pull-nulls zero sa e = refl
pull-nulls (suc n) sa e = rw e (ap (◌∷◌ none) (pull-nulls n _ refl))

pull-current :
    (l : List Addrinfo) (k : ℕ) (sa : SocketAddress)
    → current sa ≡ l
    → pull (length l + k) sa ≡ map some l ++ nulls k
unfolding pull iter_get_next
pull-current [] k sa e = rw zero-add (pull-nulls k sa e)
pull-current (a ∷ l) k sa e = rw suc-add (rw e (ap (◌∷◌ (some a)) (pull-current l k _ refl)))

-- The address after `n` calls of `lm_socket_address_iter_get_next`.
pub walk : ℕ → SocketAddress → SocketAddress
walk zero sa = sa
walk (suc n) sa = walk n (iter_get_next sa).1

results-walk : (n : ℕ) (sa : SocketAddress) → (walk n sa).results ≡ sa.results
unfolding walk iter_get_next
results-walk zero sa = refl
results-walk (suc n) sa = results-walk n (iter_get_next sa).1

-- An iterator that is asked for again, or reset, however far it has got, gives every result of the
-- address in order, and NULL ever after.
pub pull_all :
    (sa : SocketAddress) (n k : ℕ)
    → let all = map some sa.results ++ nulls k in
      (pull (length sa.results + k) (get_result_iter (walk n sa)) ≡ all)
      × (pull (length sa.results + k) (iter_reset (walk n sa)) ≡ all)
unfolding get_result_iter iter_reset
pull_all sa n k =
    let restarted =
      pull-current sa.results k
        (record (walk n sa) { results = sa.results; results_iter = some sa.results }) refl in
    rw (results-walk n sa) (restarted, restarted)
