-- ===== src/Address/Lifetime.antt =====
-- The references of lm-socket-address.c.
use native.Mathlib.Numerals.{add-one}
use lm_transport.Base.{ℕ, zero, suc, ◌+◌, ◌<◌, ◌≡◌, refl, ◌∙◌, Option, none, some, List, [], arith}
use lm_transport.Address.{SocketAddress, Freed, address_ref, address_unref, release}

-- `n` calls of `lm_socket_address_ref`.
pub refs : ℕ → SocketAddress → SocketAddress
refs zero sa = sa
refs (suc n) sa = refs n (address_ref sa)

-- `n` calls of `lm_socket_address_unref`, made while the address lives, and what they free.
pub unrefs : ℕ → SocketAddress → Option SocketAddress × List Freed
unrefs zero sa = (some sa, [])
unrefs (suc n) sa =
    let (left, freed) = address_unref sa in elim left [ none ↦ (none, freed) | some t ↦ unrefs n t ]

refs-count :
    (n k : ℕ) (sa : SocketAddress)
    → sa.ref_count ≡ k
    → k + n < 4294967296
    → refs n sa ≡ record sa { ref_count = k + n }
unfolding refs address_ref
refs-count zero k sa e h = ground arith
refs-count (suc n) k sa e h =
    refs-count n (k + 1) (address_ref sa) (ground arith) (omega arith) ∙ ground arith

unref_kept :
    (k : ℕ) (sa : SocketAddress)
    → sa.ref_count ≡ suc (suc k)
    → suc (suc k) < 4294967296
    → address_unref sa ≡ (some (record sa { ref_count = suc k }), [])
unfolding address_unref
unref_kept k sa e h = ground arith

unref_last : (sa : SocketAddress) → sa.ref_count ≡ 1 → address_unref sa ≡ (none, release sa)
unfolding address_unref
unref_last sa e = ground arith

pub unrefs_kept :
    (n k : ℕ) (sa : SocketAddress)
    → sa.ref_count ≡ suc (k + n)
    → suc (k + n) < 4294967296
    → unrefs n sa ≡ (some (record sa { ref_count = suc k }), [])
unfolding unrefs
unrefs_kept zero k sa e h = ground arith
unrefs_kept (suc n) k sa e h =
    rw (unref_kept (k + n) sa (omega arith) (omega arith), unrefs)
      (unrefs_kept n k (record sa { ref_count = suc (k + n) }) refl (omega arith))

pub unrefs_last :
    (n : ℕ) (sa : SocketAddress)
    → sa.ref_count ≡ suc n
    → suc n < 4294967296
    → unrefs (suc n) sa ≡ (none, release sa)
unfolding unrefs release
unrefs_last zero sa e h = ground (arith, unref_last sa e)
unrefs_last (suc n) sa e h =
    rw (unref_kept n sa e h, unrefs)
      (unrefs_last n (record sa { ref_count = suc n }) refl (omega arith))

-- While the count fits a `guint`, an address with one reference survives as many releases as
-- references were taken and is then as before; one release more frees it, with its host name and
-- the results it holds.
pub unrefs-refs :
    (n : ℕ) (sa : SocketAddress)
    → sa.ref_count ≡ 1
    → n + 1 < 4294967296
    → (unrefs n (refs n sa) ≡ (some sa, [])) × (unrefs (n + 1) (refs n sa) ≡ (none, release sa))
unfolding release
unrefs-refs n sa e h =
    let more : refs n sa ≡ record sa { ref_count = 1 + n } = refs-count n 1 sa e (omega arith) in
    (
      rw more (unrefs_kept n 0 _ (omega arith) (omega arith) ∙ ground arith),
      rw (more, add-one) (unrefs_last n _ (omega arith) (omega arith)),
    )
