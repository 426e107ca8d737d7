-- ===== src/Connection/References.antt =====
-- The references to an address that a connection of lm-socket.c takes, with the socket's and the
-- resolver's own.
use lm_transport.Base.{
  ℕ, suc, ◌+◌, ◌≡◌, refl, sym, ap, subst, ◌∙◌, pos, int_eq, not, ◌&&◌, Bool, true, false, none,
  some, [], ◌∷◌, if◌then◌else◌, arith,
}
use lm_transport.Address.{SocketAddress, address_ref, is_null, is_resolved, release, set_results}
use lm_transport.Address.Lifetime.{unrefs, unrefs_kept, unrefs_last}
use lm_transport.Resolver.{host}
use lm_transport.Blocking.{
  System, BlockingResolver, add_idle, blocking_class, blocking_new, blocking_finalize,
  blocking_lookup_host,
}
use lm_transport.Blocking.Protocol.{reports as blocking_reports, lookup_host_reports}
use lm_transport.Blocking.References.{
  returned as blocking_returned, lookup_host-returned as blocking-returned,
}
use lm_transport.AsyncnsResolver.{
  Asyncns, AsyncnsResolver, wait, asyncns_class, asyncns_resolver_new, asyncns_finalize,
}
use lm_transport.AsyncnsResolver.Outcome.{reports as asyncns_reports}
use lm_transport.AsyncnsResolver.References.{
  returned as asyncns_returned, lookup_host-returned as asyncns-returned,
}
use lm_transport.Resolvers.{host_report, lookup_host-reports}
use lm_transport.Socket.{
  LmSocket, Os, failed_dns, socket_new, socket_finalize, attempt_connect_next, emit_connect_result,
}
use lm_transport.Socket.References.{
  returned, attempt_connect_next-Held, emit_connect_result-Held, finalize-returned,
}
use lm_transport.Connection.{connect, deliver, idle, readable}
use lm_transport.Connection.Outcome.{waiting, deliver_either, connect-waiting, idle_step}
use lm_transport.Connection.Watched.{asked, connect-watched, readable_step}

-- With the references that the socket's end gives back and the resolver's `n`, the address is left
-- with the one that the caller had, and the caller's release frees it.
abbrev pub Balanced : LmSocket → ℕ → Type 0
Balanced s n =
    let back = returned (socket_finalize s).calls + n in
    (unrefs back s.sa ≡ (some (record s.sa { ref_count = 1 }), []))
    × (unrefs (suc back) s.sa ≡ (none, release s.sa))

counted-Balanced :
    (s : LmSocket) (n : ℕ) → s.sa.ref_count ≡ 3 → returned s.calls ≡ 0 → n ≡ 1 → Balanced s n
counted-Balanced s n c r e =
    let two : returned (socket_finalize s).calls + n ≡ 2 =
      omega (arith, finalize-returned s, r, e) in
    (
      ap (λ k. unrefs k s.sa) two ∙ unrefs_kept 2 0 s.sa c (omega arith),
      ap (λ k. unrefs (suc k) s.sa) two ∙ unrefs_last 2 s.sa c (omega arith),
    )

-- The socket after its handler ran, whatever was reported.
either-Balanced :
    (os : Os) (b : Bool) (sa x z : SocketAddress) (n : ℕ)
    → x.ref_count ≡ 3
    → z.ref_count ≡ 3
    → n ≡ 1
    → Balanced
        (if b
          then attempt_connect_next os (record (waiting sa) { sa = x })
          else emit_connect_result failed_dns (record (waiting sa) { sa = z }))
        n
unfolding waiting socket_new
either-Balanced os true sa x z n c d e =
    let s = record (waiting sa) { sa = x } in
    let h = attempt_connect_next-Held os s in
    counted-Balanced (attempt_connect_next os s) n (h.count ∙ c) h.back e
either-Balanced os false sa x z n c d e =
    let s = record (waiting sa) { sa = z } in
    let h = emit_connect_result-Held failed_dns s in
    counted-Balanced (emit_connect_result failed_dns s) n (h.count ∙ d) h.back e

twice : (sa : SocketAddress) → sa.ref_count ≡ 1 → (address_ref (address_ref sa)).ref_count ≡ 3
unfolding address_ref
twice sa e = ground (arith, e)

-- A socket for a host that is not resolved, with an address that the caller holds the one reference
-- to, connects with a blocking resolver, and the idle callback runs. Whatever it reports, the ends of
-- the socket and of the resolver give back what they took: the caller's reference is left, and
-- giving that back as well frees the address.
pub idle-Balanced :
    (os : Os) (y : System) (sa : SocketAddress)
    → is_resolved sa ≡ false
    → sa.ref_count ≡ 1
    → (s : LmSocket) × (u : BlockingResolver) × (idle os y
          (connect blocking_class blocking_new os (socket_new sa))
        ≡ some (record { socket = s; resolver = some u }))
      × Balanced s (blocking_returned (blocking_finalize u).calls)
unfolding blocking_lookup_host blocking_new set_results
idle-Balanced os y sa h c =
    let r = blocking_lookup_host blocking_new (address_ref sa) in
    let (u, fires, reported, idle_after, unref) = lookup_host_reports y (address_ref sa) in
    let answer = y.getaddrinfo (add_idle host ∷ []) (address_ref sa).hostname in
    let own = address_ref (address_ref sa) in
    let x = set_results y.htons own answer.1 in
    let b = int_eq answer.0 (pos 0) && not (is_null answer.1) in
    let n = blocking_returned (blocking_finalize u).calls in
    (
      deliver os (blocking_reports u.calls) (waiting sa),
      u,
      ap (idle os y) (connect-waiting os sa h) ∙ idle_step os y (waiting sa) r u refl fires,
      subst (λ s. Balanced s n)
          (sym
            (ap (λ l. deliver os l (waiting sa)) reported ∙ deliver_either os b x own (waiting sa)))
          (either-Balanced os b sa x own n (twice sa c) (twice sa c)
            (blocking-returned y (address_ref sa) u fires)),
    )

-- The same with an asynchronous resolver, whose library takes the query and has answered it when the
-- watch's callback runs.
pub readable-Balanced :
    (os : Os) (a : Asyncns) (sa : SocketAddress) (q : ℕ)
    → let t = asked a sa in
      is_resolved sa ≡ false
      → sa.ref_count ≡ 1
      → a.makes_ctx [] ≡ true
      → t.resolv_query ≡ some q
      → a.isdone (wait ∷ t.calls) q ≡ true
      → (s : LmSocket) × (v : AsyncnsResolver) × (readable os a
            (connect (asyncns_class a) asyncns_resolver_new os (socket_new sa))
          ≡ some (record { socket = s; resolver = some v }))
        × Balanced s (asyncns_returned (asyncns_finalize v).calls)
unfolding host_report set_results
readable-Balanced os a sa q h c m e d =
    let r = asked a sa in
    let answer = a.getaddrinfo_done (wait ∷ r.calls) q in
    let b = int_eq answer.0 (pos 0) in
    let own = address_ref (address_ref sa) in
    let x = set_results a.htons own answer.1 in
    let (watch, v, calls_back, reported) = lookup_host-reports a (address_ref sa) q m e d in
    let n = asyncns_returned (asyncns_finalize v).calls in
    (
      deliver os (asyncns_reports v.calls) (waiting sa),
      v,
      ap (readable os a) (connect-watched a os sa h)
          ∙ readable_step os a (waiting sa) r v watch calls_back,
      subst (λ s. Balanced s n)
          (sym
            (ap (λ l. deliver os l (waiting sa)) reported ∙ deliver_either os b x own (waiting sa)))
          (either-Balanced os b sa x own n (twice sa c) (twice sa c)
            (asyncns-returned a (address_ref sa) q v m e d calls_back)),
    )
