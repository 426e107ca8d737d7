-- ===== src/Socket/Watches.antt =====
-- The watches that a socket of lm-socket.c holds.
use lm_transport.Base.{
  ◌≡◌, refl, inl, inr, true, false, Option, is_some, none, some, List, [], ◌∷◌, arith, Bool-cases,
  Option-cases,
}
use lm_transport.Address.{Addrinfo, SocketAddress, current, is_resolved}
use lm_transport.Channel.{CloseReason, requested, hup, io_error}
use lm_transport.Resolver.{ResolverResult}
use lm_transport.Socket.{
  LmSocket, Os, attempt_connect, attempts, with_iter, attempt_connect_next, emit_connect_result,
  emit_disconnected_and_cleanup, socket_new, socket_reset, socket_connect, socket_close, in_cb,
  out_cb, err_cb, hup_cb, resolver_finished_cb,
}

-- The socket holds no watch.
abbrev pub Unwatched : LmSocket → Type 0
Unwatched s =
    (s.in_watch ≡ none) × (s.out_watch ≡ none) × (s.err_watch ≡ none) × (s.hup_watch ≡ none)

-- Watches are held on a channel only.
pub record Attached (s : LmSocket) : Type 0 where
  pub without : s.io_channel ≡ none → Unwatched s

attempt_connect-Attached :
    (os : Os) (a : Addrinfo) (s : LmSocket) → Attached s → Attached (attempt_connect os a s).1
unfolding attempt_connect
attempt_connect-Attached os a s h = record { without = λ n. ground (arith, h.without) }

attempts-Attached :
    (os : Os) (l : List Addrinfo) (s : LmSocket) → Attached s → Attached (attempts os l s)
unfolding attempts emit_connect_result
attempts-Attached os [] s h = record { without = h.without }
attempts-Attached os (a ∷ l) s h =
    let s' : LmSocket = record s { sa = record s.sa { results_iter = some l } } in
    let tried = attempt_connect-Attached os a s' (record { without = h.without }) in
    elim (Bool-cases (attempt_connect os a s').0) [
      | inl e ↦ rw (e, attempts) tried
      | inr e ↦ rw (e, attempts) (attempts-Attached os l (attempt_connect os a s').1 tried)
    ]

attempt_connect_next-Attached :
    (os : Os) (s : LmSocket) → Attached s → Attached (attempt_connect_next os s)
unfolding attempt_connect_next with_iter
attempt_connect_next-Attached os s h =
    attempts-Attached os (current (with_iter s).sa) (with_iter s)
      (record { without = λ n. ground (arith, h.without) })

pub out_cb-Attached : (os : Os) (s : LmSocket) → Attached s → Attached (out_cb os s).1
unfolding out_cb emit_connect_result
out_cb-Attached os s h = record { without = λ n. ground (arith, h.without) }

-- A socket that ends has neither a channel nor a watch.
cleanup-Unwatched :
    (r : CloseReason) (s : LmSocket)
    → Attached s
    → let t = emit_disconnected_and_cleanup r s in (t.io_channel ≡ none) × Unwatched t
unfolding emit_disconnected_and_cleanup
cleanup-Unwatched r s h = elim (Option-cases s.io_channel) [
  | inl e ↦ ground (arith, h.without e)
  | inr (ch, e) ↦ ground (arith, e)
]

pub socket_close-Unwatched :
    (s : LmSocket) → Attached s → let t = socket_close s in (t.io_channel ≡ none) × Unwatched t
unfolding socket_close
socket_close-Unwatched s h = cleanup-Unwatched requested s h

pub hup_cb-Unwatched :
    (s : LmSocket) → Attached s → let t = (hup_cb s).1 in (t.io_channel ≡ none) × Unwatched t
unfolding hup_cb
hup_cb-Unwatched s h = cleanup-Unwatched hup s h

pub in_cb-Attached : (s : LmSocket) → Attached s → Attached (in_cb s).1
unfolding in_cb
in_cb-Attached s h = record { without = h.without }

-- An error ends a socket that is connected.
pub err_cb-Unwatched :
    (os : Os) (s : LmSocket)
    → Attached s
    → s.connected ≡ true
    → let t = (err_cb os s).1 in (t.io_channel ≡ none) × Unwatched t
unfolding err_cb
err_cb-Unwatched os s h c = ground (arith, c, cleanup-Unwatched io_error s h)

-- Else the next address is tried, or nothing happens.
pub err_cb-Attached :
    (os : Os) (s : LmSocket) → Attached s → s.connected ≡ false → Attached (err_cb os s).1
unfolding err_cb
err_cb-Attached os s h c = ground (arith, h, c, attempt_connect_next-Attached os s h)

pub resolver_finished_cb-Attached :
    (os : Os) (r : ResolverResult) (s : LmSocket)
    → Attached s
    → Attached (resolver_finished_cb os r s)
unfolding resolver_finished_cb emit_connect_result
resolver_finished_cb-Attached os ResolverResult.ok s h = attempt_connect_next-Attached os s h
resolver_finished_cb-Attached os _ s h = record { without = h.without }

pub socket_new-Attached : (sa : SocketAddress) → Attached (socket_new sa)
unfolding socket_new
socket_new-Attached sa = record { without = λ n. (refl, refl, refl, refl) }

pub socket_connect-Attached : (os : Os) (s : LmSocket) → Attached s → Attached (socket_connect os s)
unfolding socket_connect
socket_connect-Attached os s h = elim (Bool-cases (is_resolved s.sa)) [
  | inl e ↦ rw e (attempt_connect_next-Attached os s h)
  | inr e ↦ rw e (record { without = h.without })
]

-- A new socket has no channel while its host is looked up.
pub socket_connect_bare :
    (os : Os) (sa : SocketAddress)
    → let s = socket_new sa in is_resolved s.sa ≡ false → (socket_connect os s).io_channel ≡ none
unfolding socket_connect socket_new
socket_connect_bare os sa f = rw f refl

-- The reset leaves neither a channel nor a watch.
pub socket_reset-Unwatched :
    (s : LmSocket)
    → Attached s
    → let t = socket_reset s in (t.io_channel ≡ none) × Unwatched t × (t.connected ≡ false)
unfolding socket_reset
socket_reset-Unwatched s h = elim (Option-cases s.io_channel) [
  | inl e ↦ ground (arith, h.without e)
  | inr (ch, e) ↦ ground (arith, e)
]

pub held_watch : {A : Type 0} (w : Option A) → is_some w ≡ true → ¬ (w ≡ none)
held_watch none g e = ground (arith, g)
held_watch (some x) g e = ground (arith, e)
