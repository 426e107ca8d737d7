-- ===== src/Socket.antt =====
-- lm-socket.c: the socket channel. Its private fields are a record; the calls that it makes of GLib,
-- of the system and of the resolver, and the signals that it emits, are a history, latest first.
-- What the system answers is the parameter `Os`: functions of the history up to the call.
-- Signal handlers do not call back into the socket; those of Reentry, TestConnect and TestSecure do.
mod State
pub mod History
pub mod Invariant
pub mod Attempts
pub mod Teardown
pub mod Watches
pub mod References
mod Exhaustion
mod Reentry
mod Refusal
pub mod Waiting
mod Leaks
pub mod Specification
mod Tests
pub use lm_transport.Socket.State.*
use lm_transport.Base.{
  ℕ, ℤ, Bool, true, false, not, Option, none, some, List, [], ◌∷◌, is_some, if◌then◌else◌,
}
use lm_transport.Glib.{IoStatus, eof, IoCondition, io_in, io_out, io_err, io_hup}
use lm_transport.Channel.{CloseReason, requested, hup, io_error}
use lm_transport.Resolver.{ResolverResult}
use lm_transport.Sock.{Errno, sock_valid, sock_is_blocking_error}
use lm_transport.Address.{
  Addrinfo, SocketAddress, current, is_resolved, get_result_iter, address_ref,
}

-- The address property, set to what is not NULL. The reference to the address before is not given up.
pub set_address : SocketAddress → LmSocket → LmSocket
set_address sa s = record s { sa = address_ref sa }

pub get_address : LmSocket → SocketAddress
get_address s = s.sa

-- lm_socket_new, with the zeroed fields of a new object, and the address property set.
unfoldable pub socket_new : SocketAddress → LmSocket
unfolding address_ref
socket_new sa = record {
  sa = address_ref sa;
  handle = ℤ.pos 0;
  io_channel = none;
  in_watch = none;
  out_watch = none;
  err_watch = none;
  hup_watch = none;
  connected = false;
  resolving = false;
  sa_iter = false;
  calls = [];
}

-- lm_misc_add_io_watch on the socket's channel: NULL when there is none.
abbrev watch_id : Os → LmSocket → Option ℕ
watch_id os s = elim s.io_channel [ none ↦ none | some _ ↦ some (os.new_source s.calls) ]

abbrev attach : Os → IoCondition → LmSocket → LmSocket
attach os c s = elim s.io_channel [
  | none ↦ s
  | some ch ↦ call (add_watch (os.new_source s.calls) ch c) s
]

unfoldable pub emit_connect_result : ConnectResult → LmSocket → LmSocket
emit_connect_result ok s = call opened (call (connect_result ok) s)
emit_connect_result r s = call (connect_result r) s

abbrev destroyed : Option ℕ → Calls → Calls
destroyed none cs = cs
destroyed (some id) cs = source_destroy id ∷ cs

-- socket_disconnect_watch, on each of the four watches.
disconnect_io_watches : LmSocket → LmSocket
disconnect_io_watches s = record s {
  in_watch = none;
  out_watch = none;
  err_watch = none;
  hup_watch = none;
  calls =
      destroyed s.hup_watch
        (destroyed s.err_watch (destroyed s.out_watch (destroyed s.in_watch s.calls)));
}

-- The part of socket_reset under `if (priv->io_channel)`.
drop_channel : LmSocket → LmSocket
unfolding disconnect_io_watches
drop_channel s = elim s.io_channel [
  | none ↦ s
  | some ch ↦ record (call (channel_unref ch) (disconnect_io_watches s)) { io_channel = none }
]

pub socket_reset : LmSocket → LmSocket
unfolding drop_channel
socket_reset s =
    let t = drop_channel (record s { connected = false; sa_iter = false }) in
    record (sock_close t.handle t) { handle = ℤ.pos 0 }

pub emit_disconnected_and_cleanup : CloseReason → LmSocket → LmSocket
unfolding socket_reset
emit_disconnected_and_cleanup reason s = socket_reset (call (closed reason) s)

pub socket_close : LmSocket → LmSocket
socket_close s = emit_disconnected_and_cleanup requested s

pub socket_finalize : LmSocket → LmSocket
unfolding socket_reset
socket_finalize s = socket_reset (call address_unref s)

pub socket_read : Os → LmSocket → ℕ → IoStatus × List ℕ
socket_read os s len = elim s.io_channel [
  | none ↦ (eof, [])
  | some ch ↦ os.read_chars s.calls ch len
]

pub socket_write : Os → LmSocket → List ℕ → IoStatus × ℕ
socket_write os s buf = elim s.io_channel [
  | none ↦ (eof, 0)
  | some ch ↦ os.write_chars s.calls ch buf
]

-- socket_attempt_connect up to the call of connect: the channel and its two watches.
abbrev prepare : Os → ℤ → LmSocket → LmSocket
prepare os h s =
    let ch = os.new_channel s.calls in
    let t =
      call (set_non_blocking h) (record (call (channel_new ch h) s) { io_channel = some ch }) in
    let u = record (attach os io_out t) { out_watch = watch_id os t } in
    record (attach os io_err u) { err_watch = watch_id os u }

-- Whether the attempt is under way, and the socket after it.
unfoldable pub attempt_connect : Os → Addrinfo → LmSocket → Bool × LmSocket
attempt_connect os a s =
    let h = os.socket_fd s.calls a in
    let t = record (call (make_socket a) s) { handle = h } in
    if not (sock_valid h)
    then (false, t)
    else let u = call (connect h a) (prepare os h t) in
      if sock_valid (os.connect_to u.calls h a)
      then (true, u)
      else if sock_is_blocking_error os.errno (sock_get_last_error os u)
      then (true, u)
      else (false, record (sock_close h u) { handle = ℤ.pos 0 })

-- The loop of socket_attempt_connect_next. The chain is the rest at the iterator, and each round
-- takes its head, as lm_socket_address_iter_get_next does.
unfoldable pub attempts : Os → List Addrinfo → LmSocket → LmSocket
unfolding emit_connect_result attempt_connect
attempts os [] s = emit_connect_result failed_tried_all s
attempts os (a ∷ rest) s =
    let (under_way, t) =
      attempt_connect os a (record s { sa = record s.sa { results_iter = some rest } }) in
    elim under_way [ true ↦ t | false ↦ attempts os rest t ]

-- `if (!priv->sa_iter)`
unfoldable pub with_iter : LmSocket → LmSocket
unfolding get_result_iter
with_iter s = if s.sa_iter then s else record s { sa = get_result_iter s.sa; sa_iter = true }

unfoldable pub attempt_connect_next : Os → LmSocket → LmSocket
unfolding attempts with_iter
attempt_connect_next os s = let t = with_iter s in attempts os (current t.sa) t

unfoldable pub resolver_finished_cb : Os → ResolverResult → LmSocket → LmSocket
unfolding emit_connect_result
resolver_finished_cb os ResolverResult.ok s = attempt_connect_next os s
resolver_finished_cb os _ s = emit_connect_result failed_dns s

-- A callback's result is whether GLib keeps the watch.
unfoldable pub in_cb : LmSocket → Bool × LmSocket
in_cb s = (true, call readable s)

unfoldable pub out_cb : Os → LmSocket → Bool × LmSocket
unfolding emit_connect_result
out_cb os s =
    if s.connected
    then (true, call writeable s)
    else let t = record (attach os io_in s) { in_watch = watch_id os s } in
      let u = record (attach os io_hup t) { hup_watch = watch_id os t } in
      (true, emit_connect_result ok (record u { connected = true }))

pub err_cb : Os → LmSocket → Bool × LmSocket
err_cb os s =
    if s.connected
    then (false, emit_disconnected_and_cleanup io_error s)
    else if sock_is_blocking_error os.errno (sock_get_error os s s.handle)
    then (true, s)
    else (false, attempt_connect_next os s)

pub hup_cb : LmSocket → Bool × LmSocket
hup_cb s = (false, emit_disconnected_and_cleanup hup s)

unfoldable pub socket_connect : Os → LmSocket → LmSocket
unfolding is_resolved
socket_connect os s =
    if not (is_resolved s.sa)
    then call lookup_host (record s { resolving = true })
    else attempt_connect_next os s
