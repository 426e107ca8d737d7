-- ===== src/Socket/Tests.antt =====
-- A socket of lm-socket.c with two addresses, of which the system refuses the first.
use lm_transport.Base.{
  ◌≡◌, ◌≤◌, refl, ◌⊎◌, ℤ, ℕ, true, false, none, List, [], ◌∷◌, ◌++◌, is_some, ◌==◌, if◌then◌else◌,
  length,
}
use lm_transport.Glib.{eof}
use lm_transport.Sock.{sock_is_blocking_error}
use lm_transport.Channel.{requested, hup, io_error}
use lm_transport.Address.{Addrinfo, SocketAddress, address_ref, current, is_resolved}
use lm_transport.Socket.Refusal.{refused_opens}
use lm_transport.Socket.{
  socket_reset, LmSocket, Os, connect_result, failed_tried_all, socket_new, socket_close,
  socket_connect, hup_cb, err_cb, out_cb, with_iter, attempt_connect_next, call, closed, opened, ok,
  socket_read, socket_write,
}
use lm_transport.Socket.History.{tried, reports, onto}
use lm_transport.Socket.Invariant.{here, next, connects, out_fires, Proper, is_open, Reach-Proper}
use lm_transport.Socket.Attempts.{
  Accepted, Exhausted, attempt_connect_next_lem, attempt_connect_next-tried,
}
use lm_transport.Socket.Specification.{Runs, visible, Reach-Runs}
use lm_transport.Socket.Exhaustion.{errors, attempts_end}
use lm_transport.Socket.Watches.{Attached, Unwatched}
use lm_transport.Socket.Reentry.{acts, done, out_cb_handled, Acts-Unwatched, opened_after_close}
use lm_transport.Socket.Leaks.{channel_count, connect_count, unref_count, attempts-leak}
use lm_transport.Socket.Teardown.{Ended, teardown-Ended}

abbrev first_address : Addrinfo
first_address = record {
  family = ℤ.pos 10;
  socktype = ℤ.pos 1;
  protocol = ℤ.pos 6;
  sin_port = 80;
  sockaddr = 1 ∷ [];
}

abbrev second_address : Addrinfo
second_address = record {
  family = ℤ.pos 2;
  socktype = ℤ.pos 1;
  protocol = ℤ.pos 6;
  sin_port = 80;
  sockaddr = 2 ∷ [];
}

abbrev address : SocketAddress
address = record {
  hostname = b'h' ∷ [];
  port = 80;
  results = first_address ∷ second_address ∷ [];
  results_iter = none;
  ref_count = 1;
}

abbrev fd_for : List ℕ → ℤ
fd_for [] = ℤ.pos 5
fd_for (c ∷ _) = if c == 1 then ℤ.negsuc 0 else ℤ.pos 5

-- A system that makes no socket for the first address, and whose connects are in progress.
abbrev system : Os
system = record {
  errno = record { einprogress = ℤ.pos 115; ealready = ℤ.pos 114; eisconn = ℤ.pos 106 };
  socket_fd = λ h a. fd_for a.sockaddr;
  connect_to = λ h fd a. ℤ.negsuc 0;
  last_error = λ h. ℤ.pos 115;
  so_error = λ h fd. ℤ.pos 111;
  new_channel = λ h. 7;
  new_source = λ h. 8;
  read_chars = λ h ch len. (eof, []);
  write_chars = λ h ch buf. (eof, 0);
}

abbrev fresh : LmSocket
fresh = socket_new address

-- The second address is tried when the first is refused, and the connection is then reported.
connected_second : tried (socket_connect system fresh).calls ≡ second_address ∷ first_address ∷ []
unfolding socket_connect attempt_connect_next with_iter socket_new is_resolved
    sock_is_blocking_error
connected_second = refl

Reach-Proper_example :
    let t = (out_cb system (socket_connect system fresh)).1 in
    Proper t.calls
    × (is_open t.calls ≡ t.connected)
    × (is_some t.in_watch ≡ true → t.connected ≡ true)
Reach-Proper_example =
    Reach-Proper system address (out_cb system (socket_connect system (socket_new address))).1
      (next (next here connects) out_fires)

Reach-Runs_example :
    let t = (out_cb system (socket_connect system fresh)).1 in Runs (visible t.calls) t.connected
Reach-Runs_example =
    Reach-Runs system address (out_cb system (socket_connect system (socket_new address))).1
      (next (next here connects) out_fires)

attempt_connect_next_lem_example :
    let u = with_iter fresh in
    Accepted system (current u.sa) u (attempt_connect_next system fresh)
    ⊎ Exhausted system (current u.sa) u (attempt_connect_next system fresh)
attempt_connect_next_lem_example = attempt_connect_next_lem system fresh

attempt_connect_next-tried_example :
    let t = attempt_connect_next system fresh in
    (before : List Addrinfo) × (first_address ∷ second_address ∷ [] ≡ before ++ current t.sa)
    × (tried t.calls ≡ onto before [])
    × ((reports t.calls ≡ []) ⊎ ((current t.sa ≡ []) × (reports t.calls ≡ failed_tried_all ∷ [])))
unfolding socket_new address_ref
attempt_connect_next-tried_example = attempt_connect_next-tried system fresh refl

teardown-Ended_example :
    let s = (out_cb system fresh).1 in
    Ended system requested s (socket_close s)
    × Ended system hup s (hup_cb s).1
    × ((hup_cb s).0 ≡ false)
    × (s.connected ≡ true
        → Ended system io_error s (err_cb system s).1 × ((err_cb system s).0 ≡ false))
teardown-Ended_example = teardown-Ended system (out_cb system fresh).1

-- A system that refuses both addresses when it is asked to connect.
abbrev refusing : Os
refusing = record system { socket_fd = λ h a. ℤ.pos 5; last_error = λ h. ℤ.pos 111 }

two_channels : channel_count (attempt_connect_next refusing fresh).calls ≡ 2
unfolding attempt_connect_next with_iter socket_new sock_is_blocking_error
two_channels = refl

attempts-leak_example :
    let t = socket_reset (attempt_connect_next refusing fresh) in
    (channel_count t.calls ≡ connect_count t.calls) × (unref_count t.calls ≤ 1)
unfolding socket_new
attempts-leak_example = attempts-leak refusing fresh refl

-- Every error is fatal in `system`: the second address fails in the error callback.
attempts_end_example :
    (n : ℕ) × (n ≤ length fresh.sa.results)
    × let t = errors system n (attempt_connect_next system fresh) in
      (tried t.calls ≡ onto fresh.sa.results (tried fresh.calls))
      × (reports t.calls ≡ failed_tried_all ∷ reports fresh.calls)
unfolding sock_is_blocking_error socket_new
attempts_end_example = attempts_end system fresh (λ h fd. refl) refl refl

-- A handler of `closed` that connects again.
Acts-Unwatched_example :
    let t = (out_cb system (socket_connect system fresh)).1 in
    let v = socket_reset (socket_connect system (call (closed hup) t)) in
    Attached t
    × (v.io_channel ≡ none)
    × Unwatched v
    × (v.connected ≡ false)
    × (socket_read system v 10 ≡ (eof, []))
    × (socket_write system v [] ≡ (eof, 0))
Acts-Unwatched_example =
    let t = (out_cb system (socket_connect system fresh)).1 in
    Acts-Unwatched system address hup t (socket_connect system (call (closed hup) t)) 10 []
      (acts (acts (done refl) connects) out_fires) (acts (done refl) connects)

opened_after_close_example :
    let t = out_cb_handled system socket_close (socket_connect system fresh) in
    (visible t.calls
      ≡ opened ∷ closed requested ∷ connect_result ok ∷ visible (socket_connect system fresh).calls)
    × (t.connected ≡ false)
    × ¬ Runs (visible t.calls) true
opened_after_close_example = opened_after_close system (socket_connect system fresh) true

-- The host refuses the attempt, and the output is dispatched first.
refused_opens_example :
    let s = socket_connect system fresh in
    let t = (out_cb (record system { so_error = λ h fd. ℤ.pos 111 }) s).1 in
    let (again, u) = err_cb (record system { so_error = λ h fd. ℤ.pos 111 }) t in
    (t ≡ (out_cb system s).1)
    × (again ≡ false)
    × (visible u.calls ≡ closed io_error ∷ opened ∷ connect_result ok ∷ visible s.calls)
    × (tried u.calls ≡ tried s.calls)
    × (u.connected ≡ false)
unfolding socket_connect attempt_connect_next with_iter socket_new is_resolved
    sock_is_blocking_error
refused_opens_example = refused_opens system (λ h fd. ℤ.pos 111) (socket_connect system fresh) refl
