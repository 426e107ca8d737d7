-- ===== src/Socket/Teardown.antt =====
-- How lm-socket.c ends a connection.
use lm_transport.Base.{ℕ, ℤ, ◌≡◌, refl, inl, inr, true, false, List, [], ◌∷◌, arith, Option-cases}
use lm_transport.Glib.{eof}
use lm_transport.Address.{current}
use lm_transport.Sock.{sock_is_blocking_error}
use lm_transport.Channel.{CloseReason, requested, hup, io_error}
use lm_transport.Socket.{
  LmSocket, Os, Calls, failed_tried_all, connect_result, close_fd, address_unref, closed, destroyed,
  emit_disconnected_and_cleanup, socket_close, socket_finalize, socket_read, socket_write, err_cb,
  hup_cb, attempt_connect_next,
}
use lm_transport.Socket.History.{closings, closings-destroyed}

-- What a disconnected socket has emitted and how it then behaves.
pub record Ended (os : Os) (r : CloseReason) (s t : LmSocket) : Type 0 where
  pub reported : closings t.calls ≡ r ∷ closings s.calls
  pub connected : t.connected ≡ false
  pub reads_eof : (len : ℕ) → socket_read os t len ≡ (eof, [])
  pub writes_eof : (buf : List ℕ) → socket_write os t buf ≡ (eof, 0)

cleanup-Ended :
    (os : Os) (r : CloseReason) (s : LmSocket) → Ended os r s (emit_disconnected_and_cleanup r s)
unfolding emit_disconnected_and_cleanup socket_read socket_write
cleanup-Ended os r s = elim (Option-cases s.io_channel) [
  | inl e ↦ record {
    reported = ground arith;
    connected = ground arith;
    reads_eof = λ len. ground arith;
    writes_eof = λ buf. ground arith;
  }
  | inr (ch, e) ↦
      let h1 : Calls = destroyed s.in_watch (closed r ∷ s.calls) in
      let h2 : Calls = destroyed s.out_watch h1 in
      let h3 : Calls = destroyed s.err_watch h2 in
      record {
        reported = ground (
          arith,
          closings-destroyed s.in_watch (closed r ∷ s.calls),
          closings-destroyed s.out_watch h1,
          closings-destroyed s.err_watch h2,
          closings-destroyed s.hup_watch h3,
        );
        connected = ground arith;
        reads_eof = λ len. ground arith;
        writes_eof = λ buf. ground arith;
      }
]

err_cb_connected :
    (os : Os) (s : LmSocket)
    → s.connected ≡ true
    → err_cb os s ≡ (false, emit_disconnected_and_cleanup io_error s)
unfolding err_cb
err_cb_connected os s c = ground arith

-- A close that the user asks for, a hang-up and an error on a connected socket each emit `closed`
-- once, with the reason of their own, and leave a socket that is not connected and whose reads and
-- writes report the end of the stream; the two watches that fire are given up.
pub teardown-Ended :
    (os : Os) (s : LmSocket)
    → Ended os requested s (socket_close s)
      × Ended os hup s (hup_cb s).1
      × ((hup_cb s).0 ≡ false)
      × (s.connected ≡ true → Ended os io_error s (err_cb os s).1 × ((err_cb os s).0 ≡ false))
unfolding socket_close hup_cb
teardown-Ended os s = (
  cleanup-Ended os requested s,
  cleanup-Ended os hup s,
  refl,
  λ c. rw (err_cb_connected os s c) (cleanup-Ended os io_error s, refl),
)

-- The socket sets its handle to 0 when it is done with it, and closes the handle again when it is
-- finalized: a socket that was closed before closes the process's descriptor 0.
pub finalize-close :
    (s : LmSocket)
    → (socket_finalize (socket_close s)).calls
      ≡ close_fd (ℤ.pos 0) ∷ address_unref ∷ (socket_close s).calls
unfolding socket_finalize socket_close emit_disconnected_and_cleanup
finalize-close s = ground arith

-- When an unconnected socket learns of an error with no address left to try, the error's watch is
-- given up, and the socket keeps it all the same, to be destroyed once more at its end.
pub err_cb-dangling :
    (os : Os) (s : LmSocket)
    → s.connected ≡ false
    → sock_is_blocking_error os.errno (os.so_error s.calls s.handle) ≡ false
    → s.sa_iter ≡ true
    → current s.sa ≡ []
    → ((err_cb os s).0 ≡ false)
      × ((err_cb os s).1 ≡ record s { calls = connect_result failed_tried_all ∷ s.calls })
unfolding err_cb attempt_connect_next
err_cb-dangling os s c e i n = ground arith
