-- ===== src/OldSocket/Tests.antt =====
-- Two writes of lm-old-socket.c around a report that the channel is writable, were there a channel.
use lm_transport.Base.{◌≡◌, refl, true, false, none, some, [], ◌∷◌}
use lm_transport.Glib.{normal, again}
use lm_transport.OldSocket.{
  Answers, OldSocket, old_socket_write, buffered_write_cb, do_write, loop, after_write,
  output_is_buffered, setup_output_buffer, part, after_buffered, erased,
}

abbrev idle_socket : OldSocket
idle_socket = record {
  context = some 1;
  addresses = none;
  io_channel = some 4;
  out_buf = none;
  watch_out = false;
  sent = [];
  disconnects = 0;
}

-- The channel takes one byte, is busy once, and takes two more.
abbrev given : Answers
given = (normal, 1) ∷ (again, 0) ∷ (normal, 2) ∷ []

abbrev waiting : OldSocket
waiting = record idle_socket { out_buf = some (2 ∷ 3 ∷ []); watch_out = true; sent = 1 ∷ [] }

first_write :
    old_socket_write (1 ∷ 2 ∷ 3 ∷ []) given idle_socket
    ≡ some (waiting, (again, 0) ∷ (normal, 2) ∷ [])
unfolding old_socket_write output_is_buffered do_write loop after_write setup_output_buffer part
first_write = refl

emptied :
    buffered_write_cb ((again, 0) ∷ (normal, 2) ∷ []) waiting
    ≡ some (false, record idle_socket { sent = 1 ∷ 2 ∷ 3 ∷ [] }, [])
unfolding buffered_write_cb do_write loop after_buffered erased
emptied = refl
