-- ===== src/Stack/Tests.antt =====
-- A socket 0 in two channels, and a TLS channel 3 around them.
use lm_transport.Base.{◌≡◌, refl, ◌==◌, ℤ, pos, if◌then◌else◌, some, true, [], ◌∷◌, arith}
use lm_transport.Glib.{eof}
use lm_transport.Address.{address_new}
use lm_transport.Channel.{World, opened, new_priv, emit, get_inner}
use lm_transport.Socket.{LmSocket, Os, Call, connect_result, ok, socket_new, out_cb}
use lm_transport.Socket.Specification.{visible}
use lm_transport.Stack.Secure.{socket_connected, secure_opens}

abbrev system : Os
system = record {
  errno = record { einprogress = ℤ.pos 115; ealready = ℤ.pos 114; eisconn = ℤ.pos 106 };
  socket_fd = λ h a. ℤ.pos 5;
  connect_to = λ h fd a. ℤ.pos 0;
  last_error = λ h. ℤ.pos 0;
  so_error = λ h fd. ℤ.pos 0;
  new_channel = λ h. 7;
  new_source = λ h. 8;
  read_chars = λ h ch len. (eof, []);
  write_chars = λ h ch buf. (eof, 0);
}

abbrev open_socket : LmSocket
open_socket = record (socket_new (address_new (b'h' ∷ []) 80)) { io_channel = some 7 }

abbrev apart : World
apart = record { priv = λ c. new_priv; handlers = []; calls = [] }

-- The same, with 3 around 2 already.
abbrev around : World
around = record apart {
  priv = λ c. if c == 3 then record new_priv { inner = some 2 } else new_priv;
}

-- The socket was connected and has an error.
abbrev linked_socket : LmSocket
linked_socket = record open_socket { connected = true }

secure_opens_example :
    let t = (out_cb system (socket_new (address_new (b'h' ∷ []) 80))).1 in
    let v = (socket_connected ok 0 3 apart).0 in
    (visible t.calls
      ≡ Call.opened ∷ connect_result ok ∷ visible (socket_new (address_new (b'h' ∷ []) 80)).calls)
    × (emit 1 v.handlers opened 0 ≡ (0, opened) ∷ (3, opened) ∷ [])
    × (get_inner v 3 ≡ some 0)
unfolding socket_new
secure_opens_example =
    secure_opens system (socket_new (address_new (b'h' ∷ []) 80)) 0 3 0 apart refl (ground arith) tt
