-- ===== src/Transport/Tests.antt =====
-- An old socket of lm-old-socket.c, used through the interfaces of the first iteration.
use lm_transport.Base.{ℕ, ◌≡◌, refl, pos, some, List, [], ◌∷◌}
use lm_transport.OldSocket.{old_socket_finalize, main_context_unref}
use lm_transport.Transport.Dropped.{
  Op, connect, write, writable, read, disconnect, run, calls-dropped,
}
use lm_transport.Transport.{
  unknown, transport_get_handle, transport_read, socket_create, old_socket_transport_iface,
  old_socket_get_handle, old_socket_read,
}

old_handle : transport_get_handle (old_socket_transport_iface []) (socket_create 1) ≡ some (pos 0)
unfolding transport_get_handle old_socket_transport_iface old_socket_get_handle
old_handle = refl

old_read : transport_read (old_socket_transport_iface []) (socket_create 1) 10 ≡ some (unknown, [])
unfolding transport_read old_socket_transport_iface old_socket_read
old_read = refl

-- A connect, a write, a report that the channel is writable, a read and a disconnect.
abbrev uses : List (Op ℕ)
uses = connect 5 (pos 80) ∷ write (1 ∷ 2 ∷ []) ∷ writable ∷ read 10 ∷ disconnect ∷ []

calls-dropped_example :
    (run uses [] (socket_create 1) ≡ some (socket_create 1, []))
    × (old_socket_finalize (socket_create 1) ≡ main_context_unref 1 ∷ [])
calls-dropped_example = calls-dropped uses [] 1
