-- ===== src/Transport.antt =====
-- first_iteration/lm-transport.c and first_iteration/lm-socket.c: the interfaces of the first
-- iteration, and the tables of lm-old-socket.c for them. A call of a function that a table lacks
-- fails its assertion, which is none.
pub mod Dropped
mod Tests
use lm_transport.Base.{ℕ, ℤ, pos, Option, none, some, List, []}
use lm_transport.OldSocket.{Answers, OldSocket, old_socket_new, old_socket_write}

-- GIOError
pub data IoError : Type 0 where
  no_error again inval unknown : IoError

-- LmTransportIface, for objects of type `T`; `W` is what a write comes to.
pub record TransportIface (T W : Type 0) : Type 0 where
  pub get_handle : Option (T → ℤ)
  pub read : Option (T → ℕ → IoError × List ℕ)
  pub write : Option (T → List ℕ → W)
  pub disconnect : Option (T → T)

-- LmSocketIface; `A` is the type of a chain of addresses.
pub record SocketIface (T A : Type 0) : Type 0 where
  pub connect : Option (T → A → ℤ → T)

abbrev dispatch : {F R : Type 0} → Option F → (F → R) → Option R
dispatch none call = none
dispatch (some f) call = some (call f)

module _ {T W : Type 0} (iface : TransportIface T W) where
  open iface use {
    get_handle as handle_entry, read as read_entry, write as write_entry,
    disconnect as disconnect_entry,
  }

  unfoldable pub transport_get_handle : T → Option ℤ
  transport_get_handle t = dispatch handle_entry (λ f. f t)

  unfoldable pub transport_read : T → ℕ → Option (IoError × List ℕ)
  transport_read t len = dispatch read_entry (λ f. f t len)

  unfoldable pub transport_write : T → List ℕ → Option W
  transport_write t buf = dispatch write_entry (λ f. f t buf)

  unfoldable pub transport_disconnect : T → Option T
  transport_disconnect t = dispatch disconnect_entry (λ f. f t)

unfoldable pub iface_connect : {T A : Type 0} → SocketIface T A → T → A → ℤ → Option T
iface_connect iface t addresses port = dispatch iface.connect (λ f. f t addresses port)

-- lm_socket_create
pub socket_create : ℕ → OldSocket
socket_create context = old_socket_new context

unfoldable pub old_socket_connect : {A : Type 0} → OldSocket → A → ℤ → OldSocket
old_socket_connect s addresses port = s

unfoldable pub old_socket_get_handle : OldSocket → ℤ
old_socket_get_handle s = pos 0

unfoldable pub old_socket_read : OldSocket → ℕ → IoError × List ℕ
old_socket_read s len = (unknown, [])

unfoldable pub old_socket_disconnect : OldSocket → OldSocket
old_socket_disconnect s = s

-- old_socket_iface_init
unfoldable pub old_socket_iface : {A : Type 0} → SocketIface OldSocket A
old_socket_iface = record { connect = some old_socket_connect }

-- old_socket_transport_iface_init, with the answers that the channel gives.
unfoldable pub old_socket_transport_iface :
    Answers → TransportIface OldSocket (Option (OldSocket × Answers))
old_socket_transport_iface ans = record {
  get_handle = some old_socket_get_handle;
  read = some old_socket_read;
  write = some (λ s buf. old_socket_write buf ans s);
  disconnect = some old_socket_disconnect;
}
