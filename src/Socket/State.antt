-- ===== src/Socket/State.antt =====
-- LmSocketPriv of lm-socket.c, and the calls and signals of a socket.
use lm_transport.Base.{ℕ, ℤ, Bool, Option, List, ◌∷◌}
use lm_transport.Glib.{IoStatus, IoCondition}
use lm_transport.Channel.{CloseReason}
use lm_transport.Sock.{Errno}
use lm_transport.Address.{Addrinfo, SocketAddress}

pub data ConnectResult : Type 0 where
  ok failed_dns failed_tried_all : ConnectResult

pub data Call : Type 0 where
  -- signals
  connect_result : ConnectResult → Call
  opened readable writeable : Call
  closed : CloseReason → Call
  -- the system
  make_socket : Addrinfo → Call
  set_non_blocking : ℤ → Call
  connect : ℤ → Addrinfo → Call
  close_fd : ℤ → Call
  -- GLib: a channel for a handle, a watch on a channel
  channel_new : (channel : ℕ) → ℤ → Call
  channel_unref : ℕ → Call
  add_watch : (source : ℕ) → (channel : ℕ) → IoCondition → Call
  source_destroy : ℕ → Call
  -- the resolver and the address
  lookup_host : Call
  address_unref : Call

abbrev pub Calls : Type 0
Calls = List Call

pub record Os : Type 0 where
  pub errno : Errno
  pub socket_fd : Calls → Addrinfo → ℤ  -- socket ()
  pub connect_to : Calls → ℤ → Addrinfo → ℤ  -- connect ()
  pub last_error : Calls → ℤ  -- errno
  pub so_error : Calls → ℤ → ℤ  -- getsockopt (SO_ERROR)
  pub new_channel : Calls → ℕ
  pub new_source : Calls → ℕ
  pub read_chars : Calls → ℕ → ℕ → IoStatus × List ℕ
  pub write_chars : Calls → ℕ → List ℕ → IoStatus × ℕ

-- LmSocketPriv. `sa_iter` tells whether that pointer, to the iterator of `sa`, is set; a lookup in
-- flight is `resolving`. The address is shared with the resolver and is not NULL.
pub record LmSocket : Type 0 where
  pub sa : SocketAddress
  pub handle : ℤ
  pub io_channel : Option ℕ
  pub in_watch : Option ℕ
  pub out_watch : Option ℕ
  pub err_watch : Option ℕ
  pub hup_watch : Option ℕ
  pub connected : Bool
  pub resolving : Bool
  pub sa_iter : Bool
  pub calls : Calls

abbrev pub call : Call → LmSocket → LmSocket
call c s = record s { calls = c ∷ s.calls }

-- _lm_sock_close, _lm_sock_get_last_error and _lm_sock_get_error of lm-sock.c
abbrev pub sock_close : ℤ → LmSocket → LmSocket
sock_close h s = call (close_fd h) s

abbrev pub sock_get_last_error : Os → LmSocket → ℤ
sock_get_last_error os s = os.last_error s.calls

abbrev pub sock_get_error : Os → LmSocket → ℤ → ℤ
sock_get_error os s h = os.so_error s.calls h
