-- ===== src/Stack.antt =====
-- A socket of lm-socket.c at the bottom of channels of lm-channel.c that are wrapped in one another,
-- with a channel of lm-gnutls-channel.c around them.
pub mod Secure
mod Tests
use lm_transport.Base.{ℕ, suc, ◌≤◌, refl, sym, ℤ, Bool, true, Option, none, List, [], ◌∷◌, ◌++◌}
use lm_transport.Channel.{
  World, Bottom, Signal, CloseReason, requested, hup, io_error, closed, emit,
}
use lm_transport.Channel.Passing.{Wraps}
use lm_transport.Socket.{LmSocket, Os, socket_read, socket_write, socket_close, hup_cb, err_cb}

-- The functions of the one object that has functions of its own: the socket's.
abbrev pub over : Os → LmSocket → Bottom
over os s = record {
  read = λ c len. socket_read os s len;
  write = λ c buf. socket_write os s buf;
  close = λ c. c ∷ [];
}

-- How a socket ends a connection: the user closes it, or one of two watches fires.
pub data Ending : Type 0 where
  closes hangs_up fails : Ending

abbrev pub reason : Ending → CloseReason
reason closes = requested
reason hangs_up = hup
reason fails = io_error

abbrev pub end_by : Ending → Os → LmSocket → LmSocket
end_by closes os s = socket_close s
end_by hangs_up os s = (hup_cb s).1
end_by fails os s = (err_cb os s).1

-- An error ends no connection that is not there.
abbrev pub ends : Ending → LmSocket → Bool
ends fails s = s.connected
ends _ s = true

-- What the channels emit for each `closed` that their socket `i` has emitted, the latest last.
abbrev pub heard : ℕ → World → ℕ → List CloseReason → List (ℕ × Signal)
heard fuel v i [] = []
heard fuel v i (r ∷ rs) = heard fuel v i rs ++ emit fuel v.handlers (closed r) i
