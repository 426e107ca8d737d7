-- ===== src/TestSecure/Waiting.antt =====
-- That test-secure.c does not wait for nothing.
use lm_transport.Base.{ℕ, ◌≡◌, inl, true, false, List, arith, ℤ}
use lm_transport.Socket.{LmSocket, Os}
use lm_transport.Socket.Invariant.{Inv, Step as SocketStep}
use lm_transport.Gnutls.{Gnutls}
use lm_transport.AsyncnsResolver.{Asyncns, AsyncnsResolver}
use lm_transport.TestSecure.{Effect, Program, channels_closed, Step}
use lm_transport.TestSecure.Quitting.{Live, is_empty, closed-has_quit}

-- While the socket is connected, some channel is around it.
record Served (p : Program) : Type 0 where
  valid : Inv p.socket
  around : p.socket.connected ≡ true → is_empty p.channels ≡ false
  live : Live p

module _ (os : Os) (dns : Asyncns) (tls : List Effect → Gnutls) (records : List Effect → List ℤ)
    (host : List ℕ) where
  -- The handlers of `closed`, of which there is one at least while the socket is connected.
  ended :
      (p : Program) (s : LmSocket)
      → Served p
      → p.socket.connected ≡ true
      → Inv s
      → s.connected ≡ false
      → Served (record p { socket = s; effects = channels_closed p.channels p.effects })
  ended p s v c i d = record {
    valid = i;
    around = λ x. ground (arith, d, x);
    live = inl (closed-has_quit p.channels p.effects (v.around c));
  }
