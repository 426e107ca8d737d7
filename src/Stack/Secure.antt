-- ===== src/Stack/Secure.antt =====
-- A socket of lm-socket.c that test-secure.c puts a TLS channel around, in its handler of the
-- connection's result.
use lm_transport.Base.{
  ℕ, suc, ◌≡◌, ◌≢◌, Bool, true, false, none, some, List, [], ◌∷◌, arith, not, if◌then◌else◌,
}
use lm_transport.Channel.{World, opened, new_priv, update, emit, get_inner, set_inner}
use lm_transport.Channel.Signals.{Unheard, wrap, emit-wrap}
use lm_transport.Gnutls.Transport.{secure_channel_new}
use lm_transport.Socket.{LmSocket, Os, Call, ConnectResult, ok, connect_result, out_cb}
use lm_transport.Socket.Specification.{visible, out_cb_emits}

-- What the handler prints, and that it quits the main loop, latest first.
pub data Effect : Type 0 where
  callback : ConnectResult → Effect
  failed_to_connect quits : Effect

abbrev pub is_ok : ConnectResult → Bool
is_ok ok = true
is_ok _ = false

-- socket_connected, with `i` the socket and `c` the new channel. A failure does not end it.
unfoldable pub socket_connected : ConnectResult → (i c : ℕ) → World → World × List Effect
socket_connected res i c w = (
  secure_channel_new none i c w,
  if not (is_ok res) then quits ∷ failed_to_connect ∷ callback res ∷ [] else callback res ∷ [],
)

-- A callback for output on a socket that is not connected reports OK and then the opening, and
-- nothing between. A TLS channel that the handler of the result puts around the socket therefore
-- emits the opening as well, once, after the socket, and has the socket as its inner channel; the two
-- differ, and nothing else handles their signals.
pub secure_opens :
    (os : Os) (s : LmSocket) (i c fuel : ℕ) (w : World)
    → s.connected ≡ false
    → i ≢ c
    → Unheard (i ∷ c ∷ []) w.handlers
    → let t = (out_cb os s).1 in
      let v = (socket_connected ok i c w).0 in
      (visible t.calls ≡ Call.opened ∷ connect_result ok ∷ visible s.calls)
      × (emit (suc fuel) v.handlers opened i ≡ (i, opened) ∷ (c, opened) ∷ [])
      × (get_inner v c ≡ some i)
unfolding socket_connected secure_channel_new set_inner get_inner wrap
secure_opens os s i c fuel w n d u =
    let (up, down) = out_cb_emits os s in
    let (emitted, connected) = down n in
    (
      emitted,
      emit-wrap (suc fuel) opened i (c ∷ []) (record w { priv = update w.priv c new_priv })
          (omega arith) ((d, tt), (tt, tt)) u,
      ground arith,
    )
