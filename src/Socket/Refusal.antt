-- ===== src/Socket/Refusal.antt =====
-- An attempt that the host refuses, when the watch for output is dispatched before the one for
-- errors.
use lm_transport.Base.{Option, none, some, ℕ, ℤ, ◌≡◌, refl, ap, ◌∙◌, true, false, ◌∷◌, arith}
use lm_transport.Channel.{CloseReason, io_error}
use lm_transport.Socket.{
  LmSocket, Os, Calls, ok, connect_result, opened, closed, out_cb, err_cb,
  emit_disconnected_and_cleanup, destroyed, emit_connect_result,
}
use lm_transport.Socket.History.{tried}
use lm_transport.Socket.Specification.{visible, cleanup_emits, out_cb_emits}

destroyed-tried : (w : Option ℕ) (h : Calls) → tried (destroyed w h) ≡ tried h
destroyed-tried none h = refl
destroyed-tried (some id) h = refl

-- The end of a socket tries no address, and neither does its opening.
cleanup-tried :
    (r : CloseReason) (s : LmSocket)
    → tried (emit_disconnected_and_cleanup r s).calls ≡ tried s.calls
unfolding emit_disconnected_and_cleanup
cleanup-tried r s =
    let h1 = destroyed s.in_watch (closed r ∷ s.calls) in
    let h2 = destroyed s.out_watch h1 in
    let h3 = destroyed s.err_watch h2 in
    ground (
      arith,
      destroyed-tried s.in_watch (closed r ∷ s.calls),
      destroyed-tried s.out_watch h1,
      destroyed-tried s.err_watch h2,
      destroyed-tried s.hup_watch h3,
    )

out_cb-tried : (os : Os) (s : LmSocket) → tried (out_cb os s).1.calls ≡ tried s.calls
unfolding out_cb emit_connect_result
out_cb-tried os s = ground arith

out_cb-same :
    (os : Os) (so_error : Calls → ℤ → ℤ) (s : LmSocket)
    → out_cb (record os { so_error = so_error }) s ≡ out_cb os s
unfolding out_cb
out_cb-same os so_error s = refl

err_cb-connected :
    (os : Os) (t : LmSocket)
    → t.connected ≡ true
    → err_cb os t ≡ (false, emit_disconnected_and_cleanup io_error t)
unfolding err_cb
err_cb-connected os t c = ground (arith, c)

-- The callback for output does not ask for the error of the socket: whatever that is, it reports OK
-- and the opening. The callback for errors that follows then closes the socket, and no other address
-- is tried.
pub refused_opens :
    (os : Os) (so_error : Calls → ℤ → ℤ) (s : LmSocket)
    → s.connected ≡ false
    → let t = (out_cb (record os { so_error = so_error }) s).1 in
      let (again, u) = err_cb (record os { so_error = so_error }) t in
      (t ≡ (out_cb os s).1)
      × (again ≡ false)
      × (visible u.calls ≡ closed io_error ∷ opened ∷ connect_result ok ∷ visible s.calls)
      × (tried u.calls ≡ tried s.calls)
      × (u.connected ≡ false)
refused_opens os so_error s n =
    let o = record os { so_error = so_error } in
    let t = (out_cb o s).1 in
    let (up, down) = out_cb_emits o s in
    let (emitted, c) = down n in
    let e = err_cb-connected o t c in
    let (ended, d) = cleanup_emits io_error t in
    (
      ap (λ x. x.1) (out_cb-same os so_error s),
      ap (λ x. x.0) e,
      ap (λ x. visible x.1.calls) e ∙ ended ∙ ap (λ h. closed io_error ∷ h) emitted,
      ap (λ x. tried x.1.calls) e ∙ cleanup-tried io_error t ∙ out_cb-tried o s,
      ap (λ x. x.1.connected) e ∙ d,
    )
