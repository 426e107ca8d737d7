-- ===== src/Socket/References.antt =====
-- The reference to its address that a socket of lm-socket.c holds.
use lm_transport.Base.{
  ℕ, suc, ◌≡◌, refl, ◌∙◌, Option, none, some, List, [], ◌∷◌, arith, Bool-cases, Option-cases, inl,
  inr,
}
use lm_transport.Address.{Addrinfo, current}
use lm_transport.Socket.{
  LmSocket, Os, Calls, ConnectResult, address_unref, destroyed, attempt_connect, attempts,
  with_iter, attempt_connect_next, emit_connect_result, socket_finalize,
}

-- How often a reference to an address was given back.
abbrev pub returned : Calls → ℕ
returned [] = 0
returned (address_unref ∷ h) = suc (returned h)
returned (_ ∷ h) = returned h

-- Neither a reference taken nor one given back.
pub record Held (s t : LmSocket) : Type 0 where
  pub count : t.sa.ref_count ≡ s.sa.ref_count
  pub back : returned t.calls ≡ returned s.calls

Held-trans : {s t u : LmSocket} → Held s t → Held t u → Held s u
Held-trans p q = record { count = q.count ∙ p.count; back = q.back ∙ p.back }

attempt_connect-Held : (os : Os) (a : Addrinfo) (s : LmSocket) → Held s (attempt_connect os a s).1
unfolding attempt_connect
attempt_connect-Held os a s = ground arith

attempts-Held : (os : Os) (l : List Addrinfo) (s : LmSocket) → Held s (attempts os l s)
unfolding attempts emit_connect_result
attempts-Held os [] s = record { count = refl; back = refl }
attempts-Held os (a ∷ l) s =
    let s' : LmSocket = record s { sa = record s.sa { results_iter = some l } } in
    let tried : Held s (attempt_connect os a s').1 =
      Held-trans (record { count = refl; back = refl }) (attempt_connect-Held os a s') in
    elim (Bool-cases (attempt_connect os a s').0) [
      | inl e ↦ rw (e, attempts) tried
      | inr e ↦ rw (e, attempts) (Held-trans tried (attempts-Held os l (attempt_connect os a s').1))
    ]

pub attempt_connect_next-Held : (os : Os) (s : LmSocket) → Held s (attempt_connect_next os s)
unfolding attempt_connect_next with_iter
attempt_connect_next-Held os s =
    Held-trans (ground arith) (attempts-Held os (current (with_iter s).sa) (with_iter s))

pub emit_connect_result-Held : (r : ConnectResult) (s : LmSocket) → Held s (emit_connect_result r s)
unfolding emit_connect_result
emit_connect_result-Held ConnectResult.ok s = record { count = refl; back = refl }
emit_connect_result-Held _ s = record { count = refl; back = refl }

returned-destroyed : (w : Option ℕ) (h : Calls) → returned (destroyed w h) ≡ returned h
returned-destroyed none h = refl
returned-destroyed (some id) h = refl

-- The finalizer gives the socket's reference back.
pub finalize-returned : (s : LmSocket) → returned (socket_finalize s).calls ≡ suc (returned s.calls)
unfolding socket_finalize
finalize-returned s = elim (Option-cases s.io_channel) [
  | inl e ↦ ground (arith, e)
  | inr (ch, e) ↦
      let h0 : Calls = address_unref ∷ s.calls in
      let h1 : Calls = destroyed s.in_watch h0 in
      let h2 : Calls = destroyed s.out_watch h1 in
      let h3 : Calls = destroyed s.err_watch h2 in
      ground (
        arith,
        e,
        returned-destroyed s.in_watch h0,
        returned-destroyed s.out_watch h1,
        returned-destroyed s.err_watch h2,
        returned-destroyed s.hup_watch h3,
      )
]
