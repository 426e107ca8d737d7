-- ===== src/Socket/Leaks.antt =====
-- The channels that attempts to connect in lm-socket.c make, and those that are given up.
use lm_transport.Base.{
  ℕ, suc, ◌+◌, ◌≤◌, ◌≡◌, refl, ap, ◌∙◌, false, Option, none, some, List, [], ◌∷◌, arith, Bool-cases,
  Option-cases, inl, inr,
}
use lm_transport.Address.{Addrinfo, current}
use lm_transport.Socket.{
  LmSocket, Os, Calls, connect, channel_new, channel_unref, destroyed, disconnect_io_watches,
  drop_channel, socket_reset, attempt_connect, attempts, with_iter, attempt_connect_next,
  emit_connect_result,
}

-- How many connects were asked for.
abbrev pub connect_count : Calls → ℕ
connect_count [] = 0
connect_count (connect fd a ∷ h) = suc (connect_count h)
connect_count (_ ∷ h) = connect_count h

-- How many channels were made.
abbrev pub channel_count : Calls → ℕ
channel_count [] = 0
channel_count (channel_new ch fd ∷ h) = suc (channel_count h)
channel_count (_ ∷ h) = channel_count h

-- How many references to channels were given up.
abbrev pub unref_count : Calls → ℕ
unref_count [] = 0
unref_count (channel_unref ch ∷ h) = suc (unref_count h)
unref_count (_ ∷ h) = unref_count h

record Left (s t : LmSocket) : Type 0 where
  one_each :
      connect_count t.calls + channel_count s.calls ≡ connect_count s.calls + channel_count t.calls
  none_back : unref_count t.calls ≡ unref_count s.calls

Left-trans : {s t u : LmSocket} → Left s t → Left t u → Left s u
Left-trans p q = record {
  one_each = omega (arith, p.one_each, q.one_each);
  none_back = q.none_back ∙ p.none_back;
}

attempt_connect-Left : (os : Os) (a : Addrinfo) (s : LmSocket) → Left s (attempt_connect os a s).1
unfolding attempt_connect
attempt_connect-Left os a s = ground arith

attempts-Left : (os : Os) (l : List Addrinfo) (s : LmSocket) → Left s (attempts os l s)
unfolding attempts emit_connect_result
attempts-Left os [] s = ground arith
attempts-Left os (a ∷ rest) s =
    let s' : LmSocket = record s { sa = record s.sa { results_iter = some rest } } in
    let first : Left s (attempt_connect os a s').1 =
      Left-trans (ground arith) (attempt_connect-Left os a s') in
    elim (Bool-cases (attempt_connect os a s').0) [
      | inl e ↦ rw (e, attempts) first
      | inr e ↦
          rw (e, attempts) (Left-trans first (attempts-Left os rest (attempt_connect os a s').1))
    ]

-- Giving up a watch is neither a connect nor the end of a channel.
destroyed-counts :
    (w : Option ℕ) (h : Calls)
    → (connect_count (destroyed w h) ≡ connect_count h)
      × (channel_count (destroyed w h) ≡ channel_count h)
      × (unref_count (destroyed w h) ≡ unref_count h)
destroyed-counts none h = (refl, refl, refl)
destroyed-counts (some id) h = (refl, refl, refl)

watches-counts :
    (s : LmSocket)
    → let t = disconnect_io_watches s in
      (connect_count t.calls ≡ connect_count s.calls)
      × (channel_count t.calls ≡ channel_count s.calls)
      × (unref_count t.calls ≡ unref_count s.calls)
unfolding disconnect_io_watches
watches-counts s =
    let a = destroyed s.in_watch s.calls in
    let b = destroyed s.out_watch a in
    let c = destroyed s.err_watch b in
    let (c0, c1, c2) = destroyed-counts s.in_watch s.calls in
    let (d0, d1, d2) = destroyed-counts s.out_watch a in
    let (e0, e1, e2) = destroyed-counts s.err_watch b in
    let (f0, f1, f2) = destroyed-counts s.hup_watch c in
    (f0 ∙ e0 ∙ d0 ∙ c0, f1 ∙ e1 ∙ d1 ∙ c1, f2 ∙ e2 ∙ d2 ∙ c2)

drop_channel-counts :
    (s : LmSocket)
    → let t = drop_channel s in
      (connect_count t.calls ≡ connect_count s.calls)
      × (channel_count t.calls ≡ channel_count s.calls)
      × (unref_count t.calls ≤ suc (unref_count s.calls))
unfolding drop_channel
drop_channel-counts s = elim (Option-cases s.io_channel) [
  | inl n ↦ ground arith
  | inr (ch, e) ↦ ground (arith, watches-counts s)
]

reset-counts :
    (s : LmSocket)
    → let t = socket_reset s in
      (channel_count t.calls ≡ channel_count s.calls)
      × (connect_count t.calls ≡ connect_count s.calls)
      × (unref_count t.calls ≤ suc (unref_count s.calls))
unfolding socket_reset
reset-counts s =
    let (a, b, c) = drop_channel-counts (record s { connected = false; sa_iter = false }) in
    (b, a, c)

with_iter-Left : (s : LmSocket) → Left s (with_iter s)
unfolding with_iter
with_iter-Left s = ground arith

attempt_connect_next-Left : (os : Os) (s : LmSocket) → Left s (attempt_connect_next os s)
unfolding attempt_connect_next
attempt_connect_next-Left os s =
    Left-trans (with_iter-Left s) (attempts-Left os (current (with_iter s).sa) (with_iter s))

-- A socket that has made no calls yet starts to connect, and is reset, as at its end: it has made a
-- channel for each connect that it asked for, and gives up one of them at most.
pub attempts-leak :
    (os : Os) (s : LmSocket)
    → s.calls ≡ []
    → let t = socket_reset (attempt_connect_next os s) in
      (channel_count t.calls ≡ connect_count t.calls) × (unref_count t.calls ≤ 1)
attempts-leak os s e =
    let l = attempt_connect_next-Left os s in
    let (made, asked, back) = reset-counts (attempt_connect_next os s) in
    (
      omega (arith, made, asked, l.one_each, ap connect_count e, ap channel_count e),
      omega (arith, back, l.none_back, ap unref_count e),
    )
