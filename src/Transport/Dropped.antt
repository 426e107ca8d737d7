-- ===== src/Transport/Dropped.antt =====
-- What an old socket of lm-old-socket.c does for the interfaces of the first iteration.
use lm_transport.Base.{ℕ, ◌≡◌, refl, ℤ, Option, none, some, List, [], ◌∷◌}
use lm_transport.OldSocket.{
  Answers, OldSocket, buffered_write_cb, old_socket_finalize, main_context_unref,
}
use lm_transport.OldSocket.Lost.{
  old_socket_write-new, buffered_write_cb-new, old_socket_finalize-new,
}
use lm_transport.Transport.{
  iface_connect, transport_get_handle, transport_read, transport_write, transport_disconnect,
  old_socket_iface, old_socket_transport_iface, old_socket_connect, old_socket_disconnect,
  old_socket_read, old_socket_get_handle, socket_create,
}

-- The calls through the two interfaces, and the callback for output. `A` is the type of a chain of
-- addresses.
pub data Op (A : Type 0) : Type 0 where
  connect : A → ℤ → Op A
  get_handle : Op A
  read : (len : ℕ) → Op A
  write : List ℕ → Op A
  disconnect : Op A
  writable : Op A

-- None where a call has no result.
abbrev step : {A : Type 0} → Op A → Answers → OldSocket → Option (OldSocket × Answers)
step (connect addresses port) ans s = elim (iface_connect old_socket_iface s addresses port) [
  | none ↦ none
  | some t ↦ some (t, ans)
]
step get_handle ans s = elim (transport_get_handle (old_socket_transport_iface ans) s) [
  | none ↦ none
  | some handle ↦ some (s, ans)
]
step (read len) ans s = elim (transport_read (old_socket_transport_iface ans) s len) [
  | none ↦ none
  | some result ↦ some (s, ans)
]
step (write buf) ans s = elim (transport_write (old_socket_transport_iface ans) s buf) [
  | none ↦ none
  | some result ↦ result
]
step disconnect ans s = elim (transport_disconnect (old_socket_transport_iface ans) s) [
  | none ↦ none
  | some t ↦ some (t, ans)
]
step writable ans s = elim (buffered_write_cb ans s) [
  | none ↦ none
  | some (keep, t, more) ↦ some (t, more)
]

abbrev pub run : {A : Type 0} → List (Op A) → Answers → OldSocket → Option (OldSocket × Answers)
run [] ans s = some (s, ans)
run (o ∷ os) ans s = elim (step o ans s) [ none ↦ none | some (t, more) ↦ run os more t ]

step-same :
    {A : Type 0} (o : Op A) (ans : Answers) (context : ℕ)
    → step o ans (socket_create context) ≡ some (socket_create context, ans)
unfolding iface_connect transport_get_handle transport_read transport_write transport_disconnect
    old_socket_iface old_socket_transport_iface old_socket_connect old_socket_disconnect
    old_socket_read old_socket_get_handle socket_create
step-same (connect addresses port) ans context = refl
step-same get_handle ans context = refl
step-same (read len) ans context = refl
step-same (write buf) ans context = rw (old_socket_write-new buf ans context, step) refl
step-same disconnect ans context = refl
step-same writable ans context = rw (buffered_write_cb-new ans context, step) refl

run_lem :
    {A : Type 0} (os : List (Op A)) (ans : Answers) (context : ℕ)
    → run os ans (socket_create context) ≡ some (socket_create context, ans)
run_lem [] ans context = refl
run_lem (o ∷ os) ans context = rw (step-same o ans context, run) (run_lem os ans context)

-- Nothing sets the channel of an old socket. Whatever calls are made through its two interfaces, and
-- whether or not the callback for output runs: every call returns at once, no byte is written or
-- kept to be written, nothing is asked of a channel and nothing is reported as disconnected, so that
-- each write is lost without a report; and the end of the socket gives back the context alone.
pub calls-dropped :
    {A : Type 0} (os : List (Op A)) (ans : Answers) (context : ℕ)
    → (run os ans (socket_create context) ≡ some (socket_create context, ans))
      × (old_socket_finalize (socket_create context) ≡ main_context_unref context ∷ [])
unfolding socket_create
calls-dropped os ans context = (run_lem os ans context, old_socket_finalize-new context)
