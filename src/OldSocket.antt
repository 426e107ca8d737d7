-- ===== src/OldSocket.antt =====
-- lm-old-socket.c: writes with an output buffer. What the GIOChannel answers to the calls of
-- g_io_channel_write_chars is a list, used in order; each answer is a status and the number of bytes
-- taken. `sent` is what the channel has taken so far. No code of the file sets the channel.
pub mod Lost
mod Tests
use lm_transport.Base.{
  ℕ, suc, ◌+◌, ◌-◌, ◌%◌, ◌^◌, ℤ, pos, negsuc, Bool, true, false, Option, none, some, List, [], ◌∷◌,
  ◌++◌, length, take, drop, ltb, ◌==◌, is_some, if◌then◌else◌,
}
use lm_transport.Glib.{IoStatus, error, normal, eof, again}

abbrev pub Answers : Type 0
Answers = List (IoStatus × ℕ)

-- LmOldSocketPriv, less the fields that no function uses; NULL is none; `disconnects` counts the
-- signals "disconnected" with LM_DISCONNECT_REASON_ERROR.
pub record OldSocket : Type 0 where
  pub context : Option ℕ
  pub addresses : Option ℕ
  pub io_channel : Option ℕ
  pub out_buf : Option (List ℕ)
  pub watch_out : Bool
  pub sent : List ℕ
  pub disconnects : ℕ

-- A count as a `guint`, and as a `gint`.
abbrev guint : ℕ → ℕ
guint n = n % 2 ^ 32

abbrev gint : ℕ → ℤ
gint n = if ltb (guint n) (2 ^ 31) then pos (guint n) else negsuc ((2 ^ 32 - 1) - guint n)

-- The bytes up to the first zero; none where they are not ended by one.
c_string : List ℕ → Option (List ℕ)
c_string [] = none
c_string (c ∷ l) =
    let rest = c_string l in
    if c == 0 then some [] else elim rest [ none ↦ none | some t ↦ some (c ∷ t) ]

-- What g_string_new_len and g_string_append_len take of a text: with a negative length, all of it up
-- to its zero byte.
part : List ℕ → ℤ → Option (List ℕ)
unfolding c_string
part l (pos n) = some (take n l)
part l (negsuc n) = c_string l

-- The loop of old_socket_do_write: the count, and what the channel has taken; none while the channel
-- keeps answering AGAIN.
loop : List ℕ → Answers → List ℕ → Option (ℤ × List ℕ × Answers)
loop buf [] sent = none
loop buf ((again, n) ∷ more) sent = loop buf more (sent ++ take n buf)
loop buf ((normal, n) ∷ more) sent = some (gint n, sent ++ take n buf, more)
loop buf ((_, n) ∷ more) sent = some (negsuc 0, sent ++ take n buf, more)

-- old_socket_do_write. g_io_channel_write_chars refuses a channel that is NULL with ERROR.
pub do_write : Option ℕ → List ℕ → Answers → List ℕ → Option (ℤ × List ℕ × Answers)
unfolding loop
do_write none buf ans sent = some (negsuc 0, sent, ans)
do_write (some channel) buf ans sent = loop (take (guint (length buf)) buf) ans sent

-- The outer none stands for a text that is read behind its end.
output_is_buffered : List ℕ → OldSocket → Option (Bool × OldSocket)
unfolding part
output_is_buffered buf s = elim s.out_buf [
  | none ↦ some (false, s)
  | some b ↦ elim (part buf (gint (length buf))) [
    | none ↦ none
    | some l ↦ some (true, record s { out_buf = some (b ++ l) })
  ]
]

-- lm_misc_add_io_watch makes no watch where the channel is NULL.
setup_output_buffer : List ℕ → OldSocket → Option OldSocket
unfolding part
setup_output_buffer buf s = elim (part buf (gint (length buf))) [
  | none ↦ none
  | some l ↦ some (record s { out_buf = some l; watch_out = is_some s.io_channel })
]

-- What old_socket_write does with the count: `b_written < len && b_written != -1`, which compares as
-- a `gsize`, so that a negative count is not below any length.
after_write : List ℕ → ℤ → OldSocket → Option OldSocket
unfolding setup_output_buffer
after_write buf (negsuc n) s = some s
after_write buf (pos n) s =
    let t = setup_output_buffer (drop n buf) s in if ltb n (length buf) then t else some s

-- None while the loop of do_write turns, and where a text is read behind its end.
pub old_socket_write : List ℕ → Answers → OldSocket → Option (OldSocket × Answers)
unfolding output_is_buffered do_write after_write
old_socket_write buf ans s = elim (output_is_buffered buf s) [
  | none ↦ none
  | some (true, t) ↦ some (t, ans)
  | some (false, t) ↦ elim (do_write t.io_channel buf ans t.sent) [
    | none ↦ none
    | some (b_written, sent, more) ↦ elim (after_write buf b_written (record t { sent = sent })) [
      | none ↦ none
      | some u ↦ some (u, more)
    ]
  ]
]

-- The end of socket_buffered_write_cb, with `rest` left in the buffer.
erased : List ℕ → OldSocket → Bool × OldSocket
erased [] s = (false, record s { out_buf = none; watch_out = false })
erased (b ∷ rest) s = (true, record s { out_buf = some (b ∷ rest) })

-- What socket_buffered_write_cb does with the count.
after_buffered : List ℕ → ℤ → OldSocket → Bool × OldSocket
unfolding erased
after_buffered buf (negsuc n) s = (false, record s { disconnects = suc s.disconnects })
after_buffered buf (pos n) s = erased (drop n buf) s

-- socket_buffered_write_cb: whether the watch is kept.
pub buffered_write_cb : Answers → OldSocket → Option (Bool × OldSocket × Answers)
unfolding do_write after_buffered
buffered_write_cb ans s = elim s.out_buf [
  | none ↦ some (false, s, ans)
  | some buf ↦ elim (do_write s.io_channel buf ans s.sent) [
    | none ↦ none
    | some (b_written, sent, more) ↦
        let (keep, t) = after_buffered buf b_written (record s { sent = sent }) in
        some (keep, t, more)
  ]
]

-- lm_old_socket_new, on a new object.
pub old_socket_new : ℕ → OldSocket
old_socket_new context = record {
  context = some context;
  addresses = none;
  io_channel = none;
  out_buf = none;
  watch_out = false;
  sent = [];
  disconnects = 0;
}

-- What the finalizer gives back, in order.
pub data GivenBack : Type 0 where
  main_context_unref freeaddrinfo : ℕ → GivenBack
  string_free : List ℕ → GivenBack

abbrev given {ℓ} : {A : Type ℓ} → (A → GivenBack) → Option A → List GivenBack → List GivenBack
given f none rest = rest
given f (some a) rest = f a ∷ rest

pub old_socket_finalize : OldSocket → List GivenBack
old_socket_finalize s =
    given main_context_unref s.context
      (given freeaddrinfo s.addresses (given string_free s.out_buf []))
