-- ===== src/OldSocket/Lost.antt =====
-- A new old socket of lm-old-socket.c, which has no channel.
use lm_transport.Base.{ℕ, ◌≡◌, refl, false, some, List, [], ◌∷◌}
use lm_transport.OldSocket.{
  Answers, old_socket_new, old_socket_write, buffered_write_cb, do_write, after_write,
  output_is_buffered, old_socket_finalize, main_context_unref,
}

pub old_socket_write-new :
    (buf : List ℕ) (ans : Answers) (context : ℕ)
    → old_socket_write buf ans (old_socket_new context) ≡ some (old_socket_new context, ans)
unfolding old_socket_write output_is_buffered do_write after_write old_socket_new
old_socket_write-new buf ans context = refl

pub buffered_write_cb-new :
    (ans : Answers) (context : ℕ)
    → buffered_write_cb ans (old_socket_new context) ≡ some (false, old_socket_new context, ans)
unfolding buffered_write_cb old_socket_new
buffered_write_cb-new ans context = refl

pub old_socket_finalize-new :
    (context : ℕ) → old_socket_finalize (old_socket_new context) ≡ main_context_unref context ∷ []
unfolding old_socket_finalize old_socket_new
old_socket_finalize-new context = refl
