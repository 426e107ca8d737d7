-- ===== src/Gnutls/Transport.antt =====
-- The two functions of lm-gnutls-channel.c through which GnuTLS reads and writes the inner channel,
-- and lm_secure_channel_new.
use lm_transport.Base.{ℕ, ◌<◌, ◌≡◌, ℤ, Bool, Option, none, some, List, length, arith}
use lm_transport.Channel.{
  World, Bottom, channel_read, channel_write, get_inner, set_inner, new_priv, update,
}
use lm_transport.Channel.Passing.{Wraps, Wraps-passing}
use lm_transport.Gnutls.{transport_result}

module _ (b : Bottom) (is_bottom : ℕ → Bool) (w : World) (fuel : ℕ) where
  -- gnutls_channel_pull_func: the result and the bytes read.
  pub pull_func : ℕ → ℕ → Option (ℤ × List ℕ)
  pull_func c count = elim (channel_read b is_bottom w fuel (get_inner w c) count) [
    | none ↦ none
    | some (status, bytes) ↦ some (transport_result status (length bytes), bytes)
  ]

  -- gnutls_channel_push_func
  pub push_func : ℕ → List ℕ → Option ℤ
  push_func c buf = elim (channel_write b is_bottom w fuel (get_inner w c) buf) [
    | none ↦ none
    | some (status, n) ↦ some (transport_result status n)
  ]

-- lm_secure_channel_new, with `c` the new object; the context is not used.
unfoldable pub secure_channel_new : (context : Option ℕ) → (inner c : ℕ) → World → World
unfolding set_inner
secure_channel_new context inner c w =
    set_inner c inner (record w { priv = update w.priv c new_priv })

-- Whatever the nesting, GnuTLS reads and writes the innermost channel: the bytes and their count
-- where that is NORMAL, 0 at the end of the stream, and -1 where it is AGAIN or an error.
pub pull_push-Wraps :
    (b : Bottom) (is_bottom : ℕ → Bool) (w : World) (i c d n fuel count : ℕ) (buf : List ℕ)
    → get_inner w c ≡ some d
    → Wraps is_bottom w i d n
    → n < fuel
    → let (read, bytes) = b.read i count in
      let (written, taken) = b.write i buf in
      (pull_func b is_bottom w fuel c count ≡ some (transport_result read (length bytes), bytes))
      × (push_func b is_bottom w fuel c buf ≡ some (transport_result written taken))
unfolding pull_func push_func
pull_push-Wraps b is_bottom w i c d n fuel count buf e h lt =
    let (r, p, q) = Wraps-passing b is_bottom w i count fuel buf h lt in ground (arith, r, p, e)
