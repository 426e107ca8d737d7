-- ===== src/Channel/Passing.antt =====
-- How calls are passed inwards in lm-channel.c.
use lm_transport.Base.{ℕ, zero, suc, ◌<◌, ◌≡◌, Bool, true, false, some, List, arith}
use lm_transport.Channel.{World, Bottom, channel_read, channel_write, channel_close}

-- `n` channels of the passing kind lead from a channel to `i`, which has functions of its own.
pub data Wraps (is_bottom : ℕ → Bool) (w : World) (i : ℕ) : ℕ → ℕ → Type 0 where
  at_bottom : {c n : ℕ} → c ≡ i → is_bottom c ≡ true → Wraps is_bottom w i c n
  passing :
      {c d n : ℕ}
      → is_bottom c ≡ false
      → (w.priv c).inner ≡ some d
      → Wraps is_bottom w i d n
      → Wraps is_bottom w i c (suc n)

-- A read, a write or a close of a channel that wraps another through any number of channels of the
-- passing kind is that of the innermost one.
pub Wraps-passing :
    (b : Bottom) (is_bottom : ℕ → Bool) (w : World) (i len fuel : ℕ) (buf : List ℕ) {c n : ℕ}
    → Wraps is_bottom w i c n
    → n < fuel
    → (channel_read b is_bottom w fuel (some c) len ≡ some (b.read i len))
      × (channel_write b is_bottom w fuel (some c) buf ≡ some (b.write i buf))
      × (channel_close b is_bottom w fuel (some c) ≡ some (b.close i))
unfolding channel_read channel_write channel_close
Wraps-passing b is_bottom w i len zero buf h lt = absurd (omega arith)
Wraps-passing b is_bottom w i len (suc fuel) buf (at_bottom e t) lt = ground arith
Wraps-passing b is_bottom w i len (suc fuel) buf (passing {d} f e h) lt =
    ground (arith, Wraps-passing b is_bottom w i len fuel buf h (omega arith))
