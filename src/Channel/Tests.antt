-- ===== src/Channel/Tests.antt =====
-- Channels of lm-channel.c: 2 wraps 1, which wraps 0.
use lm_transport.Base.{◌≡◌, refl, ◌==◌, some, [], ◌∷◌, map, arith}
use lm_transport.Glib.{eof}
use lm_transport.Channel.{
  World, Bottom, readable, new_priv, set_inner, emit, channel_read, channel_write, channel_close,
}
use lm_transport.Channel.Signals.{wrap, emit-wrap}
use lm_transport.Channel.Passing.{at_bottom, passing, Wraps-passing}

abbrev apart : World
apart = record { priv = λ c. new_priv; handlers = []; calls = [] }

abbrev stack : World
stack = set_inner 2 1 (set_inner 1 0 apart)

abbrev bottom : Bottom
bottom = record { read = λ c len. (eof, []); write = λ c buf. (eof, 0); close = λ c. c ∷ [] }

emit-wrap_example :
    emit 2 (wrap 0 (1 ∷ 2 ∷ []) apart).handlers readable 0
    ≡ (0, readable) ∷ map (λ c. (c, readable)) (1 ∷ 2 ∷ [])
emit-wrap_example = emit-wrap 2 readable 0 (1 ∷ 2 ∷ []) apart (omega arith) (ground arith) tt

passed_on :
    (channel_read bottom (λ c. c == 0) stack 3 (some 2) 10 ≡ some (bottom.read 0 10))
    × (channel_write bottom (λ c. c == 0) stack 3 (some 2) [] ≡ some (bottom.write 0 []))
    × (channel_close bottom (λ c. c == 0) stack 3 (some 2) ≡ some (bottom.close 0))
unfolding set_inner
passed_on =
    Wraps-passing bottom (λ c. c == 0) stack 0 10 3 []
      (passing refl refl (passing refl refl (at_bottom {n = 0} refl refl))) (omega arith)
