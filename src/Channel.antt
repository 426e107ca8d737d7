-- ===== src/Channel.antt =====
-- lm-channel.c: channels that wrap one another. The objects are numbered; `priv` holds the private
-- fields of each, and `handlers` the connections that lm_channel_set_inner makes, oldest first: a
-- pair (i, c) stands for the four handlers that pass the signals of i on to c.
pub mod Signals
pub mod Passing
pub mod Layers
mod Tests
use lm_transport.Base.{
  ℕ, zero, suc, Bool, true, false, Option, none, some, List, [], ◌∷◌, ◌++◌, ◌==◌, if◌then◌else◌,
}
use lm_transport.Glib.{IoStatus, error}

-- LmChannelCloseReason
pub data CloseReason : Type 0 where
  requested hup io_error : CloseReason

-- LmChannelPriv; NULL is none.
pub record ChannelPriv : Type 0 where
  pub context : Option ℕ
  pub inner : Option ℕ
  pub outer : Option ℕ

pub data ChannelCall : Type 0 where
  object_ref main_context_ref : ℕ → ChannelCall

pub record World : Type 0 where
  pub priv : ℕ → ChannelPriv
  pub handlers : List (ℕ × ℕ)
  pub calls : List ChannelCall

abbrev pub update : (ℕ → ChannelPriv) → ℕ → ChannelPriv → ℕ → ChannelPriv
update f c p d = if c == d then p else f d

pub new_priv : ChannelPriv
new_priv = record { context = none; inner = none; outer = none }

-- The context property can be set at the construction only.
pub set_context : ℕ → Option ℕ → World → World
set_context c none w = w
set_context c (some x) w = record w {
  priv = update w.priv c (record (w.priv c) { context = some x });
  calls = main_context_ref x ∷ w.calls;
}

unfoldable pub get_inner : World → ℕ → Option ℕ
get_inner w c = (w.priv c).inner

unfoldable pub get_outer : World → ℕ → Option ℕ
get_outer w c = (w.priv c).outer

-- The properties that channel_get_property knows.
pub data ChannelProperty : Type 0 where
  context inner_channel outer_channel : ChannelProperty

pub channel_get_property : World → ℕ → ChannelProperty → Option ℕ
channel_get_property w c context = (w.priv c).context
channel_get_property w c inner_channel = (w.priv c).inner
channel_get_property w c outer_channel = (w.priv c).outer

unfoldable pub set_inner : ℕ → ℕ → World → World
set_inner c i w = record w {
  priv = update w.priv c (record (w.priv c) { inner = some i });
  handlers = w.handlers ++ (i, c) ∷ [];
  calls = object_ref i ∷ w.calls;
}

-- The body ends in a TODO.
unfoldable pub set_outer : ℕ → ℕ → World → World
set_outer c o w = w

-- The signals that are passed on.
pub data Signal : Type 0 where
  opened readable writeable : Signal
  closed : CloseReason → Signal

-- Emits on each channel that handles the signals of `i`, in the order of the handlers.
emit_each : (ℕ → List (ℕ × Signal)) → ℕ → List (ℕ × ℕ) → List (ℕ × Signal)
emit_each emit i [] = []
emit_each emit i ((j, c) ∷ hs) =
    let rest = emit_each emit i hs in if j == i then emit c ++ rest else rest

-- The emissions that follow from one, in order: each callback emits the same signal on its channel.
-- `fuel` bounds how deep channels are nested.
unfoldable pub emit : ℕ → List (ℕ × ℕ) → Signal → ℕ → List (ℕ × Signal)
unfolding emit_each
emit zero hs sig i = (i, sig) ∷ []
emit (suc fuel) hs sig i = (i, sig) ∷ emit_each (λ c. emit fuel hs sig c) i hs

-- The virtual functions of a class that wraps nothing, or those of LmChannel itself, which pass a
-- call on to the inner channel.
pub record Bottom : Type 0 where
  pub read : ℕ → ℕ → IoStatus × List ℕ
  pub write : ℕ → List ℕ → IoStatus × ℕ
  pub close : ℕ → List ℕ

-- lm_channel_read with channel_default_read: `is_bottom` tells the classes with functions of their
-- own. A call on NULL fails its guard. None when the nesting is deeper than `fuel`.
module _ (b : Bottom) (is_bottom : ℕ → Bool) (w : World) where
  unfoldable pub channel_read : ℕ → Option ℕ → ℕ → Option (IoStatus × List ℕ)
  channel_read fuel none len = some (error, [])
  channel_read zero (some c) len = none
  channel_read (suc fuel) (some c) len =
      let passed = channel_read fuel (w.priv c).inner len in
      if is_bottom c then some (b.read c len) else passed

  unfoldable pub channel_write : ℕ → Option ℕ → List ℕ → Option (IoStatus × ℕ)
  channel_write fuel none buf = some (error, 0)
  channel_write zero (some c) buf = none
  channel_write (suc fuel) (some c) buf =
      let passed = channel_write fuel (w.priv c).inner buf in
      if is_bottom c then some (b.write c buf) else passed

  -- The channels whose own close function is called.
  unfoldable pub channel_close : ℕ → Option ℕ → Option (List ℕ)
  channel_close fuel none = some []
  channel_close zero (some c) = none
  channel_close (suc fuel) (some c) =
      let passed = channel_close fuel (w.priv c).inner in
      if is_bottom c then some (b.close c) else passed
