-- ===== src/TestSecure/Progress.antt =====
-- What holds of test-secure.c between the callbacks, and how its handlers of `closed` and of a
-- report keep it.
use lm_transport.Base.{
  ◌≡◌, refl, sym, ◌∙◌, ap, subst, ◌⊎◌, inl, inr, Bool, true, false, none, some, arith, Bool-cases,
  length, if◌then◌else◌,
}
use lm_transport.AsyncnsResolver.{AsyncnsResolver}
use lm_transport.Socket.{LmSocket}
use lm_transport.Socket.Invariant.{Inv}
use lm_transport.Socket.Watches.{Unwatched, Attached}
use lm_transport.TestSecure.{Program, awaiting, reported, channels_closed}
use lm_transport.TestSecure.Effects.{freed, Sound, AllEncrypted, closed_lem, reported_lem}

-- While the socket is connected, the channels around it are encrypted; the name is freed once for
-- each of them, and then nothing is left that could run.
pub record Handled (p : Program) : Type 0 where
  pub valid : Inv p.socket
  pub attached : Attached p.socket
  pub waits : awaiting p ≡ true → (p.socket.io_channel ≡ none) × (p.socket.connected ≡ false)
  pub secure : p.socket.connected ≡ true → AllEncrypted p.channels
  pub sound : Sound p.effects
  pub frees :
      (freed p.effects ≡ 0)
      ⊎ ((freed p.effects ≡ length p.channels)
          × (p.socket.io_channel ≡ none)
          × (awaiting p ≡ false))

pub either_way :
    (b : Bool) (x y : Program)
    → (b ≡ true → Handled x)
    → (b ≡ false → Handled y)
    → Handled (if b then x else y)
either_way true x y h k = h refl
either_way false x y h k = k refl

pub watched_live :
    (p : Program) → Handled p → ¬ Unwatched p.socket → (freed p.effects ≡ 0) × (awaiting p ≡ false)
watched_live p v w = (
  elim v.frees [ inl z ↦ z | inr (f, n, a) ↦ absurd (w (v.attached.without n)) ],
  elim (Bool-cases (awaiting p)) [
    | inl a ↦ absurd (w (v.attached.without (v.waits a).0))
    | inr a ↦ a
  ],
)

pub asked :
    (p : Program) (r : AsyncnsResolver)
    → p.resolver ≡ some r
    → r.watch_resolv ≡ true
    → awaiting p ≡ true
asked p r e g = ground (arith, e, g)

pub awaiting_live : (p : Program) → Handled p → awaiting p ≡ true → freed p.effects ≡ 0
awaiting_live p v a = elim v.frees [ inl z ↦ z | inr (f, n, b) ↦ ground (arith, a, b) ]

-- The handlers of `closed`, once the socket has neither channel nor watch.
pub ended :
    (p : Program) (s : LmSocket)
    → Handled p
    → ¬ Unwatched p.socket
    → Inv s
    → (s.io_channel ≡ none) × Unwatched s
    → s.connected ≡ false
    → Handled (record p { socket = s; effects = channels_closed p.channels p.effects })
ended p s v w i (n, u) c =
    let (z, b) = watched_live p v w in
    let (f, k) = closed_lem p.channels p.effects in
    record {
      valid = i;
      attached = record { without = λ m. u };
      waits = λ a. (n, c);
      secure = λ d. ground (arith, c, d);
      sound = k v.sound;
      frees = inr (omega (arith, f, z), n, b);
    }

-- A report on a socket that is not connected.
pub reported-Handled :
    (s : LmSocket) (q : Program)
    → Inv q.socket
    → Attached q.socket
    → q.socket.connected ≡ false
    → (awaiting q ≡ true → q.socket.io_channel ≡ none)
    → Sound q.effects
    → freed q.effects ≡ 0
    → Handled (reported s q)
reported-Handled s q i h c a k z =
    let (f, t, b, y) = reported_lem s q in
    record {
      valid = subst Inv (sym t) i;
      attached = subst Attached (sym t) h;
      waits = λ d. (ap (λ x. x.io_channel) t ∙ a (sym b ∙ d), ap (λ x. x.connected) t ∙ c);
      secure = λ d. ground (arith, t, c, d);
      sound = y k;
      frees = inl (f ∙ z);
    }
