-- ===== src/AsyncnsResolver/Balance.antt =====
-- The resources that lm-asyncns-resolver.c holds, as the history of its calls shows them: the
-- context, the channel on its descriptor and the watch.
use lm_transport.Base.{
  ◌≡◌, refl, ◌∙◌, ap, Bool, true, false, Option, none, some, List, [], ◌∷◌, is_some, arith, sym,
}
use lm_transport.Resolver.{ResolverResult}
use lm_transport.AsyncnsResolver.{
  Call, finished, ctx_new, ctx_free, channel_new, channel_unref, watch_add, watch_destroy,
  AsyncnsResolver, asyncns_cleanup, asyncns_finished, call_if, call, address_unref,
}

pub data Kind : Type 0 where
  context channel watch : Kind

unfoldable pub acquire : Option Bool → Option Bool
acquire (some false) = some true
acquire (some true) = none
acquire none = none

unfoldable pub give_up : Option Bool → Option Bool
give_up (some true) = some false
give_up (some false) = none
give_up none = none

abbrev pub step : Kind → Call → Option Bool → Option Bool
step context ctx_new o = acquire o
step context ctx_free o = give_up o
step channel channel_new o = acquire o
step channel channel_unref o = give_up o
step watch watch_add o = acquire o
step watch watch_destroy o = give_up o
step _ _ o = o

-- Whether a resource is held after the calls; none if one was acquired while it was held, or given
-- up while it was not.
abbrev pub owned : Kind → List Call → Option Bool
owned k [] = some false
owned k (c ∷ h) = step k c (owned k h)

-- The calls agree with what the resolver points to.
pub record Balanced (s : AsyncnsResolver) : Type 0 where
  pub with_channel : s.resolv_channel ≡ s.asyncns_ctx
  pub with_watch : s.watch_resolv ≡ s.asyncns_ctx
  pub held : (k : Kind) → owned k s.calls ≡ some s.asyncns_ctx

pub released :
    (k : Kind) (a b : Bool) (h : List Call)
    → owned k h ≡ some b
    → owned k (
        call_if a address_unref
          (call_if b ctx_free (call_if b watch_destroy (call_if b channel_unref h))))
      ≡ some false
unfolding acquire give_up
released context a b h e = ground arith
released channel a b h e = ground arith
released watch a b h e = ground arith

pub cleanup-held :
    (s : AsyncnsResolver) → Balanced s → (k : Kind) → owned k (asyncns_cleanup s).calls ≡ some false
unfolding asyncns_cleanup
cleanup-held s i k =
    rw (i.with_channel, i.with_watch) (released k (is_some s.sa) s.asyncns_ctx s.calls (i.held k))

abbrev pub Same : AsyncnsResolver → AsyncnsResolver → Type 0
Same s t =
    (t.resolv_channel ≡ s.resolv_channel)
    × (t.watch_resolv ≡ s.watch_resolv)
    × (t.asyncns_ctx ≡ s.asyncns_ctx)
    × ((k : Kind) → owned k t.calls ≡ owned k s.calls)

pub Same-Balanced : {s t : AsyncnsResolver} → Same s t → Balanced s → Balanced t
Same-Balanced (p, q, r, h) i = record {
  with_channel = p ∙ i.with_channel ∙ sym r;
  with_watch = q ∙ i.with_watch ∙ sym r;
  held = λ k. h k ∙ i.held k ∙ ap some (sym r);
}

pub each : (P : Kind → Type 0) → P context → P channel → P watch → (k : Kind) → P k
each P a b c context = a
each P a b c channel = b
each P a b c watch = c

pub finished-Balanced :
    (r : ResolverResult) (s : AsyncnsResolver) → Balanced s → Balanced (asyncns_finished r s)
unfolding asyncns_finished
finished-Balanced r s i =
    let free =
      cleanup-held (call (finished r s.sa) s)
        (Same-Balanced (refl, refl, refl, each _ refl refl refl) i) in
    record {
      with_channel = refl;
      with_watch = refl;
      held = each _ (free context) (free channel) (free watch);
    }
