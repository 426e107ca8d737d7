-- ===== src/Channel/Layers.antt =====
-- Channels of lm-channel.c that are wrapped in one another, from the inside out.
use lm_transport.Base.{
  ℕ, ◌+◌, ◌≡◌, refl, sym, Bool, true, false, some, List, [], ◌∷◌, length, All, arith, subst,
}
use lm_transport.Channel.{World, set_inner}
use lm_transport.Channel.Signals.{Fresh, Distinct, wrap}
use lm_transport.Channel.Passing.{Wraps, at_bottom, passing}

-- The last channel of a list that wraps `i`.
abbrev pub outermost : ℕ → List ℕ → ℕ
outermost i [] = i
outermost i (c ∷ cs) = outermost c cs

module _ (is_bottom : ℕ → Bool) where
  -- The channels of the list lead from `c` inwards to `i`.
  Linked : World → ℕ → ℕ → List ℕ → Type 0
  Linked w i c [] = (c ≡ i) × (is_bottom c ≡ true)
  Linked w i c (d ∷ l) = (is_bottom c ≡ false) × ((w.priv c).inner ≡ some d) × Linked w i d l

  -- Wrapping something in a channel that is not among them changes nothing.
  Linked-set_inner :
      (w : World) (i c x j : ℕ) (l : List ℕ)
      → Fresh x (c ∷ l)
      → Linked w i c l
      → Linked (set_inner x j w) i c l
  unfolding Linked set_inner
  Linked-set_inner w i c x j [] f k = k
  Linked-set_inner w i c x j (d ∷ l) f (p, q, k) =
      (p, ground arith, Linked-set_inner w i d x j l f.1 k)

  Linked-Wraps :
      (w : World) (i c : ℕ) (l : List ℕ) → Linked w i c l → Wraps is_bottom w i c (length l)
  unfolding Linked
  Linked-Wraps w i c [] (e, b) = at_bottom e b
  Linked-Wraps w i c (d ∷ l) (p, q, k) = passing p q (Linked-Wraps w i d l k)

  widen :
      (c : ℕ) (m cs : List ℕ) → Fresh c cs → All (λ x. Fresh x m) cs → All (λ x. Fresh x (c ∷ m)) cs
  widen c m [] e f = tt
  widen c m (x ∷ cs) e f = ((λ q. e.0 (sym q), f.0), widen c m cs e.1 f.1)

  start : (c : ℕ) (cs : List ℕ) → Fresh c cs → All (λ x. Fresh x (c ∷ [])) cs
  start c [] e = tt
  start c (x ∷ cs) e = ((λ q. e.0 (sym q), tt), start c cs e.1)

  set_inner-inner : (w : World) (c j : ℕ) → ((set_inner c j w).priv c).inner ≡ some j
  unfolding set_inner
  set_inner-inner w c j = ground arith

  Linked-wrap :
      (w : World) (i j : ℕ) (l cs : List ℕ)
      → All (λ c. is_bottom c ≡ false) cs
      → All (λ x. Fresh x (j ∷ l)) cs
      → Distinct cs
      → Linked w i j l
      → (n : List ℕ) × Linked (wrap j cs w) i (outermost j cs) n × (length n ≡ length l + length cs)
  unfolding wrap Linked
  Linked-wrap w i j l [] p f d k = (l, k, omega arith)
  Linked-wrap w i j l (c ∷ cs) (b, p) (g, f) (e, d) k =
      let w' = set_inner c j w in
      let inner : (w'.priv c).inner ≡ some j = set_inner-inner w c j in
      let (n, linked, e') =
        Linked-wrap w' i c (j ∷ l) cs p (widen c (j ∷ l) cs e f) d
          (b, inner, Linked-set_inner w i j c j l g k) in
      (n, linked, omega (arith, e'))

  -- The outermost of channels of the passing kind that are wrapped in one another leads to the
  -- innermost.
  pub wrap-Wraps :
      (w : World) (i : ℕ) (cs : List ℕ)
      → is_bottom i ≡ true
      → All (λ c. is_bottom c ≡ false) cs
      → Distinct (i ∷ cs)
      → Wraps is_bottom (wrap i cs w) i (outermost i cs) (length cs)
  unfolding Linked
  wrap-Wraps w i cs b p d =
      let (n, linked, e) = Linked-wrap w i i [] cs p (start i cs d.0) d.1 (refl, b) in
      subst (Wraps is_bottom (wrap i cs w) i (outermost i cs)) (omega (arith, e))
        (Linked-Wraps (wrap i cs w) i (outermost i cs) n linked)
