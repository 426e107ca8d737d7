-- ===== src/Channel/Signals.antt =====
-- How signals travel through nested channels in lm-channel.c.
use mathlib.Core.List.{append-nil, append_assoc}
use lm_transport.Base.{
  ℕ, zero, suc, ◌≤◌, ◌≡◌, ◌≢◌, refl, sym, ap, ◌∙◌, some, List, [], ◌∷◌, ◌++◌, map, length, All,
  All-mono, arith,
}
use lm_transport.Channel.{World, Signal, set_inner, get_inner, emit_each, emit}

-- The handlers of channels that each wrap the one before, `i` the innermost.
abbrev wired : ℕ → List ℕ → List (ℕ × ℕ)
wired i [] = []
wired i (c ∷ cs) = (i, c) ∷ wired c cs

-- `i` is none of the channels of a list.
abbrev pub Fresh : ℕ → List ℕ → Type 0
Fresh i cs = All (λ c. i ≢ c) cs

-- The channels differ from one another.
abbrev pub Distinct : List ℕ → Type 0
Distinct [] = Unit
Distinct (c ∷ cs) = Fresh c cs × Distinct cs

-- No handler is connected to any of the channels.
abbrev pub Unheard : List ℕ → List (ℕ × ℕ) → Type 0
Unheard cs hs = All (λ h. Fresh h.0 cs) hs

module _ (emit' : ℕ → List (ℕ × Signal)) where
  emit_each-append :
      (i : ℕ) (l : List ℕ) (hs ks : List (ℕ × ℕ))
      → Unheard (i ∷ l) hs
      → emit_each emit' i (hs ++ ks) ≡ emit_each emit' i ks
  unfolding emit_each
  emit_each-append i l [] ks u = refl
  emit_each-append i l ((j, c) ∷ hs) ks u = ground (arith, u.0.0, emit_each-append i l hs ks u.1)

  emit_each-wired : (i c : ℕ) (cs : List ℕ) → Fresh i (c ∷ cs) → emit_each emit' i (wired c cs) ≡ []
  unfolding emit_each
  emit_each-wired i c [] f = refl
  emit_each-wired i c (d ∷ cs) f = ground (arith, f.0, emit_each-wired i d cs f.1)

  emit_each-first :
      (i c : ℕ) (cs : List ℕ) → Fresh i (c ∷ cs) → emit_each emit' i ((i, c) ∷ wired c cs) ≡ emit' c
  unfolding emit_each
  emit_each-first i c cs f = rw (emit_each-wired i c cs f) (ground (arith, append-nil (emit' c)))

All-append {ℓ κ} :
    {A : Type ℓ} (P : A → Type κ) (xs ys : List A) → All P xs → All P ys → All P (xs ++ ys)
All-append P [] ys h k = k
All-append P (x ∷ xs) ys h k = (h.0, All-append P xs ys h.1 k)

emit-wired :
    (fuel : ℕ) (sig : Signal) (i : ℕ) (cs : List ℕ) (hs : List (ℕ × ℕ))
    → length cs ≤ fuel
    → Distinct (i ∷ cs)
    → Unheard (i ∷ cs) hs
    → emit fuel (hs ++ wired i cs) sig i ≡ (i, sig) ∷ map (λ c. (c, sig)) cs
unfolding emit
emit-wired zero sig i [] hs le d u = refl
emit-wired zero sig i (c ∷ cs) hs le d u = absurd (omega arith)
emit-wired (suc fuel) sig i [] hs le d u =
    ap (◌∷◌ (i, sig)) (emit_each-append (λ c. emit fuel (hs ++ []) sig c) i [] hs [] u)
emit-wired (suc fuel) sig i (c ∷ cs) hs le d u =
    let on : ℕ → List (ℕ × Signal) = λ k. emit fuel (hs ++ wired i (c ∷ cs)) sig k in
    let known : Unheard (c ∷ cs) (hs ++ (i, c) ∷ []) =
      All-append (λ h. Fresh h.0 (c ∷ cs)) hs ((i, c) ∷ []) (All-mono (λ h f. f.1) hs u)
        (d.0, tt) in
    ap (◌∷◌ (i, sig)) (
      emit_each-append on i (c ∷ cs) hs (wired i (c ∷ cs)) u
      ∙ emit_each-first on i c cs d.0
      ∙ ap (λ ks. emit fuel ks sig c) (sym (append_assoc hs ((i, c) ∷ []) (wired c cs)))
      ∙ emit-wired fuel sig c cs (hs ++ (i, c) ∷ []) (omega arith) d.1 known)

-- Wraps `i` in the first channel of a list, that in the second, and so on.
unfoldable pub wrap : ℕ → List ℕ → World → World
wrap i [] w = w
wrap i (c ∷ cs) w = wrap c cs (set_inner c i w)

handlers-wrap :
    (i : ℕ) (cs : List ℕ) (w : World) → (wrap i cs w).handlers ≡ w.handlers ++ wired i cs
unfolding wrap set_inner
handlers-wrap i [] w = sym (append-nil w.handlers)
handlers-wrap i (c ∷ cs) w =
    handlers-wrap c cs (set_inner c i w) ∙ append_assoc w.handlers ((i, c) ∷ []) (wired c cs)

-- A signal of the innermost of channels that are wrapped in one another is emitted on each of them
-- once, from the inside out, as it is; the channels differ from one another, and nothing else
-- handles their signals.
pub emit-wrap :
    (fuel : ℕ) (sig : Signal) (i : ℕ) (cs : List ℕ) (w : World)
    → length cs ≤ fuel
    → Distinct (i ∷ cs)
    → Unheard (i ∷ cs) w.handlers
    → emit fuel (wrap i cs w).handlers sig i ≡ (i, sig) ∷ map (λ c. (c, sig)) cs
emit-wrap fuel sig i cs w le d u =
    ap (λ hs. emit fuel hs sig i) (handlers-wrap i cs w)
    ∙ emit-wired fuel sig i cs w.handlers le d u

-- A channel that is given a second inner channel reads from that one, and still passes on the
-- signals of the first.
pub set_inner_twice :
    (fuel : ℕ) (sig : Signal) (c a b : ℕ) (w : World)
    → a ≢ b
    → a ≢ c
    → b ≢ c
    → w.handlers ≡ []
    → let t = set_inner c b (set_inner c a w) in
      (get_inner t c ≡ some b) × (emit (suc fuel) t.handlers sig a ≡ (a, sig) ∷ (c, sig) ∷ [])
unfolding set_inner get_inner emit
set_inner_twice fuel sig c a b w ab ac bc e =
    let hs : List (ℕ × ℕ) = (a, c) ∷ (b, c) ∷ [] in
    let once : emit fuel hs sig c ≡ (c, sig) ∷ [] =
      emit-wired fuel sig c [] hs (omega arith) (tt, tt) ((ac, tt), ((bc, tt), tt)) in
    (ground arith, rw e (ground (arith, once)))
