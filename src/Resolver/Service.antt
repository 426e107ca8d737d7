-- ===== src/Resolver/Service.antt =====
-- The names of services and the dispatch of lm-resolver.c.
use lm_transport.Base.{ℕ, ◌≡◌, ◌≢◌, refl, none, some, List, [], ◌∷◌, ◌++◌, All}
use lm_transport.Resolver.{
  ResolverClass, create_srv_string, tcp, dispatch_srv, resolver_lookup_service,
}

-- A label of a domain name.
abbrev pub IsLabel : List ℕ → Type 0
IsLabel l = All (λ c. c ≢ b'.') l

label_split :
    (l k xs ys : List ℕ)
    → IsLabel l
    → IsLabel k
    → l ++ (b'.' ∷ xs) ≡ k ++ (b'.' ∷ ys)
    → (l ≡ k) × (xs ≡ ys)
label_split [] [] xs ys h h' e = (refl, cc)
label_split [] (c ∷ k) xs ys h h' e = absurd (h'.0 (cc))
label_split (c ∷ l) [] xs ys h h' e = absurd (h.0 (cc))
label_split (c ∷ l) (d ∷ k) xs ys h h' e =
    let (p, q) = label_split l k xs ys h.1 h'.1 (cc) in (cc, q)

-- The service string tells domain, service and protocol apart, where service and protocol are
-- labels: equal strings come from equal parts.
pub create_srv_string-injective :
    (d s p d' s' p' : List ℕ)
    → IsLabel s
    → IsLabel s'
    → IsLabel p
    → IsLabel p'
    → create_srv_string (some d) (some s) (some p) ≡ create_srv_string (some d') (some s') (some p')
    → (d ≡ d') × (s ≡ s') × (p ≡ p')
unfolding create_srv_string
create_srv_string-injective d s p d' s' p' hs hs' hp hp' e =
    let (es, rest) =
      label_split s s' (b'_' ∷ p ++ (b'.' ∷ d)) (b'_' ∷ p' ++ (b'.' ∷ d')) hs hs' (cc) in
    let (ep, ed) = label_split p p' d d' hp hp' (cc) in (ed, es, ep)

-- A service lookup on a class that has the function calls it with the name of the TCP service; with
-- a NULL domain or service nothing is looked up.
pub resolver_lookup_service_lem :
    {R : Type 0} (class : ResolverClass R) (made : R) (f : R → List ℕ → R) (d s : List ℕ)
    → class.lookup_srv ≡ some f
    → (resolver_lookup_service class made (some d) (some s)
        ≡ some (some (f made (b'_' ∷ s ++ (b'.' ∷ b'_' ∷ tcp ++ (b'.' ∷ d))))))
      × (resolver_lookup_service class made none (some s) ≡ none)
      × (resolver_lookup_service class made (some d) none ≡ none)
unfolding resolver_lookup_service
resolver_lookup_service_lem class made f d s e = (rw (e, dispatch_srv), refl, refl)
