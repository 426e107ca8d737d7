-- ===== src/Resolver/Tests.antt =====
-- A service lookup of lm-resolver.c, on a class that records the name that it is asked for.
use lm_transport.Base.{◌≡◌, refl, ℕ, List, [], ◌∷◌, arith}
use lm_transport.Resolver.{tcp}
use lm_transport.Resolver.Service.{create_srv_string-injective}

abbrev domain : List ℕ
domain = b'a' ∷ b'.' ∷ b'b' ∷ []

abbrev service : List ℕ
service = b'x' ∷ []

create_srv_string-injective_example : (domain ≡ domain) × (service ≡ service) × (tcp ≡ tcp)
create_srv_string-injective_example =
    create_srv_string-injective domain service tcp domain service tcp (ground arith) (ground arith)
      (ground arith) (ground arith) refl
