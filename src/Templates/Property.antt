-- ===== src/Templates/Property.antt =====
-- What the property of the two template classes holds, which is installed as a string and handled as
-- an int.
use lm_transport.Base.{false, List, [], ◌∷◌, ◌≡◌, refl, ap, ◌∙◌, All}
use lm_transport.Templates.{
  Values, Guarded, Dummy, dummy_init, dummy_get_property, dummy_set_property, GnutlsSocket,
  gnutls_socket_init, gnutls_socket_get_property, gnutls_socket_set_property, prop_my_prop,
}

module _ {V : Type 0} (g : Values V) where
  abbrev pub dummy_sets : List V → Dummy → Dummy
  dummy_sets [] d = d
  dummy_sets (v ∷ vs) d = dummy_sets vs (dummy_set_property g prop_my_prop v d)

  abbrev pub gnutls_socket_sets : List V → GnutlsSocket → GnutlsSocket
  gnutls_socket_sets [] d = d
  gnutls_socket_sets (v ∷ vs) d =
      gnutls_socket_sets vs (gnutls_socket_set_property g prop_my_prop v d)

module _ {V : Type 0} (g : Values V) (laws : Guarded g) where
  open laws use {get_refuses, set_refuses}

  dummy_sets_lem :
      (vs : List V) → All (λ v. g.holds_int v ≡ false) vs → dummy_sets g vs dummy_init ≡ dummy_init
  unfolding dummy_init dummy_set_property
  dummy_sets_lem [] h = refl
  dummy_sets_lem (v ∷ vs) (h, hs) =
      ap (λ n. dummy_sets g vs (record { my_prop = n; invalid = [] })) (get_refuses v h)
      ∙ dummy_sets_lem vs hs

  gnutls_socket_sets_lem :
      (vs : List V)
      → All (λ v. g.holds_int v ≡ false) vs
      → gnutls_socket_sets g vs gnutls_socket_init ≡ gnutls_socket_init
  unfolding gnutls_socket_init gnutls_socket_set_property
  gnutls_socket_sets_lem [] h = refl
  gnutls_socket_sets_lem (v ∷ vs) (h, hs) =
      ap (λ n. gnutls_socket_sets g vs (record { my_prop = n; invalid = [] })) (get_refuses v h)
      ∙ gnutls_socket_sets_lem vs hs

  -- The property is installed as a string, so that GObject gives its handlers values that hold no int.
  -- Where the int functions of GObject refuse such values, an object of a template class is after any
  -- number of sets as it was made, and a get leaves the value as GObject handed it in.
  pub strings_dropped :
      (vs : List V) (w : V)
      → All (λ v. g.holds_int v ≡ false) vs
      → g.holds_int w ≡ false
      → (dummy_get_property g prop_my_prop w (dummy_sets g vs dummy_init) ≡ (w, dummy_init))
        × (gnutls_socket_get_property g prop_my_prop w (gnutls_socket_sets g vs gnutls_socket_init)
            ≡ (w, gnutls_socket_init))
  unfolding dummy_get_property gnutls_socket_get_property
  strings_dropped vs w hs h = (
    rw (dummy_sets_lem vs hs, set_refuses w dummy_init.my_prop h) refl,
    rw (gnutls_socket_sets_lem vs hs, set_refuses w gnutls_socket_init.my_prop h) refl,
  )
