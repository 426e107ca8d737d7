-- ===== src/Templates/Tests.antt =====
-- The templates with values that are ints or strings.
use lm_transport.Base.{
  arith, ℕ, ℤ, pos, true, false, List, [], ◌∷◌, ◌⊎◌, inl, inr, refl, ◌≡◌, some, none,
}
use lm_transport.Templates.{
  Values, Guarded, dummy_init, dummy_get_property, dummy_set_property, gnutls_socket_init,
  gnutls_socket_get_property, prop_my_prop, idummy_function,
}
use lm_transport.Templates.Property.{dummy_sets, gnutls_socket_sets, strings_dropped}

-- A value of a gint, or of a string.
abbrev values : Values (ℤ ⊎ List ℕ)
values = record {
  holds_int = λ v. elim v [ inl n ↦ true | inr s ↦ false ];
  get_int = λ v. elim v [ inl n ↦ n | inr s ↦ pos 0 ];
  set_int = λ v n. elim v [ inl m ↦ inl n | inr s ↦ inr s ];
}

values_get_refuses : (v : ℤ ⊎ List ℕ) → values.holds_int v ≡ false → values.get_int v ≡ pos 0
values_get_refuses (inl n) h = ground (arith, h)
values_get_refuses (inr s) h = refl

values_set_refuses : (v : ℤ ⊎ List ℕ) (n : ℤ) → values.holds_int v ≡ false → values.set_int v n ≡ v
values_set_refuses (inl m) n h = ground (arith, h)
values_set_refuses (inr s) n h = refl

values_refuse : Guarded values
values_refuse = record { get_refuses = values_get_refuses; set_refuses = values_set_refuses }

abbrev word : List ℕ
word = b'x' ∷ []

word_dropped :
    (dummy_get_property values prop_my_prop (inr []) (dummy_sets values (inr word ∷ []) dummy_init)
      ≡ (inr [], dummy_init))
    × (gnutls_socket_get_property values prop_my_prop
          (inr [])
          (gnutls_socket_sets values (inr word ∷ []) gnutls_socket_init)
        ≡ (inr [], gnutls_socket_init))
word_dropped = strings_dropped values values_refuse (inr word ∷ []) (inr []) (refl, tt) refl

-- A value of an int would be kept.
int_kept :
    (dummy_get_property values prop_my_prop
      (inl (pos 0))
      (dummy_set_property values prop_my_prop (inl (pos 7)) dummy_init)).0
    ≡ inl (pos 7)
unfolding dummy_get_property dummy_set_property
int_kept = refl

called : idummy_function (some (record { function = some (λ n. n) })) (pos 3) ≡ some (pos 3)
unfolding idummy_function
called = refl

absent : idummy_function (some (record { function = none })) (pos 3) ≡ none
unfolding idummy_function
absent = refl
