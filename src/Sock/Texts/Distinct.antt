-- ===== src/Sock/Texts/Distinct.antt =====
-- That a text of lm-sock.c tells the error of Winsock it stands for.
use Prim.Native.String.{String}
use text.Mathlib.Text.{◌==◌}
use text.Mathlib.TextEquality.{eq_iff}
use lm_transport.Base.{
  ◌≡◌, ◌≢◌, refl, sym, ap, ◌∙◌, ℤ, pos, negsuc, int_eq, Bool, true, not, ◌&&◌, List, [], ◌∷◌, arith,
  Bool-cases, inl, inr,
}
use lm_transport.Sock.Texts.{error_texts, text_of, wsa_get_error_str}

-- Whether none of the texts is `t`.
other_texts : String → List (String × String) → Bool
other_texts t [] = true
other_texts t ((name, text) ∷ rest) = not (t == text) && other_texts t rest

-- Whether no text stands twice.
all_differ : List (String × String) → Bool
unfolding other_texts
all_differ [] = true
all_differ ((name, text) ∷ rest) = other_texts text rest && all_differ rest

differ : all_differ error_texts ≡ true
unfolding all_differ
differ = refl

int_eq_sound : (a b : ℤ) → int_eq a b ≡ true → a ≡ b
int_eq_sound (pos a) (pos b) e = ap pos (ground (arith, e))
int_eq_sound (negsuc a) (negsuc b) e = ap negsuc (ground (arith, e))
int_eq_sound (pos a) (negsuc b) e = ground (arith, e)
int_eq_sound (negsuc a) (pos b) e = ground (arith, e)

-- A text that stands nowhere is not given, unless it is "Unknown".
text_of-other :
    (value : String → ℤ) (l : List (String × String)) (err : ℤ) (t : String)
    → other_texts t l ≡ true
    → t ≢ "Unknown"
    → t ≢ text_of value l err
unfolding other_texts text_of
text_of-other value [] err t o u = u
text_of-other value ((name, text) ∷ rest) err t o u = elim (Bool-cases (t == text)) [
  | inl e ↦ ground (arith, o, e)
  | inr n ↦ elim (Bool-cases (int_eq err (value name))) [
    | inl c ↦ λ z. let w = (eq_iff t text).1 (z ∙ ground (arith, c)) in ground (arith, n, w)
    | inr c ↦ λ z. text_of-other value rest err t (ground (arith, o, n)) u (z ∙ ground (arith, c))
  ]
]

text_of-injective :
    (value : String → ℤ) (l : List (String × String)) (a b : ℤ)
    → all_differ l ≡ true
    → text_of value l a ≢ "Unknown"
    → text_of value l a ≡ text_of value l b
    → a ≡ b
unfolding all_differ text_of
text_of-injective value [] a b d u e = absurd (u refl)
text_of-injective value ((name, text) ∷ rest) a b d u e =
    let first = text_of value ((name, text) ∷ rest) a in
    let other : other_texts text rest ≡ true = ground (arith, d) in
    elim (Bool-cases (int_eq a (value name))) [
      | inl x ↦
          let is_text : first ≡ text = ground (arith, x) in
          elim (Bool-cases (int_eq b (value name))) [
            | inl y ↦ int_eq_sound a (value name) x ∙ sym (int_eq_sound b (value name) y)
            | inr y ↦ absurd (
                text_of-other value rest b text other (λ z. u (is_text ∙ z))
                  (sym is_text ∙ e ∙ ground (arith, y)))
          ]
      | inr x ↦
          let is_later : first ≡ text_of value rest a = ground (arith, x) in
          elim (Bool-cases (int_eq b (value name))) [
            | inl y ↦
                let is_text : first ≡ text = e ∙ ground (arith, y) in
                absurd (
                  text_of-other value rest a text other (λ z. u (is_text ∙ z))
                    (sym is_text ∙ is_later))
            | inr y ↦
                text_of-injective value rest a b (ground (arith, d)) (λ z. u (is_later ∙ z))
                  (sym is_later ∙ e ∙ ground (arith, y))
          ]
    ]

-- A text other than "Unknown" is given for one error only, whatever values the constants have.
pub wsa_get_error_str-injective :
    (value : String → ℤ) (a b : ℤ)
    → wsa_get_error_str value a ≢ "Unknown"
    → wsa_get_error_str value a ≡ wsa_get_error_str value b
    → a ≡ b
unfolding wsa_get_error_str
wsa_get_error_str-injective value a b u e = text_of-injective value error_texts a b differ u e
