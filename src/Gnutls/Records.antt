-- ===== src/Gnutls/Records.antt =====
-- Reads, writes and the end of the encrypted channel of lm-gnutls-channel.c.
use lm_transport.Base.{
  ℕ, ◌≡◌, ℤ, pos, negsuc, true, false, Option, some, List, [], ◌∷◌, ◌++◌, All, arith, zero, suc,
  if◌then◌else◌, leb, ◌≤◌, Bool-cases, Option-cases, inl, inr, subst,
}
use lm_transport.Glib.{IoStatus, error, normal, eof}
use lm_transport.Gnutls.{
  Gnutls, GnutlsChannel, retries, settle, read_status, gnutls_read, gnutls_write, gnutls_close,
  session_deinit, bye, close_inner,
}

settle_lem :
    (g : Gnutls) (before rest : List ℤ) (code : ℤ)
    → All (λ c. retries g c ≡ true) before
    → retries g code ≡ false
    → settle g (before ++ code ∷ rest) ≡ some code
unfolding settle
settle_lem g [] rest code h e = ground arith
settle_lem g (c ∷ before) rest code h e = ground (arith, settle_lem g before rest code h.1 e)

-- What a read makes of the code that is not to be retried: its sign decides.
abbrev pub Classified : ℤ → Option (IoStatus × ℕ) → Type 0
Classified (pos n) r = r ≡ some (if leb 1 n then normal else eof, n)
Classified (negsuc n) r = r ≡ some (error, 0)

-- An encrypted read repeats while the library says INTERRUPTED or AGAIN, and then returns NORMAL
-- with the count of a positive code, EOF for 0 and ERROR with no bytes for a negative code; before
-- encryption it is the inner channel's read.
pub gnutls_read_lem :
    (g : Gnutls) (inner : IoStatus × ℕ) (c : GnutlsChannel) (before rest : List ℤ) (code : ℤ)
    → All (λ c. retries g c ≡ true) before
    → retries g code ≡ false
    → (c.is_encrypted ≡ true → Classified code (gnutls_read g inner (before ++ code ∷ rest) c))
      × (c.is_encrypted ≡ false → gnutls_read g inner (before ++ code ∷ rest) c ≡ some inner)
unfolding gnutls_read read_status
gnutls_read_lem g inner c before rest (pos zero) h e =
    (λ y. ground (arith, settle_lem g before rest (pos zero) h e), λ y. ground arith)
gnutls_read_lem g inner c before rest (pos (suc n)) h e =
    (λ y. ground (arith, settle_lem g before rest (pos (suc n)) h e), λ y. ground arith)
gnutls_read_lem g inner c before rest (negsuc n) h e =
    (λ y. ground (arith, settle_lem g before rest (negsuc n) h e), λ y. ground arith)

-- Codes are counts of at most `n` bytes, or errors.
abbrev pub AtMost : ℕ → ℤ → Type 0
AtMost n (pos m) = m ≤ n
AtMost n (negsuc m) = Unit

settle-AtMost :
    (g : Gnutls) (codes : List ℤ) (code : ℤ) (n : ℕ)
    → All (AtMost n) codes
    → settle g codes ≡ some code
    → AtMost n code
unfolding settle
settle-AtMost g [] code n h e = ground (arith, e)
settle-AtMost g (c ∷ codes) code n h e = elim (Bool-cases (retries g c)) [
  | inl y ↦ settle-AtMost g codes code n h.1 (ground (arith, e, y))
  | inr y ↦ subst (AtMost n) (ground (arith, e, y)) h.0
]

-- So is what an encrypted read returns.
pub gnutls_read-AtMost :
    (g : Gnutls) (inner : IoStatus × ℕ) (c : GnutlsChannel) (codes : List ℤ) (r : IoStatus × ℕ)
    (n : ℕ)
    → c.is_encrypted ≡ true
    → All (AtMost n) codes
    → gnutls_read g inner codes c ≡ some r
    → r.1 ≤ n
unfolding gnutls_read read_status
gnutls_read-AtMost g inner c codes r n y h e = elim (Option-cases (settle g codes)) [
  | inl z ↦ ground (arith, e, y, z)
  | inr (pos zero, z) ↦ ground (arith, e, y, z)
  | inr (pos (suc m), z) ↦ ground (arith, e, y, z, settle-AtMost g codes (pos (suc m)) n h z)
  | inr (negsuc m, z) ↦ ground (arith, e, y, z)
]

-- An encrypted write that returns reports NORMAL whatever the library answered: the count is
-- unsigned, so its test for an error never fails.
pub gnutls_write-normal :
    (g : Gnutls) (inner : IoStatus × ℕ) (codes : List ℤ) (c : GnutlsChannel) (r : IoStatus × ℕ)
    → c.is_encrypted ≡ true
    → gnutls_write g inner codes c ≡ some r
    → r.0 ≡ normal
unfolding gnutls_write
gnutls_write-normal g inner codes c r e h = ground arith

-- An encrypted channel that is closed twice ends its TLS session twice, since the close leaves it
-- marked as encrypted.
pub gnutls_close_twice :
    (c : GnutlsChannel)
    → c.is_encrypted ≡ true
    → (gnutls_close (gnutls_close c)).calls
      ≡ close_inner ∷ session_deinit ∷ bye ∷ close_inner ∷ session_deinit ∷ bye ∷ c.calls
unfolding gnutls_close
gnutls_close_twice c e = ground arith
