-- ===== src/Gnutls/Class.antt =====
-- The class table of lm-secure-channel.c, and what lm-gnutls-channel.c puts in it.
use lm_transport.Base.{ℕ, Bool, Option, none, some, List}
use lm_transport.Gnutls.{Gnutls, GnutlsChannel, start_handshake}

-- The virtual functions of LmSecureChannelClass; `g_assert_not_reached` of an absent one is none.
pub record SecureClass : Type 0 where
  pub is_encrypted : Option (GnutlsChannel → Bool)
  pub start_handshake : Option (List ℕ → GnutlsChannel → GnutlsChannel)

-- lm_gnutls_channel_class_init
unfoldable pub gnutls_class : Gnutls → SecureClass
gnutls_class g = record { is_encrypted = none; start_handshake = some (start_handshake g) }

pub secure_channel_is_encrypted : SecureClass → GnutlsChannel → Option Bool
secure_channel_is_encrypted class c = elim class.is_encrypted [ none ↦ none | some f ↦ some (f c) ]

pub secure_channel_start_handshake : SecureClass → List ℕ → GnutlsChannel → Option GnutlsChannel
secure_channel_start_handshake class host c = elim class.start_handshake [
  | none ↦ none
  | some f ↦ some (f host c)
]
