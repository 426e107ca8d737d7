-- ===== src/Gnutls/State.antt =====
-- LmGnuTLSChannelPriv and LmSecureChannelPriv, and what the library says and is asked.
use lm_transport.Base.{ℕ, ℤ, Bool, Option, List}

pub data SslStatus : Type 0 where
  no_cert_found untrusted_cert cert_expired cert_not_activated cert_hostname_mismatch : SslStatus
  cert_fingerprint_mismatch generic_error : SslStatus

pub data SslResponse : Type 0 where
  continue stop : SslResponse

-- The codes of the library and what it says of one session with a peer. The import of a certificate
-- and its fingerprint are asked of what `&cert_list[0]` points at.
pub record Gnutls : Type 0 where
  pub e_interrupted : ℤ
  pub e_again : ℤ
  pub e_no_certificate_found : ℤ
  pub handshake : ℤ
  pub verify_peers2 : ℤ
  pub cert_invalid : Bool  -- status & GNUTLS_CERT_INVALID
  pub cert_revoked : Bool  -- status & GNUTLS_CERT_REVOKED
  pub expiration_time : ℕ
  pub activation_time : ℕ
  pub now : ℕ
  pub is_x509 : Bool
  pub cert_list : Option (List ℕ)  -- the certificate at `cert_list`, none for NULL
  pub crt_import : Option (List ℕ) → ℤ
  pub check_hostname : List ℕ → Bool
  pub fingerprint_code : Option (List ℕ) → ℤ
  pub digest : List ℕ
  pub digest_size : ℕ
  pub fingerprint_text : List ℕ  -- the string at `fingerprint`

-- The kinds of certificates and of compression that a session prefers.
pub data CertType : Type 0 where
  x509 openpgp : CertType

pub data Compression : Type 0 where
  deflate no_compression : Compression

pub data TlsCall : Type 0 where
  global_init alloc_credentials trust_file free_credentials global_deinit : TlsCall
  session_init default_priority : TlsCall
  certificate_types : List CertType → TlsCall
  compressions : List Compression → TlsCall
  credentials_set transport_set_ptr set_push_function set_pull_function : TlsCall
  handshaken bye session_deinit close_inner : TlsCall
  -- a certificate, and a copy of the expected fingerprint
  crt_init crt_deinit copy_expected free_expected : TlsCall
  -- a string that a property of the channel keeps
  string_dup string_free : TlsCall

-- LmGnuTLSChannelPriv and LmSecureChannelPriv; `asked` are the questions put to the user and
-- `calls` the calls of the library that manage its objects, latest first.
pub record GnutlsChannel : Type 0 where
  pub is_encrypted : Bool
  pub expected_fingerprint : Option (List ℕ)
  pub fingerprint : Option (List ℕ)
  pub asked : List SslStatus
  pub calls : List TlsCall
