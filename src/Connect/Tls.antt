-- ===== src/Connect/Tls.antt =====
-- The TLS context of utils/net_utils.c: `init_ssl_ctx`, `load_ssl_cert` and `clear_ssl_ctx`.
pub mod Sound
use clip_share_desktop.Prelude.{
  Bool, true, false, not, ◌&&◌, Option, none, some, List, [], ◌∷◌, ◌++◌, if◌then◌else◌,
}

-- What the code allocates by OpenSSL, and gives back.
pub data Object : Type 0 where
  bio p12 key client_x509 cabio ca_x509 context : Object

pub data TlsEvent : Type 0 where
  made freed : Object → TlsEvent

-- What the code has set in a context: the oldest version, the client's certificate with its key, the
-- authority's certificate, and the verification of the peer.
pub record Context : Type 0 where
  pub min_tls12 : Bool
  pub has_cert : Bool
  pub has_ca : Bool
  pub verifies_peer : Bool

-- The static variable, and what was done, latest first.
pub record Tls : Type 0 where
  pub ctx : Option Context
  pub events : List TlsEvent

-- What OpenSSL answers: `TLS_client_method`, `SSL_CTX_new`, `d2i_PKCS12_bio`, `PKCS12_parse`,
-- `SSL_CTX_use_cert_and_key`, `SSL_CTX_check_private_key`, `PEM_read_bio_X509`, `X509_STORE_add_cert`.
pub record Answers : Type 0 where
  pub method : Bool
  pub ctx_made : Bool
  pub p12_read : Bool
  pub p12_parsed : Bool
  pub cert_used : Bool
  pub key_matches : Bool
  pub ca_read : Bool
  pub ca_added : Bool

-- Is it `EXIT_SUCCESS`, the context, and what was done, latest first.
pub record Loaded : Type 0 where
  pub success : Bool
  pub ctx : Context
  pub events : List TlsEvent

abbrev pub events_if : Bool → TlsEvent → List TlsEvent → List TlsEvent
events_if test e es = if test then e ∷ es else es

-- From the second BIO on. `X509_STORE_add_cert` and `X509_free` take NULL, and the former then fails.
unfoldable pub load_ca : Answers → Context → List TlsEvent → Loaded
load_ca a c es =
    let read = freed cabio ∷ events_if a.ca_read (made ca_x509) (made cabio ∷ es) in
    let done = events_if a.ca_read (freed ca_x509) read in
    if a.ca_read && a.ca_added
    then record {
      success = true;
      ctx = record c { has_ca = true; verifies_peer = true };
      events = done;
    }
    else record { success = false; ctx = c; events = done }

abbrev pub check_key : Answers → Context → List TlsEvent → Loaded
check_key a c es =
    if a.key_matches then load_ca a c es else record { success = false; ctx = c; events = es }

-- From `SSL_CTX_use_cert_and_key` on.
abbrev pub use_cert : Answers → Context → List TlsEvent → Loaded
use_cert a c es =
    let done = freed client_x509 ∷ freed key ∷ es in
    if a.cert_used
    then check_key a (record c { has_cert = true }) done
    else record { success = false; ctx = c; events = done }

unfoldable pub load_ssl_cert : Answers → Context → List TlsEvent → Loaded
unfolding load_ca
load_ssl_cert a c es =
    if not a.p12_read
    then record { success = false; ctx = c; events = freed bio ∷ made bio ∷ es }
    else if not a.p12_parsed
    then record {
      success = false;
      ctx = c;
      events = freed p12 ∷ freed bio ∷ made p12 ∷ made bio ∷ es;
    }
    else use_cert a c
        (freed p12 ∷ freed bio ∷ made client_x509 ∷ made key ∷ made p12 ∷ made bio ∷ es)

unfoldable pub clear_ssl_ctx : Tls → Tls
clear_ssl_ctx t = elim t.ctx [
  | none ↦ t
  | some c ↦ record { ctx = none; events = freed context ∷ t.events }
]

abbrev pub after_load : Loaded → Tls
after_load l =
    if l.success
    then record { ctx = some l.ctx; events = l.events }
    else record { ctx = none; events = freed context ∷ l.events }

abbrev pub new_context : Context
new_context = record { min_tls12 = true; has_cert = false; has_ca = false; verifies_peer = false }

unfoldable pub init_ssl_ctx : Answers → Tls → Tls
unfolding load_ssl_cert
init_ssl_ctx a t = elim t.ctx [
  | some c ↦ t
  | none ↦
      if not (a.method && a.ctx_made)
      then t
      else after_load (load_ssl_cert a new_context (made context ∷ t.events))
]

-- What the program does with the context: connections begin with `init_ssl_ctx`, and the end clears it.
pub data Step (t : Tls) : Tls → Type 0 where
  connects : (a : Answers) → Step t (init_ssl_ctx a t)
  ends : Step t (clear_ssl_ctx t)

pub data Steps : Tls → Type 0 where
  unused : Steps (record { ctx = none; events = [] })
  next : {t u : Tls} → Steps t → Step t u → Steps u
