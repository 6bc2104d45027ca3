-- ===== src/Mtls.antt =====
-- coordinator/mtls_middleware.py: the identity that a request is given before a handler sees it.
-- The store is loaded. What the logger writes is left out.
pub mod Identity
pub mod Revocation
pub mod Reenrolled
pub mod Membership
use threat_hunting_platform.Prelude.{
  ℕ, String, Bytes, Bool, true, false, not, Option, none, some, List, [], ◌∷◌, ◌==◌, string_Eq,
  if◌then◌else◌,
}
use threat_hunting_platform.Store.Rows.{Org, Store, is_active}
use threat_hunting_platform.Store.Orgs.{get_org, nonempty}
use threat_hunting_platform.Ca.{
  Certificate, Crl, is_revoked, is_cert_expired, cert_org_id, verify_cert_signed_by_ca,
}
use threat_hunting_platform.Api.{Env, World, Reply}
use threat_hunting_platform.Api.Auth.{Credentials, get_authenticated_org_id}

-- What a server stores in the scope: bytes, a text, or an object of another type.
pub data PeerEntry : Type 0 where
  der pem : Bytes → PeerEntry
  other_entry : PeerEntry

pub data Peer : Type 0 where
  single : PeerEntry → Peer
  chain : List PeerEntry → Peer

-- What the middleware reads of a request. A value that is false in Python, of another type than
-- these, is `none`; `transport_der` is `none` where the transport has no certificate or raises.
pub record Connection : Type 0 where
  pub client_cert_chain : Option Peer
  pub peer_cert : Option Peer
  pub transport_der : Option Bytes
  pub dev_mtls_org_id : Option String
  pub ssl_client_verify : Option String
  pub ssl_client_cert : Option String

-- `str.upper` and `urllib.parse.unquote`
pub record Texts : Type 0 where
  pub upper : String → String
  pub unquote : String → String

-- an entry that is true in Python
abbrev true_of : PeerEntry → Option PeerEntry
true_of (der b) = elim (nonempty (some b)) [ none ↦ none | some c ↦ some (der c) ]
true_of (pem b) = elim (nonempty (some b)) [ none ↦ none | some c ↦ some (pem c) ]
true_of other_entry = some other_entry

-- the entry that a value stands for, if the value is true in Python
abbrev peer_entry : Option Peer → Option PeerEntry
peer_entry none = none
peer_entry (some (single e)) = true_of e
peer_entry (some (chain [])) = none
peer_entry (some (chain (e ∷ es))) = some e

abbrev pub either {ℓ} : {A : Type ℓ} → Option A → Option A → Option A
either none b = b
either (some a) b = some a

abbrev pub default : String → Option String → String
default d none = d
default d (some t) = t

module _ (env : Env) (t : Texts) where
  abbrev load_entry : Option PeerEntry → Option Certificate
  load_entry none = none
  load_entry (some (der b)) = env.x509.load_der b
  load_entry (some (pem b)) = env.x509.load_pem b
  load_entry (some other_entry) = none

  abbrev load_transport : Option Bytes → Option Certificate
  load_transport none = none
  load_transport (some b) = env.x509.load_der b

  abbrev true_entry : Option PeerEntry → Option PeerEntry
  true_entry none = none
  true_entry (some e) = true_of e

  unfoldable pub extract_cert_from_scope : Connection → Option Certificate
  extract_cert_from_scope r =
      either
        (load_entry (true_entry (either (peer_entry r.client_cert_chain) (peer_entry r.peer_cert))))
        (load_transport (nonempty r.transport_der))

  abbrev load_header : Option String → Option Certificate
  load_header none = none
  load_header (some h) = env.x509.load_pem (t.unquote h)

  unfoldable pub extract_cert_from_proxy_header : Connection → Option Certificate
  extract_cert_from_proxy_header r =
      if not (default "0" (env.environ "FL_TRUSTED_PROXY") == "1")
      then none
      else if not (t.upper (default "" r.ssl_client_verify) == "SUCCESS")
      then none
      else load_header (nonempty r.ssl_client_cert)

  unfoldable pub dev_header_allowed : Bool
  dev_header_allowed = default "0" (env.environ "FL_DEV_ALLOW_HEADER_MTLS") == "1"

  abbrev pub check_org : String → Option Org → Option String
  check_org org_id none = none
  check_org org_id (some o) = if is_active o.status then some org_id else none

  abbrev pub check_name : Option String → Store → Option String
  check_name none s = none
  check_name (some org_id) s = check_org org_id (get_org org_id s)

  abbrev pub is_listed : Option Crl → ℕ → Bool
  is_listed none serial = false
  is_listed (some crl) serial = is_revoked crl serial

  abbrev pub check_cert : Certificate → Option Certificate → ℕ → World → Option String
  check_cert cert none now w = none
  check_cert cert (some ca_cert) now w =
      if not (verify_cert_signed_by_ca env.x509 cert ca_cert)
      then none
      else if is_cert_expired cert now
      then none
      else if is_listed w.crl cert.contents.serial_number
      then none
      else check_name (nonempty (cert_org_id cert)) w.store

  abbrev pub check_presented : Option Certificate → ℕ → World → Option String
  check_presented none now w = none
  check_presented (some cert) now w = check_cert cert env.ca_cert now w

  unfoldable pub presented : Connection → Option Certificate
  unfolding extract_cert_from_scope extract_cert_from_proxy_header
  presented r = either (extract_cert_from_proxy_header r) (extract_cert_from_scope r)

  unfoldable pub extract_verified_org_id : Connection → ℕ → World → Option String
  unfolding dev_header_allowed presented
  extract_verified_org_id r now w =
      either (if dev_header_allowed then nonempty r.dev_mtls_org_id else none)
        (check_presented (presented r) now w)

  -- `request.state` after the middleware
  unfoldable pub dispatch : Connection → ℕ → World → Credentials → Credentials
  unfolding extract_verified_org_id
  dispatch r now w c = record c {
    mtls_org_id = either (nonempty (extract_verified_org_id r now w)) c.mtls_org_id;
  }

  -- A request of an organisation: the middleware, then the dependency of the handler.
  unfoldable pub identify : Connection → Credentials → ℕ → World → Reply String
  unfolding dispatch get_authenticated_org_id
  identify r c now w = get_authenticated_org_id env (dispatch r now w c) w.store
