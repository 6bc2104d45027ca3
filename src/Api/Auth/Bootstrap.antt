-- ===== src/Api/Auth/Bootstrap.antt =====
-- coordinator/api.py: whom the bootstrap key of an organisation authenticates.
use threat_hunting_platform.Prelude.{
  String, ◌≡◌, refl, Bool, true, false, Option, none, some, arith, Bool-cases, inl, inr,
  if◌then◌else◌, ◌==◌, string_Eq, eq_iff,
}
use threat_hunting_platform.Prelude.Table.{find, find_fits}
use threat_hunting_platform.Store.Rows.{Org, Store, is_active}
use threat_hunting_platform.Store.Orgs.{list_orgs, nonempty}
use threat_hunting_platform.Api.{Env, ok}
use threat_hunting_platform.Api.Auth.{Credentials, org_of, org_by_key, get_authenticated_org_id}

-- an active organisation that has the hash of the key
abbrev pub holds : Env → String → Org → Bool
holds env key o = if is_active o.status then o.api_key_hash == env.tokens.sha256 key else false

module _ (env : Env) (c : Credentials) where
  -- The key is that of an active organisation, the first one in the order of enrolment.
  pub record ByKey (s : Store) (i : String) : Type 0 where
    pub key : String
    pub org : Org
    pub given : nonempty c.api_key ≡ some key
    pub first : find (holds env key) (list_orgs s) ≡ some org
    pub named : org.org_id ≡ i
    pub is_live : is_active org.status ≡ true
    pub hashed : org.api_key_hash ≡ env.tokens.sha256 key

  found-ByKey :
      (key i : String) (o : Option Org) (s : Store)
      → nonempty c.api_key ≡ some key
      → find (holds env key) (list_orgs s) ≡ o
      → org_of env c o ≡ ok i
      → ByKey s i
  found-ByKey key i none s g f e = absurd (ground arith)
  found-ByKey key i (some o) s g f e =
      let fits = find_fits (holds env key) (list_orgs s) o f in
      record {
        key = key;
        org = o;
        given = g;
        first = f;
        named = ground arith;
        is_live = ground (arith, fits);
        hashed = (eq_iff o.api_key_hash (env.tokens.sha256 key)).0 (ground (arith, fits));
      }

  key-ByKey :
      (k : Option String) (i : String) (s : Store)
      → nonempty c.api_key ≡ k
      → org_by_key env c k s ≡ ok i
      → ByKey s i
  key-ByKey none i s g e = absurd (ground arith)
  key-ByKey (some key) i s g e = found-ByKey key i (find (holds env key) (list_orgs s)) s g refl e

  -- A request without a verified certificate is authenticated only where mTLS is not required, and
  -- then as the first active organisation, in the order of enrolment, that has the hash of its key.
  pub get_authenticated_org_id-ByKey :
      (i : String) (s : Store)
      → nonempty c.mtls_org_id ≡ none
      → get_authenticated_org_id env c s ≡ ok i
      → (env.require_mtls ≡ false) × ByKey s i
  unfolding get_authenticated_org_id
  get_authenticated_org_id-ByKey i s no_cert e = elim (Bool-cases env.require_mtls) [
    | inl required ↦ absurd (ground (arith, no_cert, required))
    | inr optional ↦
        (optional, key-ByKey (nonempty c.api_key) i s refl (rw (no_cert, optional) at e))
  ]
