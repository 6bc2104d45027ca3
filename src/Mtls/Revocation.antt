-- ===== src/Mtls/Revocation.antt =====
-- coordinator/mtls_middleware.py with coordinator/api.py: an organisation that is revoked.
use threat_hunting_platform.Prelude.{
  ℕ, String, ◌≡◌, ◌≢◌, refl, inl, inr, false, Option, none, some, List, [], ◌∷◌, arith, ◌⊎◌, subst,
  All, Option-cases, eq_iff, string_Eq,
}
use threat_hunting_platform.Prelude.Sort.{All-sort_asc}
use threat_hunting_platform.Prelude.Table.{update, All-find}
use threat_hunting_platform.Store.Rows.{Org, Store, revoked, is_active}
use threat_hunting_platform.Store.Orgs.{has_id, get_org, set_org_status, list_orgs, nonempty}
use threat_hunting_platform.Api.{Env, World, ok}
use threat_hunting_platform.Api.Auth.{Credentials, get_authenticated_org_id}
use threat_hunting_platform.Api.Auth.Bootstrap.{ByKey, holds, get_authenticated_org_id-ByKey}
use threat_hunting_platform.Api.Orgs.{revoke_org}
use threat_hunting_platform.Api.Orgs.Status.{with_status, revoke_org-revokes, revoke_org-store}
use threat_hunting_platform.Mtls.{
  Connection, Texts, dev_header_allowed, extract_verified_org_id, dispatch, identify, either,
}
use threat_hunting_platform.Mtls.Identity.{
  Identity, by_header, by_cert, extract_verified_org_id-Identity, nonempty-some,
}

-- no row of the organisation is active
abbrev Inactive : String → Org → Type 0
Inactive i o = o.org_id ≡ i → is_active o.status ≡ false

revoked_rows-Inactive :
    (i : String) (t : List Org) → All (Inactive i) (update (has_id i) (with_status revoked) t)
unfolding update
revoked_rows-Inactive i [] = tt
revoked_rows-Inactive i (o ∷ t) =
    (λ h. ground (arith, eq_iff o.org_id i, h), revoked_rows-Inactive i t)

no_ByKey :
    (env : Env) (c : Credentials) (i : String) (s : Store)
    → ¬ ByKey env c (set_org_status i revoked s) i
unfolding set_org_status list_orgs
no_ByKey env c i s k =
    let rows =
      All-sort_asc (λ (o : Org). o.enrolled_at) (Inactive i) _ (revoked_rows-Inactive i s.orgs) in
    let gone = All-find (Inactive i) (holds env k.key) _ k.org rows k.first k.named in
    absurd (ground (arith, gone, k.is_live))

no_Identity :
    (env : Env) (t : Texts) (r : Connection) (now : ℕ) (w : World) (i : String) (o : Org)
    → dev_header_allowed env t ≡ false
    → get_org i w.store ≡ some o
    → is_active o.status ≡ false
    → ¬ Identity env t r now w i
no_Identity env t r now w i o off known gone (by_header on e) = absurd (ground arith)
no_Identity env t r now w i o off known gone (by_cert cert p c) =
    let live = c.active in absurd (ground (arith, live.known, live.is_live))

nonempty_idem : (v : Option String) (j : String) → nonempty v ≡ some j → nonempty (some j) ≡ some j
nonempty_idem none j e = absurd (ground arith)
nonempty_idem (some v) j e = ground arith

-- Whom a request authenticates as: the middleware's identity, or the owner of a key.
pub sourced :
    (env : Env) (c : Credentials) (i : String) (s : Store) (v : Option String)
    → c.mtls_org_id ≡ none
    → get_authenticated_org_id env (record c { mtls_org_id = either (nonempty v) c.mtls_org_id }) s
      ≡ ok i
    → (v ≡ some i) ⊎ ByKey env (record c { mtls_org_id = either (nonempty v) c.mtls_org_id }) s i
unfolding get_authenticated_org_id
sourced env c i s v fresh e = elim (Option-cases (nonempty v)) [
  | inl no_cert ↦
      inr
        (get_authenticated_org_id-ByKey env
          (record c { mtls_org_id = either (nonempty v) c.mtls_org_id }) i s
          (rw (no_cert, fresh) refl) e).1
  | inr (j, cert) ↦
      let back = nonempty_idem v j cert in
      let e' = rw (cert, back) at e in inl (ground (arith, cert, e', nonempty-some v j cert))
]

module _ (env : Env) (i username : String) (now : ℕ) (w : World) (o : Org)
    (known : get_org i w.store ≡ some o) where
  -- After an enrolled organisation is revoked no request authenticates as it, whatever certificate
  -- or key the request brings, unless the header for tests is allowed.
  pub identify-revoke_org :
      (t : Texts) (r : Connection) (c : Credentials) (now' : ℕ)
      → dev_header_allowed env t ≡ false
      → c.mtls_org_id ≡ none
      → identify env t r c now' (revoke_org env i username now w).1 ≢ ok i
  unfolding identify dispatch get_authenticated_org_id
  identify-revoke_org t r c now' off fresh e =
      let w' = (revoke_org env i username now w).1 in
      let (_, gone, _) = revoke_org-revokes env i username now w o known in
      let same = revoke_org-store env i username now w o known in
      elim (sourced env c i w'.store (extract_verified_org_id env t r now' w') fresh e) [
        | inl cert ↦
            no_Identity env t r now' w' i (with_status revoked o) off gone refl
              (extract_verified_org_id-Identity env t r now' w' i cert)
        | inr key ↦
            no_ByKey env (dispatch env t r now' w' c) i w.store
              (subst (λ s. ByKey env (dispatch env t r now' w' c) s i) same key)
      ]
