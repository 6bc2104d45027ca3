-- ===== src/Audit/Chain.antt =====
-- coordinator/audit.py: what `log` writes verifies.
use threat_hunting_platform.Prelude.{
  ℕ, suc, ◌+◌, String, ◌≡◌, refl, Bool, true, List, [], ◌∷◌, ◌++◌, arith, eq_refl, ◌==◌, string_Eq,
  length, sym,
}
use threat_hunting_platform.Audit.{
  Hash, Entry, AuditTrail, last_hash, open_trail, chain_input, new_entry, log, verify_from,
  verify_integrity,
}

-- A call of `log`.
pub record Event : Type 0 where
  pub action : String
  pub actor : String
  pub target : String
  pub details : String
  pub at : ℕ

module _ (h : Hash) where
  abbrev links : String → Entry → Bool
  links prev e = h.sha256 (chain_input h prev e) == e.chain_hash

  -- An intact chain with one more entry that links on is intact.
  pub verify_from-append :
      (prev : String) (i : ℕ) (rows : List Entry) (e : Entry)
      → verify_from h prev i rows ≡ (true, i + length rows)
      → links (last_hash prev rows) e ≡ true
      → verify_from h prev i (rows ++ e ∷ []) ≡ (true, i + length (rows ++ e ∷ []))
  unfolding verify_from last_hash
  verify_from-append prev i [] e ok link = ground arith
  verify_from-append prev i (r ∷ rows) e ok link =
      ground (arith, verify_from-append r.chain_hash (suc i) rows e)

  last_hash-append :
      (prev : String) (rows : List Entry) (e : Entry)
      → last_hash prev (rows ++ e ∷ []) ≡ e.chain_hash
  unfolding last_hash
  last_hash-append prev [] e = refl
  last_hash-append prev (r ∷ rows) e = last_hash-append r.chain_hash rows e

  -- the chain verifies whole, and the next entry is linked to its end
  pub record IsIntact (t : AuditTrail) : Type 0 where
    pub verified : verify_integrity h t ≡ (true, length t.audit_log)
    pub linked : t.prev_hash ≡ last_hash "genesis" t.audit_log

  pub log-IsIntact :
      (action actor target details : String) (now : ℕ) (t : AuditTrail)
      → IsIntact t
      → IsIntact (log h action actor target details now t)
  unfolding log verify_integrity
  log-IsIntact action actor target details now t k =
      let e = new_entry h t.prev_hash action actor target details now in
      record {
        verified = ground (
          arith,
          k.verified,
          k.linked,
          eq_refl e.chain_hash,
          verify_from-append "genesis" 0 t.audit_log e,
        );
        linked = sym (last_hash-append "genesis" t.audit_log e);
      }

  unfoldable pub log_all : List Event → AuditTrail → AuditTrail
  log_all [] t = t
  log_all (e ∷ es) t = log_all es (log h e.action e.actor e.target e.details e.at t)

  log_all-IsIntact : (es : List Event) (t : AuditTrail) → IsIntact t → IsIntact (log_all es t)
  unfolding log_all
  log_all-IsIntact [] t k = k
  log_all-IsIntact (e ∷ es) t k =
      log_all-IsIntact es _ (log-IsIntact e.action e.actor e.target e.details e.at t k)

  -- A trail that is opened on rows that verify, and then written to by any calls of `log`, verifies
  -- to its last row.
  pub log_all-verifies :
      (rows : List Entry) (es : List Event)
      → verify_integrity h (open_trail rows) ≡ (true, length rows)
      → let t = log_all es (open_trail rows) in verify_integrity h t ≡ (true, length t.audit_log)
  log_all-verifies rows es ok =
      (log_all-IsIntact es (open_trail rows) (record {
        verified = unfold open_trail in ok;
        linked = unfold open_trail in refl;
      })).verified
