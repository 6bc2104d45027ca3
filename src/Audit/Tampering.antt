-- ===== src/Audit/Tampering.antt =====
-- coordinator/audit.py: which changes to the stored rows `verify_integrity` finds, and which it
-- does not.
use text.Mathlib.TextLemmas.{append_assoc}
use threat_hunting_platform.Prelude.{
  ℕ, suc, ◌+◌, String, ◌≡◌, ◌≢◌, refl, true, false, List, [], ◌∷◌, ◌++◌, ◌<>◌, arith, eq_iff,
  string_Eq, length, sym, ◌∙◌,
}
use threat_hunting_platform.Audit.{
  Hash, Entry, last_hash, open_trail, chain_input, verify_from, verify_integrity,
}

module _ (h : Hash) where
  verify_from-bad :
      (prev : String) (i : ℕ) (pre post : List Entry) (e : Entry)
      → verify_from h prev i pre ≡ (true, i + length pre)
      → h.sha256 (chain_input h (last_hash prev pre) e) ≢ e.chain_hash
      → verify_from h prev i (pre ++ e ∷ post) ≡ (false, i + length pre)
  unfolding verify_from last_hash
  verify_from-bad prev i [] post e ok bad =
      ground (arith, eq_iff (h.sha256 (chain_input h prev e)) e.chain_hash)
  verify_from-bad prev i (r ∷ pre) post e ok bad =
      ground (arith, verify_from-bad r.chain_hash (suc i) pre post e)

  -- A prefix of a chain that verifies verifies.
  verify_from-prefix :
      (prev : String) (i : ℕ) (pre post : List Entry)
      → (verify_from h prev i (pre ++ post)).0 ≡ true
      → verify_from h prev i pre ≡ (true, i + length pre)
  unfolding verify_from
  verify_from-prefix prev i [] post ok = ground arith
  verify_from-prefix prev i (r ∷ pre) post ok =
      ground (arith, verify_from-prefix r.chain_hash (suc i) pre post)

  verify_from-link :
      (prev : String) (i : ℕ) (pre post : List Entry) (e : Entry)
      → (verify_from h prev i (pre ++ e ∷ post)).0 ≡ true
      → h.sha256 (chain_input h (last_hash prev pre) e) ≡ e.chain_hash
  unfolding verify_from last_hash
  verify_from-link prev i [] post e ok =
      ground (arith, eq_iff (h.sha256 (chain_input h prev e)) e.chain_hash)
  verify_from-link prev i (r ∷ pre) post e ok =
      ground (arith, verify_from-link r.chain_hash (suc i) pre post e)

  -- In a trail that verifies, a row whose hashed text is changed while its stored hash is kept is
  -- found, at its place, if the hash tells the two texts apart.
  pub verify_integrity_tampered :
      (pre post : List Entry) (e e' : Entry)
      → (verify_integrity h (open_trail (pre ++ e ∷ post))).0 ≡ true
      → e'.chain_hash ≡ e.chain_hash
      → h.sha256 (chain_input h (last_hash "genesis" pre) e')
        ≢ h.sha256 (chain_input h (last_hash "genesis" pre) e)
      → verify_integrity h (open_trail (pre ++ e' ∷ post)) ≡ (false, length pre)
  unfolding verify_integrity open_trail
  verify_integrity_tampered pre post e e' ok same differ =
      let intact = verify_from-prefix "genesis" 0 pre (e ∷ post) ok in
      let link = verify_from-link "genesis" 0 pre post e ok in
      ground
        (arith, verify_from-bad "genesis" 0 pre post e' intact (λ p. differ (p ∙ same ∙ sym link)))

  -- Rows that are cut off from the end are not missed: what is left verifies.
  pub verify_integrity_truncated :
      (pre post : List Entry)
      → (verify_integrity h (open_trail (pre ++ post))).0 ≡ true
      → verify_integrity h (open_trail pre) ≡ (true, length pre)
  unfolding verify_integrity open_trail
  verify_integrity_truncated pre post ok =
      ground (arith, verify_from-prefix "genesis" 0 pre post ok)

  verify_from-same :
      (prev : String) (i : ℕ) (pre post : List Entry) (e e' : Entry)
      → ((p : String) → chain_input h p e' ≡ chain_input h p e)
      → e'.chain_hash ≡ e.chain_hash
      → verify_from h prev i (pre ++ e' ∷ post) ≡ verify_from h prev i (pre ++ e ∷ post)
  unfolding verify_from
  verify_from-same prev i [] post e e' text hash = rw (text prev, hash)
  verify_from-same prev i (r ∷ pre) post e e' text hash =
      rw (verify_from-same r.chain_hash (suc i) pre post e e' text hash)

  moved_text :
      (p : String) (e : Entry) (moved rest : String)
      → e.target ≡ moved <> rest
      → chain_input h p (record e { actor = e.actor <> moved; target = rest }) ≡ chain_input h p e
  moved_text p e moved rest same = simp (same, append_assoc)

  -- Text that is moved from the start of a row's target to the end of its actor goes unnoticed: the
  -- trail verifies exactly as before.
  pub verify_integrity_moved :
      (pre post : List Entry) (e : Entry) (moved rest : String)
      → e.target ≡ moved <> rest
      → verify_integrity h
          (open_trail (pre ++ record e { actor = e.actor <> moved; target = rest } ∷ post))
        ≡ verify_integrity h (open_trail (pre ++ e ∷ post))
  unfolding verify_integrity open_trail
  verify_integrity_moved pre post e moved rest same =
      verify_from-same "genesis" 0 pre post e (record e { actor = e.actor <> moved; target = rest })
        (λ p. moved_text p e moved rest same) refl
