-- ===== src/Tests/Trails.antt =====
-- coordinator/audit.py: a trail of two events. The hash is the text itself.
use threat_hunting_platform.Audit.{
  verify_from, Hash, Entry, open_trail, verify_integrity, last_hash,
}
use threat_hunting_platform.Prelude.{
  ◌≡◌, ◌≢◌, refl, String, List, [], ◌∷◌, ◌++◌, true, false, length, eq_iff, string_Eq, arith,
}
use threat_hunting_platform.Audit.Chain.{Event, log_all, log_all-verifies}
use threat_hunting_platform.Audit.Tampering.{
  verify_integrity_tampered, verify_integrity_truncated, verify_integrity_moved,
}

abbrev text_hash : Hash
text_hash = record { sha256 = λ t. t; show_time = λ n. "t" }

abbrev entry : String → String → String → String → Entry
entry action actor target chain_hash = record {
  timestamp = 0;
  action = action;
  actor = actor;
  target = target;
  details = "{}";
  chain_hash = chain_hash;
}

abbrev first_row : Entry
first_row = entry "block" "root" "acme" "genesistblockrootacme{}"

abbrev second_row : Entry
second_row = entry "revoke" "root" "acme" "genesistblockrootacme{}trevokerootacme{}"

abbrev events : List Event
events = record { action = "unblock"; actor = "root"; target = "bolt"; details = "{}"; at = 1 } ∷ []

rows_verify :
    verify_integrity text_hash (open_trail (first_row ∷ second_row ∷ []))
    ≡ (true, length (first_row ∷ second_row ∷ []))
unfolding verify_integrity open_trail verify_from
rows_verify = refl

log_all-verifies_example :
    let t = log_all text_hash events (open_trail (first_row ∷ second_row ∷ [])) in
    verify_integrity text_hash t ≡ (true, length t.audit_log)
log_all-verifies_example =
    log_all-verifies text_hash (first_row ∷ second_row ∷ []) events rows_verify

ok : (verify_integrity text_hash (open_trail ([] ++ first_row ∷ second_row ∷ []))).0 ≡ true
unfolding verify_integrity open_trail verify_from
ok = refl

-- the first row with another actor
abbrev forged : Entry
forged = record first_row { actor = "mary" }

texts_differ : ◌≢◌ {A = String} "genesistblockmaryacme{}" "genesistblockrootacme{}"
texts_differ e = absurd (ground (arith, eq_iff "genesistblockmaryacme{}" "genesistblockrootacme{}"))

verify_integrity_tampered_example :
    verify_integrity text_hash (open_trail ([] ++ forged ∷ second_row ∷ [])) ≡ (false, 0)
unfolding last_hash
verify_integrity_tampered_example =
    verify_integrity_tampered text_hash [] (second_row ∷ []) first_row forged ok refl texts_differ

verify_integrity_truncated_example : verify_integrity text_hash (open_trail []) ≡ (true, 0)
verify_integrity_truncated_example =
    verify_integrity_truncated text_hash [] (first_row ∷ second_row ∷ []) ok

-- The actor "root" on "acme" becomes "roota" on "cme".
verify_integrity_moved_example :
    verify_integrity text_hash
      (open_trail ([] ++ record first_row { actor = "roota"; target = "cme" } ∷ second_row ∷ []))
    ≡ verify_integrity text_hash (open_trail ([] ++ first_row ∷ second_row ∷ []))
verify_integrity_moved_example =
    verify_integrity_moved text_hash [] (second_row ∷ []) first_row "a" "cme" refl
