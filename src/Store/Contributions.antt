-- ===== src/Store/Contributions.antt =====
-- coordinator/store.py: the methods on the table `contributions`.
pub mod Accepted
use threat_hunting_platform.Prelude.{
  ℕ, ◌+◌, String, Bool, true, false, not, ◌&&◌, Option, none, some, List, [], ◌∷◌, ◌++◌, map, ◌==◌,
  string_Eq, nat_Eq, is_some,
}
use threat_hunting_platform.Prelude.Int.{ℤ}
use threat_hunting_platform.Prelude.Table.{find, any, select}
use threat_hunting_platform.Prelude.Sort.{sort_asc, sort_desc}
use threat_hunting_platform.Store.Rows.{Contribution, Org, Store}
use threat_hunting_platform.Store.Orgs.{get_org}

abbrev pub new_contribution :
    ℕ
    → ℕ
    → String
    → String
    → ℤ
    → String
    → String
    → String
    → Bool
    → Option String
    → Option String
    → ℕ
    → Contribution
new_contribution contribution_id round_id org_id model_sha256 num_examples signed_attestation
      signature_hex challenge accepted model_path rejection_reason now =
    record {
      contribution_id = contribution_id;
      round_id = round_id;
      org_id = org_id;
      received_at = now;
      model_sha256 = model_sha256;
      num_examples = num_examples;
      model_path = model_path;
      signed_attestation = signed_attestation;
      signature_hex = signature_hex;
      challenge = challenge;
      accepted = accepted;
      rejection_reason = rejection_reason;
    }

-- Returns the number of the new row.
unfoldable pub record_contribution :
    ℕ
    → String
    → String
    → ℤ
    → String
    → String
    → String
    → Bool
    → Option String
    → Option String
    → ℕ
    → Store
    → ℕ × Store
record_contribution round_id org_id model_sha256 num_examples signed_attestation signature_hex
      challenge accepted model_path rejection_reason now s =
    let row =
      new_contribution s.next_contribution round_id org_id model_sha256 num_examples
        signed_attestation signature_hex challenge accepted model_path rejection_reason now in
    (
      s.next_contribution,
      record s {
        contributions = s.contributions ++ row ∷ [];
        next_contribution = s.next_contribution + 1;
      },
    )

abbrev pub accepted_from : ℕ → String → Contribution → Bool
accepted_from round_id org_id c = c.round_id == round_id && c.org_id == org_id && c.accepted

unfoldable pub has_accepted_contribution : ℕ → String → Store → Bool
has_accepted_contribution round_id org_id s = any (accepted_from round_id org_id) s.contributions

-- A row of the aggregation query. `model_path` is not NULL.
pub record AcceptedModel : Type 0 where
  pub org_id : String
  pub num_examples : ℤ
  pub model_path : String
  pub model_sha256 : String
  pub trust_score : ℕ

-- `COALESCE(o.trust_score, 0.5)`
abbrev coalesce_trust : Option Org → ℕ
coalesce_trust none = 50
coalesce_trust (some o) = o.trust_score

abbrev joined : Store → List Contribution → List AcceptedModel
joined s [] = []
joined s (c ∷ cs) = elim c.model_path [
  | none ↦ joined s cs
  | some path ↦
      record {
        org_id = c.org_id;
        num_examples = c.num_examples;
        model_path = path;
        model_sha256 = c.model_sha256;
        trust_score = coalesce_trust (get_org c.org_id s);
      }
      ∷ joined s cs
]

unfoldable pub get_accepted_models : ℕ → Store → List AcceptedModel
get_accepted_models round_id s = joined s (
    sort_asc (λ (c : Contribution). c.received_at)
      (select (λ c. c.round_id == round_id && c.accepted && is_some c.model_path) s.contributions))

-- An argument that is None filters nothing.
abbrev matches_round : Option ℕ → Contribution → Bool
matches_round none c = true
matches_round (some r) c = c.round_id == r

abbrev matches_org : Option String → Contribution → Bool
matches_org none c = true
matches_org (some o) c = c.org_id == o

unfoldable pub list_contributions : Option ℕ → Option String → Store → List Contribution
list_contributions round_id org_id s =
    sort_desc (λ (c : Contribution). c.received_at)
      (select (λ c. matches_round round_id c && matches_org org_id c) s.contributions)
