-- ===== src/Attestation.antt =====
-- flproto/attestation.py: the signed messages. A message is a dictionary of `Value`s; `Wire` stands
-- for JSON, SHA-256, Ed25519 and ISO 8601. Budgets, scores and times that the source writes as floats
-- are numbers here: thousandths, hundredths and milliseconds.
use threat_hunting_platform.Prelude.{
  ℕ, String, Bytes, Bool, Option, none, some, List, [], ◌∷◌, ◌==◌, string_Eq, if◌then◌else◌,
}
use threat_hunting_platform.Prelude.Int.{ℤ, pos}

-- A JSON value. `number` is a float; `items` and `fields` are any other list, and an object, by
-- their text.
pub data Value : Type 0 where
  text : String → Value
  int : ℤ → Value
  number : ℕ → Value
  texts : List String → Value
  boolean : Bool → Value
  null : Value
  items fields : String → Value

abbrev pub Dict : Type 0
Dict = List (String × Value)

-- `d.get(k)`
unfoldable pub get : String → Dict → Option Value
get k [] = none
get k ((j, v) ∷ d) = if j == k then some v else get k d

-- What `json.loads` makes of a text: it raises, or gives an object or something else.
pub data Loaded : Type 0 where
  invalid other : Loaded
  object : Dict → Loaded

-- `isoformat` is the ISO 8601 text of a time in milliseconds. `canonical` is `json.dumps` with sorted keys and compact separators, `dumps` the plain one,
-- `sorted_texts` is `sorted` on texts. A key that does not load is `none`.
pub record Wire : Type 0 where
  pub canonical : Dict → Bytes
  pub dumps : Dict → Bytes
  pub loads : Bytes → Loaded
  pub isoformat : ℕ → String
  pub sorted_texts : List String → List String
  pub sha256 : Bytes → String
  pub hex : Bytes → String
  pub unhex : String → Option Bytes
  pub sign : String → Bytes → Bytes
  pub verify : String → Bytes → Bytes → Bool
  pub public_of : String → String
  pub public_key_to_pem : String → String
  pub public_key_from_pem : String → Option String
  pub private_key_from_pem : String → Option String

module _ (w : Wire) where
  unfoldable pub build_contribution_attestation : ℕ → String → Bytes → ℤ → String → ℕ → Bytes
  build_contribution_attestation round_id org_id model_bytes num_examples challenge submitted_at =
      w.canonical (
        ("type", text "fl.contribution.v1")
        ∷ ("round_id", int (pos round_id))
        ∷ ("org_id", text org_id)
        ∷ ("model_sha256", text (w.sha256 model_bytes))
        ∷ ("num_examples", int num_examples)
        ∷ ("challenge", text challenge)
        ∷ ("submitted_at", text (w.isoformat submitted_at))
        ∷ [])

  unfoldable pub build_global_model_attestation : ℕ → Bytes → List String → ℕ → Bytes
  build_global_model_attestation round_id model_bytes accepted_org_ids distributed_at =
      w.canonical (
        ("type", text "fl.global_model.v1")
        ∷ ("round_id", int (pos round_id))
        ∷ ("model_sha256", text (w.sha256 model_bytes))
        ∷ ("accepted_orgs", texts (w.sorted_texts accepted_org_ids))
        ∷ ("distributed_at", text (w.isoformat distributed_at))
        ∷ [])

  unfoldable pub build_round_announcement_attestation : ℕ → ℕ → ℕ → List String → ℕ → Bytes
  build_round_announcement_attestation round_id epsilon num_boost_rounds invited_org_ids starts_at =
      w.canonical (
        ("type", text "fl.round_announce.v1")
        ∷ ("round_id", int (pos round_id))
        ∷ ("epsilon", number epsilon)
        ∷ ("num_boost_rounds", int (pos num_boost_rounds))
        ∷ ("invited_orgs", texts (w.sorted_texts invited_org_ids))
        ∷ ("starts_at", text (w.isoformat starts_at))
        ∷ [])

  unfoldable pub build_trust_notification_attestation : String → ℕ → ℕ → String → ℕ → Bytes
  build_trust_notification_attestation org_id round_id new_trust_score reason issued_at =
      w.canonical (
        ("type", text "fl.trust_update.v1")
        ∷ ("org_id", text org_id)
        ∷ ("round_id", int (pos round_id))
        ∷ ("trust_score", number new_trust_score)
        ∷ ("reason", text reason)
        ∷ ("issued_at", text (w.isoformat issued_at))
        ∷ [])

  unfoldable pub build_leave_request_attestation : String → Option String → ℕ → Bytes
  build_leave_request_attestation org_id reason requested_at = w.canonical (
      ("type", text "fl.leave_request.v1")
      ∷ ("org_id", text org_id)
      ∷ ("reason", text (elim reason [ none ↦ "" | some r ↦ r ]))
      ∷ ("requested_at", text (w.isoformat requested_at))
      ∷ [])

  unfoldable pub build_removal_confirm_attestation : String → ℕ → Bytes
  build_removal_confirm_attestation org_id revoked_at = w.canonical (
      ("type", text "fl.removal_confirm.v1")
      ∷ ("org_id", text org_id)
      ∷ ("revoked_at", text (w.isoformat revoked_at))
      ∷ [])

  unfoldable pub build_enroll_token_attestation : String → String → String → ℕ → Bytes
  build_enroll_token_attestation org_id display_name jti expires_at = w.canonical (
      ("type", text "fl.enroll_token.v1")
      ∷ ("org_id", text org_id)
      ∷ ("display_name", text display_name)
      ∷ ("jti", text jti)
      ∷ ("expires_at", number expires_at)
      ∷ [])

  unfoldable pub build_enroll_pop : Bytes → String → Bytes
  build_enroll_pop token_b64 x25519_pub_pem = w.canonical (
      ("type", text "fl.enroll_pop.v1")
      ∷ ("token_sha256", text (w.sha256 token_b64))
      ∷ ("x25519_pub_pem", text x25519_pub_pem)
      ∷ [])
