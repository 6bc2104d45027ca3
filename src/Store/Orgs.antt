-- ===== src/Store/Orgs.antt =====
-- coordinator/store.py: the methods on the table `orgs`. `now` is what `time.time()` returns in the
-- call. A raised `ValueError` is `none`.
pub mod Trust
use mathlib.Core.Option
use threat_hunting_platform.Prelude.{
  ℕ, String, Bool, true, false, ◌&&◌, Option, none, some, List, [], ◌∷◌, ◌++◌, min, ◌==◌, string_Eq,
  nat_Eq, if◌then◌else◌,
}
use threat_hunting_platform.Prelude.Table.{find, select, update, delete}
use threat_hunting_platform.Prelude.Sort.{sort_asc}
use threat_hunting_platform.Store.Rows.{
  Org, OrgStatus, active, revoked, leave_pending, is_active, is_revoked, Fraction, Store,
}

abbrev pub has_id : String → Org → Bool
has_id org_id o = o.org_id == org_id

unfoldable pub get_org : String → Store → Option Org
get_org org_id s = find (has_id org_id) s.orgs

-- the row of a fresh enrolment: the columns that the INSERT does not name have their defaults
unfoldable pub enrolled_row :
    String
    → String
    → String
    → String
    → Option String
    → Option String
    → Option ℕ
    → Option String
    → ℕ
    → Org
enrolled_row org_id display_name api_key_hash enrolled_by public_key_pem cert_pem cert_serial notes
      now =
    record {
      org_id = org_id;
      display_name = display_name;
      api_key_hash = api_key_hash;
      public_key_pem = public_key_pem;
      cert_pem = cert_pem;
      cert_serial = cert_serial;
      enrolled_at = now;
      enrolled_by = enrolled_by;
      status = active;
      trust_score = 100;
      last_seen_at = none;
      last_accuracy = none;
      notes = notes;
      leave_requested_at = none;
      leave_attestation = none;
      leave_signature = none;
      removal_attestation = none;
      removal_signature = none;
    }

-- INSERT OR REPLACE: a row with the same primary key goes
unfoldable pub replace_org : Org → Store → Store
replace_org o s = record s { orgs = delete (has_id o.org_id) s.orgs ++ o ∷ [] }

-- `existing and existing["status"] != "revoked"`
unfoldable pub is_enrolled : Option Org → Bool
is_enrolled none = false
is_enrolled (some o) = if is_revoked o.status then false else true

unfoldable pub enroll_org :
    String
    → String
    → String
    → String
    → Option String
    → Option String
    → Option ℕ
    → Option String
    → ℕ
    → Store
    → Option Store
unfolding get_org is_enrolled replace_org enrolled_row
enroll_org org_id display_name api_key_hash enrolled_by public_key_pem cert_pem cert_serial notes
      now s =
    if is_enrolled (get_org org_id s)
    then none
    else some (
        replace_org
          (enrolled_row org_id display_name api_key_hash enrolled_by public_key_pem cert_pem
            cert_serial notes now)
          s)

-- an empty text is false in Python
abbrev pub nonempty : Option String → Option String
nonempty none = none
nonempty (some t) = if t == "" then none else some t

unfoldable pub get_org_public_key : String → Store → Option String
get_org_public_key org_id s = elim (find (λ o. has_id org_id o && is_active o.status) s.orgs) [
  | none ↦ none
  | some o ↦ nonempty o.public_key_pem
]

abbrev pub serials_of : List Org → List ℕ
serials_of [] = []
serials_of (o ∷ os) = elim o.cert_serial [ none ↦ serials_of os | some n ↦ n ∷ serials_of os ]

unfoldable pub list_revoked_serials : Store → List ℕ
list_revoked_serials s = serials_of (select (λ o. is_revoked o.status) s.orgs)

unfoldable pub list_orgs : Store → List Org
list_orgs s = sort_asc (λ (o : Org). o.enrolled_at) s.orgs

unfoldable pub authenticate_org : String → String → Store → Option Org
authenticate_org org_id api_key_hash s =
    elim (find (λ o. has_id org_id o && is_active o.status) s.orgs) [
      | none ↦ none
      | some o ↦ if o.api_key_hash == api_key_hash then some o else none
    ]

-- UPDATE orgs SET ... WHERE org_id = ?
unfoldable pub update_org : String → (Org → Org) → Store → Store
update_org org_id f s = record s { orgs = update (has_id org_id) f s.orgs }

unfoldable pub set_org_status : String → OrgStatus → Store → Store
unfolding update_org
set_org_status org_id status = update_org org_id (λ o. record o { status = status })

unfoldable pub set_leave_request : String → String → String → ℕ → Store → Store
unfolding update_org
set_leave_request org_id attestation signature_hex now = update_org org_id λ o. record o {
  status = leave_pending;
  leave_requested_at = some now;
  leave_attestation = some attestation;
  leave_signature = some signature_hex;
}

unfoldable pub set_removal_confirm : String → String → String → Store → Store
unfolding update_org
set_removal_confirm org_id attestation signature_hex =
    update_org org_id λ o. record o {
      removal_attestation = some attestation;
      removal_signature = some signature_hex;
    }

-- The score is in hundredths, so that 1.0 is 100.
unfoldable pub update_org_trust : String → ℕ → ℕ → Store → Store
unfolding update_org
update_org_trust org_id trust_score now =
    update_org org_id λ o. record o { trust_score = min 100 trust_score; last_seen_at = some now }

unfoldable pub get_org_last_accuracy : String → Store → Option Fraction
unfolding get_org
get_org_last_accuracy org_id s = elim (get_org org_id s) [ none ↦ none | some o ↦ o.last_accuracy ]

unfoldable pub set_org_last_accuracy : String → Fraction → Store → Store
unfolding update_org
set_org_last_accuracy org_id accuracy =
    update_org org_id (λ o. record o { last_accuracy = some accuracy })
