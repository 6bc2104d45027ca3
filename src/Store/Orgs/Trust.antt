-- ===== src/Store/Orgs/Trust.antt =====
-- coordinator/store.py: what the methods on `orgs` do to the row that a caller looks up.
use threat_hunting_platform.Prelude.{
  ℕ, ◌≤◌, String, ◌≡◌, true, false, some, arith, eq_iff, ◌==◌, string_Eq, All, Bool-cases,
  Option-cases, inl, inr, ap, sym, if◌then◌else◌, Option, refl, some-injective, subst, eq_refl,
}
use threat_hunting_platform.Prelude.Table.{
  find, delete, find-update, find-append, find_fits, find-delete, find-delete_self, touch,
  All-update,
}
use threat_hunting_platform.Store.Rows.{Org, Fraction, Store, active}
use threat_hunting_platform.Store.Orgs.{
  has_id, get_org, replace_org, enrolled_row, is_enrolled, enroll_org, update_org, update_org_trust,
  set_org_last_accuracy,
}

pub get_org-update_org :
    (i j : String) (f : Org → Org) (s : Store)
    → ((o : Org) → (f o).org_id ≡ o.org_id)
    → get_org j (update_org i f s) ≡ touch (has_id i) f (get_org j s)
unfolding get_org update_org
get_org-update_org i j f s h = find-update (has_id j) (has_id i) f s.orgs (λ o. rw (h o))

pub get_org-has_id : (i : String) (s : Store) (o : Org) → get_org i s ≡ some o → has_id i o ≡ true
unfolding get_org
get_org-has_id i s o e = find_fits (has_id i) s.orgs o e

other_id : (i j : String) (x : Org) → (i == j) ≡ false → has_id j x ≡ true → has_id i x ≡ false
other_id i j x ne h = ground (arith, eq_iff x.org_id j, eq_iff x.org_id i, eq_iff i j)

-- An UPDATE of one organisation leaves the others alone.
pub get_org-update_org_ne :
    (i j : String) (f : Org → Org) (s : Store)
    → ((o : Org) → (f o).org_id ≡ o.org_id)
    → (i == j) ≡ false
    → get_org j (update_org i f s) ≡ get_org j s
get_org-update_org_ne i j f s h ne = elim (Option-cases (get_org j s)) [
  | inl e ↦ ground (arith, get_org-update_org i j f s h)
  | inr (o, e) ↦
      ground (arith, get_org-update_org i j f s h, other_id i j o ne, get_org-has_id j s o e)
]

-- The row that was put is found, and no other organisation changes.
pub get_org-replace_org :
    (j : String) (o : Org) (s : Store)
    → get_org j (replace_org o s) ≡ (if o.org_id == j then some o else get_org j s)
unfolding get_org replace_org
get_org-replace_org j o s =
    let put = find-append (has_id j) (delete (has_id o.org_id) s.orgs) o in
    elim (Bool-cases (o.org_id == j)) [
      | inl same ↦ ground (
        arith,
        put,
        same,
        ap (λ i. find (has_id i) (delete (has_id o.org_id) s.orgs))
            (sym ((eq_iff o.org_id j).0 same)),
        find-delete_self (has_id o.org_id) s.orgs,
      )
      | inr other ↦ ground (
        arith,
        put,
        other,
        find-delete (has_id j) (has_id o.org_id) s.orgs (λ x. other_id o.org_id j x other),
      )
    ]

-- What an enrolment puts in the store is found under the organisation, which was free.
pub enroll_org-get_org :
    (i name hash by : String) (key cert : Option String) (serial : Option ℕ) (notes : Option String)
    (now : ℕ) (s s' : Store)
    → enroll_org i name hash by key cert serial notes now s ≡ some s'
    → (is_enrolled (get_org i s) ≡ false)
      × (get_org i s' ≡ some (enrolled_row i name hash by key cert serial notes now))
unfolding enroll_org enrolled_row
enroll_org-get_org i name hash by key cert serial notes now s s' e =
    let row = enrolled_row i name hash by key cert serial notes now in
    elim (Bool-cases (is_enrolled (get_org i s))) [
      | inl taken ↦ absurd (ground (arith, taken))
      | inr free ↦
          let put = some-injective (replace_org row s) s' (rw free at e) in
          let found : get_org i (replace_org row s) ≡ some row =
            ground (arith, get_org-replace_org i row s, eq_refl i) in
          (free, subst (λ z. get_org i z ≡ some row) put found)
    ]

-- The organisations after an enrolment, or after one that failed.
pub data Puts (s s' : Store) : Type 0 where
  same : s'.orgs ≡ s.orgs → Puts s s'
  put : (row : Org) → row.status ≡ active → s'.orgs ≡ (replace_org row s).orgs → Puts s s'

pub enroll_org-Puts :
    (i name hash by : String) (key cert : Option String) (serial : Option ℕ) (notes : Option String)
    (now : ℕ) (s s' : Store)
    → enroll_org i name hash by key cert serial notes now s ≡ some s'
    → Puts s s'
unfolding enroll_org enrolled_row
enroll_org-Puts i name hash by key cert serial notes now s s' e =
    let row = enrolled_row i name hash by key cert serial notes now in
    elim (Bool-cases (is_enrolled (get_org i s))) [
      | inl taken ↦ absurd (ground (arith, taken))
      | inr free ↦
          put row refl (
            ap (λ (z : Store). z.orgs) (sym (some-injective (replace_org row s) s' (rw free at e))))
    ]

-- Trust scores lie between 0 and 1.
abbrev pub IsScored : Store → Type 0
IsScored s = All (λ (o : Org). o.trust_score ≤ 100) s.orgs

pub update_org_trust-IsScored :
    (i : String) (n now : ℕ) (s : Store) → IsScored s → IsScored (update_org_trust i n now s)
unfolding update_org_trust
update_org_trust-IsScored i n now s h =
    All-update (λ o. o.trust_score ≤ 100) (has_id i) _ s.orgs (λ o q. omega arith) h

pub set_org_last_accuracy-IsScored :
    (i : String) (a : Fraction) (s : Store) → IsScored s → IsScored (set_org_last_accuracy i a s)
unfolding set_org_last_accuracy
set_org_last_accuracy-IsScored i a s h =
    All-update (λ o. o.trust_score ≤ 100) (has_id i) _ s.orgs (λ o q. q) h
