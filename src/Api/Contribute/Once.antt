-- ===== src/Api/Contribute/Once.antt =====
-- coordinator/api.py: one accepted contribution for an organisation and a round, and two.
use threat_hunting_platform.Prelude.{
  ℕ, String, Bytes, ◌≡◌, refl, true, false, Option, none, some, arith, Bool-cases, inl, inr,
  string_Eq, nat_Eq,
}
use threat_hunting_platform.Prelude.Int.{ℤ, pos, negsuc}
use threat_hunting_platform.Store.Rows.{
  Store, Round, RoundStatus, is_running, running, aggregated, completed,
}
use threat_hunting_platform.Store.Rounds.{get_round}
use threat_hunting_platform.Store.Contributions.{has_accepted_contribution}
use threat_hunting_platform.Store.Contributions.Accepted.{accepted_count, accepted_count_zero}
use threat_hunting_platform.Attestation.{text, Dict, get, Loaded, invalid, other, object}
use threat_hunting_platform.Client.{is_text}
use threat_hunting_platform.Client.Verified.{is_text-true}
use threat_hunting_platform.Api.{Env, World, Reply, ok, fail}
use threat_hunting_platform.Api.Contribute.{
  Upload, Receipt, int_of, check_round, check_number, check_loaded, open_contribution,
  finish_contribution, submit_contribution, finish_opened, has_fields, required_fields, same_int,
}
use threat_hunting_platform.Api.Contribute.Checks.{Accepts, finish_contribution-Accepts}

module _ (env : Env) (u : Upload) where
  -- What the first part has checked.
  pub record Opens (s : Store) (att : Dict) : Type 0 where
    pub parsed : env.wire.loads u.attestation ≡ object att
    pub typed : get "type" att ≡ some (text "fl.contribution.v1")
    pub owned : get "org_id" att ≡ some (text u.org_id)
    pub numbered : int_of env (get "round_id" att) ≡ some (pos u.round_id)
    pub round : Round
    pub found : get_round u.round_id s ≡ some round
    pub is_open : round.status ≡ running
    pub first : accepted_count u.round_id u.org_id s ≡ 0

  same_int-true : (z : ℤ) (n : ℕ) → same_int z n ≡ true → z ≡ pos n
  same_int-true (pos m) n e = ground arith
  same_int-true (negsuc m) n e = absurd (ground arith)

  running_true : (t : RoundStatus) → is_running t ≡ true → t ≡ running
  running_true running e = refl
  running_true aggregated e = absurd (ground arith)
  running_true completed e = absurd (ground arith)

  round_inversion :
      (o : Option Round) (att a : Dict) (s : Store)
      → check_round env u o att s ≡ ok a
      → (r : Round) × (o ≡ some r)
        × (r.status ≡ running)
        × (has_accepted_contribution u.round_id u.org_id s ≡ false)
        × (a ≡ att)
  unfolding check_round
  round_inversion none att a s e = absurd (ground arith)
  round_inversion (some r) att a s e = elim (Bool-cases (is_running r.status)) [
    | inr n ↦ absurd (ground (arith, n))
    | inl y ↦ elim (Bool-cases (has_accepted_contribution u.round_id u.org_id s)) [
      | inl again ↦ absurd (ground (arith, y, again))
      | inr once ↦ (r, refl, running_true r.status y, once, ground (arith, y, once))
    ]
  ]

  number_inversion :
      (o : Option ℤ) (att a : Dict) (s : Store)
      → check_number env u o att s ≡ ok a
      → (o ≡ some (pos u.round_id)) × (check_round env u (get_round u.round_id s) att s ≡ ok a)
  unfolding check_number
  number_inversion none att a s e = absurd (ground arith)
  number_inversion (some z) att a s e = elim (Bool-cases (same_int z u.round_id)) [
    | inl y ↦ (rw (same_int-true z u.round_id y), rw y at e)
    | inr n ↦ absurd (ground (arith, n))
  ]

  loaded_inversion :
      (l : Loaded) (a : Dict) (s : Store)
      → env.wire.loads u.attestation ≡ l
      → check_loaded env u l s ≡ ok a
      → Opens s a
  unfolding check_loaded
  loaded_inversion invalid a s g e = absurd (ground arith)
  loaded_inversion other a s g e = absurd (ground arith)
  loaded_inversion (object att) a s g e = elim (Bool-cases (has_fields required_fields att)) [
    | inr n ↦ absurd (ground (arith, n))
    | inl full ↦ elim (Bool-cases (is_text "fl.contribution.v1" (get "type" att))) [
      | inr n ↦ absurd (ground (arith, full, n))
      | inl typed ↦ elim (Bool-cases (is_text u.org_id (get "org_id" att))) [
        | inr n ↦ absurd (ground (arith, full, typed, n))
        | inl owned ↦
            let (number, rest) =
              number_inversion (int_of env (get "round_id" att)) att a s
                (rw (full, typed, owned) at e) in
            let (r, found, run, once, same) =
              round_inversion (get_round u.round_id s) att a s rest in
            rw same (record {
              parsed = g;
              typed = is_text-true "fl.contribution.v1" (get "type" att) typed;
              owned = is_text-true u.org_id (get "org_id" att) owned;
              numbered = number;
              round = r;
              found = found;
              is_open = run;
              first = accepted_count_zero u.round_id u.org_id s once;
            })
      ]
    ]
  ]

  -- The upload of a contribution begins only when the attestation is a JSON object of the right
  -- type that names the authenticated organisation and the round of the path, the round is running,
  -- and the organisation has no accepted contribution for it yet.
  pub open_contribution-Opens :
      (s : Store) (att : Dict) → open_contribution env u s ≡ ok att → Opens s att
  unfolding open_contribution
  open_contribution-Opens s att = loaded_inversion (env.wire.loads u.attestation) att s refl

  opened-Accepts :
      (o : Reply Dict) (now : ℕ) (w : World) (p : Receipt)
      → open_contribution env u w.store ≡ o
      → (finish_opened env u o now w).0 ≡ ok p
      → (att : Dict) × Opens w.store att × Accepts env u att now w (finish_opened env u o now w).1
  opened-Accepts (fail c) now w p g e = absurd (ground arith)
  opened-Accepts (ok att) now w p g e =
      (att, open_contribution-Opens w.store att g, finish_contribution-Accepts env u att now w p e)

  -- A contribution that is accepted, with no other request in between, has passed every check: its
  -- attestation names the authenticated organisation, the running round and the hash of the upload,
  -- is recent, is signed with the key of the active organisation and names a challenge that the call
  -- itself consumes: afterwards the table of challenges is as the consumption leaves it. The
  -- contribution is then the only accepted one of its organisation for the round.
  pub submit_contribution-Accepts :
      (now : ℕ) (w : World) (p : Receipt)
      → (submit_contribution env u now w).0 ≡ ok p
      → let w' = (submit_contribution env u now w).1 in
        (att : Dict) × Opens w.store att
        × Accepts env u att now w w'
        × (accepted_count u.round_id u.org_id w'.store ≡ 1)
  unfolding submit_contribution
  submit_contribution-Accepts now w p e =
      let (att, opens, accepts) = opened-Accepts (open_contribution env u w.store) now w p refl e in
      (att, opens, accepts, ground (arith, opens.first, accepts.counted))

  -- When two uploads of one organisation for one round begin before either is finished, and both
  -- are then finished with success, the organisation has two accepted contributions for the round.
  pub contributions_interleaved :
      (attestation model : Bytes) (signature : String) (att att' : Dict) (now now' : ℕ) (w : World)
      (p p' : Receipt)
      → let v = record u { attestation = attestation; signature = signature; model = model } in
        let w' = (finish_contribution env u att now w).1 in
        open_contribution env u w.store ≡ ok att
        → open_contribution env v w.store ≡ ok att'
        → (finish_contribution env u att now w).0 ≡ ok p
        → (finish_contribution env v att' now' w').0 ≡ ok p'
        → accepted_count u.round_id u.org_id (finish_contribution env v att' now' w').1.store ≡ 2
  contributions_interleaved attestation model signature att att' now now' w p p' o o' e e' =
      let v = record u { attestation = attestation; signature = signature; model = model } in
      let w' = (finish_contribution env u att now w).1 in
      let one = (finish_contribution-Accepts env u att now w p e).counted in
      let two = (finish_contribution-Accepts env v att' now' w' p' e').counted in
      omega (arith, (open_contribution-Opens w.store att o).first, one, two)
