-- ===== src/Store/Rounds.antt =====
-- coordinator/store.py: the methods on the table `rounds`.
pub mod Lifecycle
use threat_hunting_platform.Prelude.{
  ℕ, ◌+◌, String, Bool, true, false, Option, none, some, List, [], ◌∷◌, ◌++◌, ◌==◌, nat_Eq, take,
  if◌then◌else◌,
}
use threat_hunting_platform.Prelude.Table.{find, select, update}
use threat_hunting_platform.Prelude.Sort.{sort_desc}
use threat_hunting_platform.Store.Rows.{
  Round, RoundParams, RoundStatus, running, aggregated, completed, is_completed, EvalMetrics, Store,
}

abbrev pub is_round : ℕ → Round → Bool
is_round round_id r = r.round_id == round_id

abbrev pub new_round : ℕ → String → RoundParams → ℕ → ℕ → Round
new_round round_id started_by params invited_count now = record {
  round_id = round_id;
  started_at = now;
  started_by = started_by;
  completed_at = none;
  status = running;
  params = params;
  num_clients_invited = invited_count;
  num_clients_responded = 0;
  num_clients_accepted = 0;
  num_clients_rejected = 0;
  global_model_hash = none;
  eval_metrics = none;
  announce_attestation = none;
  announce_signature = none;
}

-- Returns the number of the new round.
unfoldable pub start_round : String → RoundParams → ℕ → ℕ → Store → ℕ × Store
start_round started_by params invited_count now s =
    let row = new_round s.next_round started_by params invited_count now in
    (s.next_round, record s { rounds = s.rounds ++ row ∷ []; next_round = s.next_round + 1 })

-- UPDATE rounds SET ... WHERE round_id = ?
unfoldable pub update_round : ℕ → (Round → Round) → Store → Store
update_round round_id f s = record s { rounds = update (is_round round_id) f s.rounds }

unfoldable pub set_round_announcement : ℕ → String → String → Store → Store
unfolding update_round
set_round_announcement round_id attestation signature_hex = update_round round_id λ r. record r {
  announce_attestation = some attestation;
  announce_signature = some signature_hex;
}

unfoldable pub complete_round :
    ℕ → RoundStatus → ℕ → ℕ → ℕ → Option String → Option EvalMetrics → ℕ → Store → Store
unfolding update_round
complete_round round_id status responded accepted rejected global_model_hash eval_metrics now =
    update_round round_id λ r. record r {
      completed_at = if is_completed status then some now else none;
      status = status;
      num_clients_responded = responded;
      num_clients_accepted = accepted;
      num_clients_rejected = rejected;
      global_model_hash = global_model_hash;
      eval_metrics = eval_metrics;
    }

unfoldable pub get_round : ℕ → Store → Option Round
get_round round_id s = find (is_round round_id) s.rounds

unfoldable pub list_rounds : ℕ → Store → List Round
list_rounds limit s = take limit (sort_desc (λ (r : Round). r.started_at) s.rounds)

abbrev same_status : RoundStatus → RoundStatus → Bool
same_status running running = true
same_status aggregated aggregated = true
same_status completed completed = true
same_status _ _ = false

unfoldable pub list_rounds_by_status : RoundStatus → Store → List Round
list_rounds_by_status status s =
    sort_desc (λ (r : Round). r.started_at) (select (λ r. same_status r.status status) s.rounds)

unfoldable pub set_round_status : ℕ → RoundStatus → ℕ → Store → Store
unfolding update_round
set_round_status round_id status now =
    if is_completed status
    then update_round round_id (λ r. record r { status = status; completed_at = some now })
    else update_round round_id (λ r. record r { status = status })
