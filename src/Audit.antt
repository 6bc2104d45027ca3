-- ===== src/Audit.antt =====
-- coordinator/audit.py: the hash-chained audit trail. `Hash` stands for `hashlib.sha256` and for
-- the text of a time stamp; `now` is what `time.time()` returns in the call.
pub mod Chain
pub mod Tampering
use threat_hunting_platform.Prelude.{
  ℕ, suc, String, Bool, true, false, not, ◌&&◌, ◌||◌, List, [], ◌∷◌, ◌++◌, ◌<>◌, ◌==◌, string_Eq,
  nat_Eq, length, take, if◌then◌else◌,
}
use threat_hunting_platform.Prelude.Table.{select}
use mathlib.Core.List.{reverse}

pub record Hash : Type 0 where
  pub sha256 : String → String
  pub show_time : ℕ → String

-- A row of `audit_log`; its `id` is its place in the list.
pub record Entry : Type 0 where
  pub timestamp : ℕ
  pub action : String
  pub actor : String
  pub target : String
  pub details : String
  pub chain_hash : String

pub record AuditTrail : Type 0 where
  pub audit_log : List Entry
  pub prev_hash : String

unfoldable pub last_hash : String → List Entry → String
last_hash prev [] = prev
last_hash prev (e ∷ rows) = last_hash e.chain_hash rows

-- `__init__` on an existing table
unfoldable pub open_trail : List Entry → AuditTrail
open_trail rows = record { audit_log = rows; prev_hash = last_hash "genesis" rows }

module _ (h : Hash) where
  abbrev pub chain_input : String → Entry → String
  chain_input prev e =
      prev <> h.show_time e.timestamp <> e.action <> e.actor <> e.target <> e.details

  -- the entry that `log` writes, but for its hash
  abbrev unhashed : String → String → String → String → ℕ → Entry
  unhashed action actor target details now = record {
    timestamp = now;
    action = action;
    actor = actor;
    target = target;
    details = details;
    chain_hash = "";
  }

  abbrev pub new_entry : String → String → String → String → String → ℕ → Entry
  new_entry prev action actor target details now =
      let e = unhashed action actor target details now in
      record e { chain_hash = h.sha256 (chain_input prev e) }

  -- `details` is the text that `json.dumps` makes of the details.
  unfoldable pub log : String → String → String → String → ℕ → AuditTrail → AuditTrail
  log action actor target details now t =
      let e = new_entry t.prev_hash action actor target details now in
      record { audit_log = t.audit_log ++ e ∷ []; prev_hash = e.chain_hash }

  -- the loop from row `i` on, whose predecessor has the hash `prev`
  unfoldable pub verify_from : String → ℕ → List Entry → Bool × ℕ
  verify_from prev i [] = (true, i)
  verify_from prev i (e ∷ rows) =
      let rest = verify_from e.chain_hash (suc i) rows in
      if h.sha256 (chain_input prev e) == e.chain_hash then rest else (false, i)

  unfoldable pub verify_integrity : AuditTrail → Bool × ℕ
  verify_integrity t = verify_from "genesis" 0 t.audit_log

-- An empty text filters nothing. The newest entries come first.
unfoldable pub query : String → String → ℕ → AuditTrail → List Entry
query action actor limit t = take limit (
    reverse (
      select (λ e. (action == "" || e.action == action) && (actor == "" || e.actor == actor))
        t.audit_log))
