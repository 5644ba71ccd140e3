-- ===== src/Assurance/Recon.antt =====
-- app/modules/assurance/service.py and router.py: the records of the reconciliation, from
-- ClickHouse.
use ra_backend.Base.{String, true, false, Option, none, some, List, [], ◌∷◌, map, truthy, non_empty}
use ra_backend.Base.Text.{upper}
use ra_backend.Models.Common.{Timestamp, Float}
use ra_backend.Core.Errors.{PyError}
use ra_backend.Core.World.{World, Outcome}
use ra_backend.Core.Exec.{Exec, pure, lift, branch, ◌>>=◌, ◌>>◌}
use ra_backend.Core.Rbac.{workbench, view}
use ra_backend.Core.Deps.{Pagination, guarded}
use ra_backend.Integrations.Clickhouse
use ra_backend.Assurance.Payloads.{is_in}

-- A row of `air_reconciliation`
pub record RawRecord : Type 0 where
  pub record_type : Option String
  pub raw_txn_id : Option String
  pub proc_txn_id : Option String
  pub raw_node_id : Option String
  pub proc_node_id : Option String
  pub raw_subscriber_num : Option String
  pub proc_subscriber_num : Option String
  pub raw_tran_amt : Option Float
  pub proc_tran_amt : Option Float
  pub raw_acc_balance : Option Float
  pub proc_acc_balance : Option Float
  pub reconciliation_status : String
  pub created_time : Option Timestamp

pub record ReconRecord : Type 0 where
  pub record_type : Option String
  pub txn_id : Option String
  pub node_id : Option String
  pub subscriber_num : Option String
  pub raw_amount : Option Float
  pub proc_amount : Option Float
  pub raw_balance : Option Float
  pub proc_balance : Option Float
  pub status : String
  pub created_time : Option Timestamp

abbrev valid_statuses : List String
valid_statuses = "MATCHED" ∷ "AMOUNT_MISMATCH" ∷ "RAW_ONLY" ∷ "PROC_ONLY" ∷ []

-- `a or b`
abbrev either : Option String → Option String → Option String
either a b = elim (truthy a) [ true ↦ a | false ↦ b ]

abbrev pub to_recon_record : RawRecord → ReconRecord
to_recon_record r = record {
  record_type = r.record_type;
  txn_id = either r.raw_txn_id r.proc_txn_id;
  node_id = either r.raw_node_id r.proc_node_id;
  subscriber_num = either r.raw_subscriber_num r.proc_subscriber_num;
  raw_amount = r.raw_tran_amt;
  proc_amount = r.proc_tran_amt;
  raw_balance = r.raw_acc_balance;
  proc_balance = r.proc_acc_balance;
  status = r.reconciliation_status;
  created_time = r.created_time;
}

-- What ClickHouse answers to a query for a status, if one is asked for, and a page
pub record Records : Type 0 where
  pub rows : Option String → Pagination → Outcome (List RawRecord)
  pub exc_text : PyError → String

module _ {T : Type 0} (w : World T) (source : Records) where
  unfoldable pub asked : Option String → Pagination → Exec (List ReconRecord)
  unfolding Clickhouse.query
  asked status p = do
    rows ←
        lift (Clickhouse.query w.settings.clickhouse_enabled source.exc_text (source.rows status p))
    pure (map to_recon_record rows)

  -- An empty status is none; a status that is not known has no records.
  unfoldable pub recon_records : Option String → Pagination → Exec (List ReconRecord)
  unfolding asked upper is_in
  recon_records none p = asked none p
  recon_records (some status) p =
      branch (non_empty status)
        (branch (is_in valid_statuses (upper status)) (asked (some (upper status)) p) (pure []))
        (asked none p)

  unfoldable pub records_route : Option T → Option String → Pagination → Exec (List ReconRecord)
  unfolding recon_records
  records_route creds status p = do guarded w workbench view creds; recon_records status p
