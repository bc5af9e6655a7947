-- ===== src/Push/World.antt =====
-- internal/integration/push.go: what a push works on: the staged rows, Firefly's ledger, and what
-- is kept of each effect. A call of the learner, of the feedback log and of the mirror is kept as
-- the row or journal that it was made for.
use texas_fold_em.Common.{ℕ, Bool, Option, none, some, List, [], ◌∷◌, if◌then◌else◌, ◌==◌}
use texas_fold_em.Common.Text.{Str, str_eq}
use texas_fold_em.TxnType.{Problem}
use texas_fold_em.TxnType.Accounts.{Account}
use texas_fold_em.Push.Row.{Row, pushed}
use texas_fold_em.Push.Firefly.{Service}

-- The actions of audit_log.
pub data Action : Type 0 where
  search_error dedup_hit ensure_currency_error create_error created : Action
  update_error updated link_error link_existing link_created : Action

pub record Audit : Type 0 where
  pub action : Action
  pub fold_uuid : Str
  pub firefly_txn_id : ℕ
  pub response_status : ℕ

pub record World (f : Service) : Type 0 where
  pub rows : List Row
  pub accounts : List Account
  pub ledger : Service.Ledger f
  pub audits : List Audit
  -- firefly_txns: a journal and its group
  pub mirrored : List (ℕ × ℕ)
  pub learned : List Str
  pub decisions : List Str
  -- (Pusher).refundLinkType, 0 before its first look-up
  pub refund_link_type : ℕ

-- The Pusher: read-only or not, with a syncer and a learner or not, and how tags are decoded.
pub record Pusher : Type 0 where
  pub read_only : Bool
  pub has_syncer : Bool
  pub has_learner : Bool
  pub decode_tags : Str → List Str

-- When a push is made, and whether its reads and writes of the database succeed.
pub record Attempt : Type 0 where
  pub at : ℕ
  pub reads : Bool
  pub marks : Bool

-- Why a push, an update or a link is refused.
pub data Refusal : Type 0 where
  read_only_mode not_found not_ready database_error no_group_id : Refusal
  type_error : Problem → Refusal
  firefly_error : ℕ → Refusal
  not_a_refund already_linked not_pushed original_not_in_firefly refunds_itself : Refusal

pub data Outcome {ℓ} (A : Type ℓ) : Type ℓ where
  ok : A → Outcome A
  refused : Refusal → Outcome A

unfoldable pub find_row : Str → List Row → Option Row
find_row uuid [] = none
find_row uuid (r ∷ rs) = if str_eq r.fold_uuid uuid then some r else find_row uuid rs

-- UPDATE … WHERE fold_uuid = ?
unfoldable pub update_row : Str → (Row → Row) → List Row → List Row
update_row uuid g [] = []
update_row uuid g (r ∷ rs) = (if str_eq r.fold_uuid uuid then g r else r) ∷ update_row uuid g rs

-- The assignments of markPushed, whose group id is NULL where there is none.
abbrev pub marked : ℕ → ℕ → Row → Row
marked journal group r = record r {
  status = pushed;
  firefly_txn_id = some journal;
  firefly_group_id = if group == 0 then none else some group;
}

module _ {f : Service} where
  -- markPushed.
  unfoldable pub mark_pushed : Str → ℕ → ℕ → World f → World f
  unfolding update_row
  mark_pushed uuid journal group w = record w {
    rows = update_row uuid (marked journal group) w.rows;
  }

  -- setLinkID.
  unfoldable pub set_link_id : Str → ℕ → World f → World f
  unfolding update_row
  set_link_id uuid id w = record w {
    rows = update_row uuid (λ r. record r { firefly_link_id = some id }) w.rows;
  }

  -- audit.
  abbrev pub audit : Action → Str → ℕ → ℕ → World f → World f
  audit action uuid journal status w = record w {
    audits =
        record {
          action = action;
          fold_uuid = uuid;
          firefly_txn_id = journal;
          response_status = status;
        }
        ∷ w.audits;
  }
