-- ===== src/Classifier/Decision.antt =====
-- internal/integration/classifier/classifier.go: what a decision says, and what it is made from.
use texas_fold_em.Common.{ℕ, Bool, Option, List}
use texas_fold_em.Common.Text.{Str}

-- float64, as far as the classifier uses it.
pub record Floats : Type 1 where
  pub Real : Type 0
  pub zero : Real
  -- `a < b`.
  pub below : Real → Real → Bool
  -- `float64(n) / float64(m)`.
  pub ratio : ℕ → ℕ → Real
  -- `(a + b) / 2`.
  pub mean : Real → Real → Real

pub data Tier : Type 0 where
  merchant_lookup fts_vote model human_review refund : Tier

-- A row of merchant_lookup.
pub record LookupRow (f : Floats) : Type 0 where
  pub destination_account_id : ℕ
  pub destination_account_name : Str
  pub source_account_id : Option ℕ
  pub source_account_name : Str
  pub category_id : Option ℕ
  pub category_name : Str
  pub budget_id : Option ℕ
  pub budget_name : Str
  pub modal_description : Str
  pub sample_size : ℕ
  pub confidence : f.Real

-- An id and a name, both nullable.
pub record Named : Type 0 where
  pub id : Option ℕ
  pub name : Option Str

-- A past transaction that the full-text search found.
pub record Hit (f : Floats) : Type 0 where
  pub firefly_id : ℕ
  pub destination : Named
  pub source : Named
  pub category : Named
  pub budget : Named
  pub description : Str
  pub date : Str
  pub score : f.Real

-- What the page shows beside a suggestion; the parts that the model and the refunds add are left out.
pub record Evidence (f : Floats) : Type 0 where
  pub tier : Tier
  pub merchant_normalized : Str
  pub lookup_hit : Option (LookupRow f)
  pub fts_hits : List (Hit f)
  pub note : Str

pub record Decision (f : Floats) : Type 0 where
  pub tier : Tier
  pub confidence : f.Real
  pub txn_type : Str
  pub destination_account_id : Option ℕ
  pub destination_account_name : Str
  pub source_account_id : Option ℕ
  pub source_account_name : Str
  pub category_id : Option ℕ
  pub category_name : Str
  pub budget_id : Option ℕ
  pub budget_name : Str
  pub description : Str
  pub tags : List Str
  pub refund_of : Str
  pub engine : Str
  pub hold : Str
  pub evidence : Evidence f

-- The slim view of a row.
pub record StagedRow : Type 0 where
  pub fold_uuid : Str
  pub narration : Str
  pub mode : Str
  pub type : Str
  pub merchant_extracted : Str
  pub amount_paise : ℕ
  pub currency : Str
  pub txn_timestamp : Str
  pub raw_payload : Str

-- The row that a shadow evaluation grades; all zero otherwise.
pub record Exclusion : Type 0 where
  pub fold_uuid : Str
  pub firefly_id : ℕ
  pub account_id : ℕ
