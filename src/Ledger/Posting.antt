-- ===== src/Ledger/Posting.antt =====
-- A movement of money as one value: src/core/ledger/ledger.types.ts. Prose (`description`, `memo`)
-- and free-form `metadata` are left out.
use telegram_mini_app.Prelude.{ℕ, Bool, List, Option, none, some, or_else, map, []}
use telegram_mini_app.Prelude.Integers.{ℤ}
use telegram_mini_app.Prelude.Text.{Text}
use telegram_mini_app.Types.{LedgerTxKind, LedgerRefType, Actor}
use telegram_mini_app.Db.Rows.{PostingBody}

-- The type of the code allows one of the two references; the validator checks it again.
pub record PostingEntry : Type 0 where
  pub account_id : Option Text
  pub account_code : Option Text
  pub amount_minor : ℤ

pub record Posting : Type 0 where
  pub idempotency_key : Text
  pub kind : LedgerTxKind
  pub ref_type : LedgerRefType
  pub ref_id : Text
  pub currency : Text
  pub entries : List PostingEntry
  pub actor : Actor
  pub occurred_at : Option ℕ
  pub external_ref : Option Text
  pub reverses_tx_id : Option Text
  pub allow_negative : Option Bool

abbrev pub by_code : Text → ℤ → PostingEntry
by_code code amount = record { account_id = none; account_code = some code; amount_minor = amount }

abbrev pub by_id : Text → ℤ → PostingEntry
by_id id amount = record { account_id = some id; account_code = none; amount_minor = amount }

-- `entry.accountId ?? entry.accountCode ?? ''`.
abbrev pub entry_ref : PostingEntry → Text
entry_ref e = or_else e.account_id (or_else e.account_code [])

abbrev pub amounts : List PostingEntry → List ℤ
amounts = map (λ (e : PostingEntry). e.amount_minor)

-- The object that `hashPosting` serialises.
abbrev pub posting_body : Posting → PostingBody
posting_body p = record {
  kind = p.kind;
  ref_type = p.ref_type;
  ref_id = p.ref_id;
  currency = p.currency;
  reverses_tx_id = p.reverses_tx_id;
  entries = map (λ e. (entry_ref e, e.amount_minor)) p.entries;
}
