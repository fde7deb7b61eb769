-- ===== src/Ledger/Repository/Lookup.antt =====
-- A posting whose key is known: `findReplay` of src/core/ledger/ledger.repository.ts, and the answer of a
-- posting.
use telegram_mini_app.Prelude.{
  ℕ, Bool, true, not, ◌&&◌, List, [], ◌∷◌, Option, none, some, find, keep, map, leb, if◌then◌else◌,
}
use telegram_mini_app.Prelude.Integers.{ℤ}
use telegram_mini_app.Prelude.Text.{Text, text_eq}
use telegram_mini_app.Types.{
  LedgerTxKind, ledger_error, idempotency_key_reused, idempotency_in_flight, replay_target_missing,
}
use telegram_mini_app.Db.{Db, Env, Tx, pure, throw}
use telegram_mini_app.Db.Rows.{
  LedgerAccount, EntryBalanceSnapshot, LedgerTransaction, LedgerEntry, IdempotencyKey,
}
use telegram_mini_app.Ledger.Posting.{Posting, posting_body}
use telegram_mini_app.Ledger.Repository.Accounts.{is_account_id}

pub record PostedEntry : Type 0 where
  pub sequence : ℕ
  pub account_id : Text
  pub account_code : Text
  pub amount_minor : ℤ
  pub previous_balance_minor : Option ℤ
  pub current_balance_minor : Option ℤ

pub record PostedTransaction : Type 0 where
  pub transaction_id : Text
  pub kind : LedgerTxKind
  pub currency : Text
  pub occurred_at : ℕ
  pub entries : List PostedEntry
  pub deduplicated : Bool

unfoldable pub is_key : Text → Text → IdempotencyKey → Bool
is_key tenant key row = text_eq row.tenant_id tenant && text_eq row.key key

abbrev pub is_transaction : Text → Text → LedgerTransaction → Bool
is_transaction tenant id row = text_eq row.id id && text_eq row.tenant_id tenant

-- The entries of a transaction, in the order of their sequence.
unfoldable pub insert_entry : LedgerEntry → List LedgerEntry → List LedgerEntry
insert_entry e [] = e ∷ []
insert_entry e (f ∷ rest) =
    if leb e.sequence f.sequence then e ∷ (f ∷ rest) else f ∷ insert_entry e rest

unfoldable pub order_entries : List LedgerEntry → List LedgerEntry
order_entries [] = []
order_entries (e ∷ rest) = insert_entry e (order_entries rest)

-- `entry.account.code`, through the foreign key.
unfoldable pub code_of : Text → List LedgerAccount → Text
code_of id accounts = elim (find (is_account_id id) accounts) [ none ↦ [] | some a ↦ a.code ]

abbrev pub has_sequence : ℕ → EntryBalanceSnapshot → Bool
has_sequence n s = leb s.sequence n && leb n s.sequence

unfoldable pub replayed_entry : Db → LedgerTransaction → LedgerEntry → PostedEntry
unfolding code_of
replayed_entry db original e =
    let snapshot = find (has_sequence e.sequence) original.balance_snapshots in
    record {
      sequence = e.sequence;
      account_id = e.ledger_account_id;
      account_code = code_of e.ledger_account_id db.accounts;
      amount_minor = e.amount_minor;
      previous_balance_minor = elim snapshot [
        | none ↦ none
        | some s ↦ some s.previous_balance_minor
      ];
      current_balance_minor = elim snapshot [ none ↦ none | some s ↦ some s.current_balance_minor ];
    }

unfoldable pub replayed : Db → LedgerTransaction → PostedTransaction
unfolding replayed_entry order_entries insert_entry
replayed db original = record {
  transaction_id = original.id;
  kind = original.kind;
  currency = original.currency_code;
  occurred_at = original.occurred_at;
  entries = map (replayed_entry db original) (
      order_entries
        (keep (λ (e : LedgerEntry). text_eq e.ledger_transaction_id original.id) db.entries));
  deduplicated = true;
}

-- What the row of a known key answers to a posting of that key.
unfoldable pub replay_of : Env → Text → Posting → IdempotencyKey → Tx (Option PostedTransaction)
unfolding replayed
replay_of env tenant p row db =
    if not (text_eq row.request_hash (env.request_hash (posting_body p)))
    then throw (ledger_error idempotency_key_reused) db
    else elim row.result_ref [
      | none ↦ throw (ledger_error idempotency_in_flight) db
      | some id ↦ elim (find (is_transaction tenant id) db.transactions) [
        | none ↦ throw (ledger_error replay_target_missing) db
        | some original ↦ pure (some (replayed db original)) db
      ]
    ]

-- `findReplay`.
unfoldable pub find_replay : Env → Text → Posting → Tx (Option PostedTransaction)
unfolding replay_of is_key
find_replay env tenant p db = elim (find (is_key tenant p.idempotency_key) db.keys) [
  | none ↦ pure none db
  | some row ↦ replay_of env tenant p row db
]
