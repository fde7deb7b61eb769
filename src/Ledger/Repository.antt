-- ===== src/Ledger/Repository.antt =====
-- Writing a posting: src/core/ledger/ledger.repository.ts, with the accounts of
-- src/core/ledger/account-registry.service.ts. The advisory lock and the row locks only order the
-- writers, so a transaction is one step here; their order is `locked_ids`.
pub mod Accounts
pub mod Lookup
pub mod Compute
pub mod Totals
pub mod Running
pub mod Conservation
pub mod Replay
use telegram_mini_app.Prelude.{
  ℕ, suc, ◌+◌, ◌*◌, Bool, true, false, not, ◌&&◌, ◌||◌, List, [], ◌∷◌, ◌++◌, Option, none, some,
  find, keep, map, map_where, or_else, is_some, any, leb, if◌then◌else◌,
}
use telegram_mini_app.Prelude.Integers.{ℤ, pos, ◌+ℤ◌}
use telegram_mini_app.Prelude.Text.{Text, text_eq, text_lt, is_text}
use telegram_mini_app.Types.{
  LedgerTxKind, deposit_claim, deposit_credit, unique_violation, LedgerRefType, deposit_ref, Error,
  ledger_error, account_not_found, account_inactive, currency_mismatch, sign_violation,
  idempotency_key_reused, idempotency_in_flight, replay_target_missing, record_not_found, Result,
  ok, err,
}
use telegram_mini_app.Db.{
  Db, Env, Tx, pure, throw, ◌>>=◌, ◌>>◌, require, generate_id, require_effective_tenant_id,
}
use telegram_mini_app.Db.Rows.{
  LedgerAccount, EntryBalanceSnapshot, LedgerTransaction, LedgerEntry, IdempotencyKey,
}
use telegram_mini_app.Ledger.AccountCodes.{
  account_kind_spec, satisfies_sign_policy, ParsedAccountCode, parse_account_code,
}
use telegram_mini_app.Ledger.Posting.{Posting, PostingEntry, entry_ref, posting_body}
use telegram_mini_app.Ledger.Validation.{assert_valid_posting}
use Lookup.{PostedEntry, PostedTransaction, find_replay}
use Compute.{Balances, compute_balances}
use Accounts.{Dict, lookup, set, lift, resolve_many_or_create, sorted_unique, is_account_id}

-- The codes that the entries name, and then each id that an entry names, for itself.
entry_codes : List PostingEntry → List Text
entry_codes [] = []
entry_codes (e ∷ es) = elim e.account_code [
  | none ↦ entry_codes es
  | some code ↦ code ∷ entry_codes es
]

add_ids : List PostingEntry → Dict Text → Dict Text
add_ids [] refs = refs
add_ids (e ∷ es) refs = add_ids es (elim e.account_id [ none ↦ refs | some id ↦ set id id refs ])

-- `resolveAccounts`.
unfoldable pub resolve_accounts : Env → Posting → Tx (Dict Text)
unfolding entry_codes add_ids
resolve_accounts env p = do
  refs ← resolve_many_or_create env (sorted_unique (entry_codes p.entries)) []
  pure (add_ids p.entries refs)

-- The ids in the order in which their rows are locked.
unfoldable pub locked_ids : Dict Text → List Text
locked_ids refs = sorted_unique (map (λ (e : Text × Text). e.1) refs)

-- `lockAccounts`: the rows of those ids, none of which may be missing.
unfoldable pub lock_accounts : List Text → Tx (List LedgerAccount)
lock_accounts [] db = pure [] db
lock_accounts (id ∷ ids) db =
    let others = lock_accounts ids in
    elim (find (is_account_id id) db.accounts) [
      | none ↦ throw (ledger_error account_not_found) db
      | some row ↦ (do rows ← others; pure (row ∷ rows)) db
    ]

-- The rows of `ledgerEntry.createMany`, newest first, each on the account of its snapshot.
entry_rows :
    Text
    → Text
    → Text
    → ℕ
    → List PostingEntry
    → List EntryBalanceSnapshot
    → Result (List LedgerEntry)
entry_rows tenant tx currency index [] snapshots = ok []
entry_rows tenant tx currency index (e ∷ es) [] = err (ledger_error account_not_found)
entry_rows tenant tx currency index (e ∷ es) (s ∷ snapshots) =
    elim (entry_rows tenant tx currency (suc index) es snapshots) [
      | err x ↦ err x
      | ok rows ↦ ok (
          record {
            tenant_id = tenant;
            ledger_transaction_id = tx;
            ledger_account_id = s.account_id;
            currency_code = currency;
            amount_minor = e.amount_minor;
            sequence = index;
          }
          ∷ rows)
    ]

abbrev pub is_owned_account : Text → Text → LedgerAccount → Bool
is_owned_account tenant id a = is_account_id id a && text_eq a.tenant_id tenant

-- The loop that writes the cached balances; Prisma throws where no row matches.
unfoldable pub write_balances : Text → Dict ℤ → Tx (Unit {0})
write_balances tenant [] db = pure tt db
write_balances tenant ((id, balance) ∷ running) db =
    let next = write_balances tenant running (record db {
      accounts =
          map_where (is_owned_account tenant id)
            (λ (a : LedgerAccount). record a { cached_balance_minor = balance }) db.accounts;
    }) in
    if is_some (find (is_owned_account tenant id) db.accounts)
    then next
    else throw record_not_found db

posted_entries : ℕ → List PostingEntry → List EntryBalanceSnapshot → List PostedEntry
posted_entries index [] snapshots = []
posted_entries index (e ∷ es) [] =
    record {
      sequence = index;
      account_id = [];
      account_code = [];
      amount_minor = e.amount_minor;
      previous_balance_minor = none;
      current_balance_minor = none;
    }
    ∷ posted_entries (suc index) es []
posted_entries index (e ∷ es) (s ∷ snapshots) =
    record {
      sequence = index;
      account_id = s.account_id;
      account_code = s.account_code;
      amount_minor = e.amount_minor;
      previous_balance_minor = some s.previous_balance_minor;
      current_balance_minor = some s.current_balance_minor;
    }
    ∷ posted_entries (suc index) es snapshots

-- `ledgerTransaction.create` of a posting under the id that the database gave it.
pub transaction_row : Env → Text → Text → Posting → Balances → LedgerTransaction
transaction_row env tenant id p b = record {
  id = id;
  tenant_id = tenant;
  kind = p.kind;
  currency_code = p.currency;
  occurred_at = or_else p.occurred_at env.now;
  deposit_request_id = elim p.ref_type [ deposit_ref ↦ some p.ref_id | _ ↦ none ];
  external_ref = p.external_ref;
  reverses_tx_id = p.reverses_tx_id;
  balance_snapshots = b.snapshots;
}

-- `LEDGER_IDEMPOTENCY_TTL_DAYS` of ledger.types.ts, in milliseconds.
abbrev pub ledger_key_ttl_ms : ℕ
ledger_key_ttl_ms = 90 * 86400000

-- `idempotencyKey.create`.
pub key_row : Env → Text → Text → Posting → IdempotencyKey
key_row env tenant id p = record {
  tenant_id = tenant;
  key = p.idempotency_key;
  request_hash = env.request_hash (posting_body p);
  result_ref = some id;
  expires_at = env.now + ledger_key_ttl_ms;
}

-- The rows of a posting, once its balances are written.
unfoldable pub record_posting :
    Env → Text → Posting → Balances → Text → List LedgerEntry → Tx PostedTransaction
unfolding posted_entries transaction_row key_row
record_posting env tenant p b id rows db = ok (
  record {
    transaction_id = id;
    kind = p.kind;
    currency = p.currency;
    occurred_at = or_else p.occurred_at env.now;
    entries = posted_entries 0 p.entries b.snapshots;
    deduplicated = false;
  },
  record db {
    transactions = transaction_row env tenant id p b ∷ db.transactions;
    entries = rows ++ db.entries;
    keys = key_row env tenant id p ∷ db.keys;
  },
)

abbrev pub is_claim : LedgerTxKind → Bool
is_claim kind = elim kind [ deposit_claim ↦ true | _ ↦ false ]

abbrev pub is_credit : LedgerTxKind → Bool
is_credit kind = elim kind [ deposit_credit ↦ true | _ ↦ false ]

abbrev pub shares : Option Text → Option Text → Bool
shares none other = false
shares (some s) other = is_text other s

-- The unique indexes `uq_ledger_claim_tx_per_deposit` and `uq_ledger_credit_tx_per_deposit`, and that of
-- `reverses_tx_id`: a deposit is claimed once and credited once, and a transaction is reversed once.
unfoldable pub is_second : LedgerTransaction → LedgerTransaction → Bool
is_second row old =
    (((is_claim row.kind && is_claim old.kind) || (is_credit row.kind && is_credit old.kind))
      && shares row.deposit_request_id old.deposit_request_id)
    || shares row.reverses_tx_id old.reverses_tx_id

-- What the indexes say to the new row.
unfoldable pub assert_first : LedgerTransaction → Tx (Unit {0})
assert_first row db = require (not (any (is_second row) db.transactions)) unique_violation db

-- The writes of a posting that is new: the transaction, its entries, the balances, the key.
unfoldable pub write_posting : Env → Text → Posting → Balances → Tx PostedTransaction
unfolding write_balances entry_rows record_posting transaction_row
write_posting env tenant p b = do
  id ← generate_id
  assert_first (transaction_row env tenant id p b)
  rows ← lift (entry_rows tenant id p.currency 0 p.entries b.snapshots)
  write_balances tenant b.running
  record_posting env tenant p b id rows

-- A posting whose key is not known: the accounts, the balances, the writes.
unfoldable pub post_new : Env → Text → Posting → Tx PostedTransaction
unfolding resolve_accounts locked_ids lock_accounts compute_balances write_posting
post_new env tenant p = do
  refs ← resolve_accounts env p
  locked ← lock_accounts (locked_ids refs)
  b ← lift (compute_balances p refs locked)
  write_posting env tenant p b

-- `if (replay !== null) return replay`, and otherwise the posting itself.
abbrev pub post_unless : Env → Text → Posting → Option PostedTransaction → Tx PostedTransaction
post_unless env tenant p (some original) = pure original
post_unless env tenant p none = post_new env tenant p

unfoldable pub post : Env → Posting → Tx PostedTransaction
unfolding find_replay post_new
post env p = do
  lift (assert_valid_posting p)
  tenant ← require_effective_tenant_id env
  replay ← find_replay env tenant p
  post_unless env tenant p replay
