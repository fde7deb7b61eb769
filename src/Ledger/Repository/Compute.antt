-- ===== src/Ledger/Repository/Compute.antt =====
-- The balances that a posting leaves: `computeBalances` of src/core/ledger/ledger.repository.ts.
use telegram_mini_app.Prelude.{
  ℕ, suc, Bool, false, not, List, [], ◌∷◌, ◌++◌, none, some, find, or_else, if◌then◌else◌,
}
use telegram_mini_app.Prelude.Integers.{ℤ, ◌+ℤ◌}
use telegram_mini_app.Prelude.Text.{Text, text_eq}
use telegram_mini_app.Types.{
  ledger_error, account_not_found, account_inactive, currency_mismatch, sign_violation, Result, ok,
  err,
}
use telegram_mini_app.Db.Rows.{LedgerAccount, EntryBalanceSnapshot}
use telegram_mini_app.Ledger.AccountCodes.{
  account_kind_spec, satisfies_sign_policy, parse_account_code,
}
use telegram_mini_app.Ledger.Posting.{Posting, PostingEntry, entry_ref}
use telegram_mini_app.Ledger.Repository.Accounts.{Dict, lookup, set, is_account_id}

-- The running balances, in the order in which the entries touch the accounts, and the snapshots.
pub record Balances : Type 0 where
  pub snapshots : List EntryBalanceSnapshot
  pub running : Dict ℤ

-- The checks of one entry, and the locked row of its account.
unfoldable pub entry_row :
    Posting → Dict Text → List LedgerAccount → PostingEntry → Result LedgerAccount
entry_row p refs locked e = elim (lookup (entry_ref e) refs) [
  | none ↦ err (ledger_error account_not_found)
  | some id ↦ elim (find (is_account_id id) locked) [
    | none ↦ err (ledger_error account_not_found)
    | some row ↦
        if not row.is_active
        then err (ledger_error account_inactive)
        else if not (text_eq row.currency_code p.currency)
        then err (ledger_error currency_mismatch)
        else ok row
  ]
]

-- `running.get(accountId) ?? row.cached_balance_minor`.
abbrev pub balance_now : Dict ℤ → LedgerAccount → ℤ
balance_now running row = or_else (lookup row.id running) row.cached_balance_minor

-- One round of the loop over the entries.
abbrev pub advance : ℕ → LedgerAccount → ℤ → Balances → Balances
advance index row amount b =
    let previous = balance_now b.running row in
    let current = previous +ℤ amount in
    record {
      snapshots =
          b.snapshots
          ++ (record {
            sequence = index;
            account_id = row.id;
            account_code = row.code;
            previous_balance_minor = previous;
            current_balance_minor = current;
          }
              ∷ []);
      running = set row.id current b.running;
    }

unfoldable pub walk_entries :
    Posting → Dict Text → List LedgerAccount → ℕ → List PostingEntry → Balances → Result Balances
unfolding entry_row
walk_entries p refs locked index [] b = ok b
walk_entries p refs locked index (e ∷ es) b = elim (entry_row p refs locked e) [
  | err x ↦ err x
  | ok row ↦ walk_entries p refs locked (suc index) es (advance index row e.amount_minor b)
]

-- The sign guard over the final balances. A code that does not parse throws.
unfoldable pub check_signs : List LedgerAccount → Dict ℤ → Result (Unit {0})
check_signs locked [] = ok tt
check_signs locked ((id, balance) ∷ running) =
    let rest = check_signs locked running in
    elim (find (is_account_id id) locked) [
      | none ↦ rest
      | some row ↦ elim (parse_account_code row.code) [
        | err x ↦ err x
        | ok parsed ↦
            if satisfies_sign_policy balance (account_kind_spec parsed.kind).sign_policy
            then rest
            else err (ledger_error sign_violation)
      ]
    ]

abbrev pub allows_negative : Posting → Bool
allows_negative p = or_else p.allow_negative false

-- `computeBalances`.
unfoldable pub compute_balances : Posting → Dict Text → List LedgerAccount → Result Balances
unfolding walk_entries check_signs
compute_balances p refs locked =
    elim (walk_entries p refs locked 0 p.entries (record { snapshots = []; running = [] })) [
      | err x ↦ err x
      | ok b ↦
          if allows_negative p
          then ok b
          else elim (check_signs locked b.running) [ err x ↦ err x | ok done ↦ ok b ]
    ]
