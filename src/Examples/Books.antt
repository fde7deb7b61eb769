-- ===== src/Examples/Books.antt =====
-- The theorems on the books at one posting of two entries.
use telegram_mini_app.Prelude.{true, false, [], ◌∷◌, none, ◌≡◌, refl, arith}
use telegram_mini_app.Prelude.Integers.{pos, negsuc, ◌+ℤ◌}
use telegram_mini_app.Prelude.Text.{Text, text, text_eq, text_lt}
use telegram_mini_app.Types.{
  submitted, deposit_claim, rail_clearing, player_liability, system_actor, ledger_error,
  idempotency_key_reused, Result, ok, err,
}
use telegram_mini_app.Db.{Db, require_effective_tenant_id, generate_id}
use telegram_mini_app.Ledger.AccountCodes.{scoped_code, parse_account_code}
use telegram_mini_app.Ledger.Posting.{Posting}
use telegram_mini_app.Ledger.Validation.{assert_valid_posting, IsPosting, assert_valid_posting_lem}
use telegram_mini_app.Ledger.Repository.{
  assert_first, post, lock_accounts, locked_ids, write_posting,
}
use telegram_mini_app.Ledger.Repository.Compute.{Balances, compute_balances}
use telegram_mini_app.Ledger.Repository.Totals.{total, AreKeyed}
use telegram_mini_app.Ledger.Repository.Conservation.{write_posting_conserves}
use telegram_mini_app.Ledger.Repository.Lookup.{PostedTransaction}
use telegram_mini_app.Ledger.Repository.Accounts.{Dict, resolve_many_or_create, sorted_unique}
use telegram_mini_app.Uuid.{is_uuid}
use telegram_mini_app.Ledger.Repository.Replay.{post_refuses_reuse}
use telegram_mini_app.Ledger.Rules.{DepositApprovedInput, deposit_approved, ReversalInput, reversal}
use telegram_mini_app.Ledger.Rules.Balance.{Moves, deposit_approved-Moves}
use telegram_mini_app.Ledger.Rules.Reversal.{reversal_cancels, posted_on, net_on, entry_sum}
use telegram_mini_app.Examples.{operator, env, db_with, posting_for, returned_or}

abbrev start : Db
start = db_with submitted

abbrev nothing_posted : PostedTransaction
nothing_posted = record {
  transaction_id = [];
  kind = deposit_claim;
  currency = [];
  occurred_at = 0;
  entries = [];
  deduplicated = true;
}

abbrev first : Posting
first = posting_for (1 ∷ [])

-- The same key for another deposit.
abbrev second : Posting
second = posting_for (2 ∷ [])

abbrev result : PostedTransaction × Db
result = returned_or (nothing_posted, start) (post env first start)

first_run : post env first start ≡ ok (result.0, result.1)
unfolding post assert_first text text_eq assert_valid_posting ◌+ℤ◌ require_effective_tenant_id
    generate_id parse_account_code resolve_many_or_create sorted_unique text_lt
first_run = refl

first_valid : assert_valid_posting second ≡ ok tt
unfolding assert_valid_posting ◌+ℤ◌
first_valid = refl

assert_valid_posting_lem_example :
    (assert_valid_posting first ≡ ok tt → IsPosting first)
    × (IsPosting first → assert_valid_posting first ≡ ok tt)
assert_valid_posting_lem_example = assert_valid_posting_lem first

fresh : result.0.deduplicated ≡ false
unfolding post assert_first text text_eq assert_valid_posting ◌+ℤ◌ require_effective_tenant_id
    generate_id parse_account_code resolve_many_or_create sorted_unique text_lt
fresh = refl

post_refuses_reuse_example : post env second result.1 ≡ err (ledger_error idempotency_key_reused)
post_refuses_reuse_example =
    post_refuses_reuse env env first second start first_run fresh refl first_valid refl
      (λ e. ground arith)

abbrev player : Text
player = text "0f8fad5b-D9cb-469f-A165-70867728950e"

abbrev method : Text
method = text "7c9e6679-7425-40de-944b-e07fc1f90ae7"

abbrev claim : DepositApprovedInput
claim = record {
  deposit_id = 1 ∷ [];
  short_id = 11 ∷ [];
  player_id = player;
  payment_method_id = method;
  amount_minor = pos 10000;
  currency = text "NSP";
  actor = system_actor;
  occurred_at = none;
}

abbrev posting_of : Result Posting → Posting
posting_of = returned_or first

claim_run : deposit_approved claim ≡ ok (posting_of (deposit_approved claim))
unfolding deposit_approved text scoped_code is_uuid
claim_run = refl

deposit_approved-Moves_example :
    (clearing liability : Text) × (scoped_code rail_clearing method (text "NSP") ≡ ok clearing)
    × (scoped_code player_liability player (text "NSP") ≡ ok liability)
    × Moves (posting_of (deposit_approved claim)) clearing liability (pos 10000)
deposit_approved-Moves_example = deposit_approved-Moves claim claim_run

-- Two movements, out of the order of their sequence.
abbrev to_reverse : ReversalInput
to_reverse = record {
  transaction_id = 41 ∷ [];
  currency_code = text "NSP";
  entries =
      record { ledger_account_id = 22 ∷ []; amount_minor = negsuc 4; sequence = 1 }
      ∷ (record { ledger_account_id = 21 ∷ []; amount_minor = pos 5; sequence = 0 } ∷ []);
  actor = system_actor;
  occurred_at = none;
  kind = none;
  allow_negative = none;
}

reversal_sum : entry_sum to_reverse.entries ≡ pos 0
unfolding ◌+ℤ◌
reversal_sum = refl

reversal_cancels_example :
    (p : Posting) × (reversal to_reverse ≡ ok p)
    × (assert_valid_posting p ≡ ok tt)
    × ((id : Text) → posted_on id p.entries +ℤ net_on id to_reverse.entries ≡ pos 0)
reversal_cancels_example = reversal_cancels to_reverse (omega arith) refl reversal_sum

-- The accounts of the posting, locked, its balances, and what is written.
abbrev refs : Dict Text
refs = (21 ∷ [], 21 ∷ []) ∷ ((22 ∷ [], 22 ∷ []) ∷ [])

abbrev no_balances : Balances
no_balances = record { snapshots = []; running = [] }

abbrev balances : Balances
balances = returned_or no_balances (compute_balances first refs start.accounts)

abbrev wrote : PostedTransaction × Db
wrote = returned_or (nothing_posted, start) (write_posting env operator first balances start)

locked_run : lock_accounts (locked_ids refs) start ≡ ok (start.accounts, start)
unfolding lock_accounts locked_ids sorted_unique text_eq text_lt text
locked_run = refl

computed_run : compute_balances first refs start.accounts ≡ ok balances
unfolding compute_balances text text_eq ◌+ℤ◌ parse_account_code
computed_run = refl

written_run : write_posting env operator first balances start ≡ ok (wrote.0, wrote.1)
unfolding write_posting assert_first compute_balances text text_eq ◌+ℤ◌ parse_account_code
    generate_id
written_run = refl

first_checked : assert_valid_posting first ≡ ok tt
unfolding assert_valid_posting ◌+ℤ◌
first_checked = refl

distinct_accounts : AreKeyed start.accounts
unfolding text_eq
distinct_accounts = (refl, (refl, tt))

write_posting_conserves_example : total wrote.1.accounts ≡ total start.accounts
write_posting_conserves_example =
    write_posting_conserves env operator first refs (locked_ids refs) start distinct_accounts
      ((assert_valid_posting_lem first).0 first_checked) locked_run computed_run written_run
