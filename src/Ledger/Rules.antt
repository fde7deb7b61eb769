-- ===== src/Ledger/Rules.antt =====
-- The four postings of the business: src/core/ledger/posting-rules.ts.
pub mod Balance
pub mod Reversal
use telegram_mini_app.Prelude.{
  ℕ, Bool, true, List, [], ◌∷◌, ◌++◌, Option, none, some, or_else, map, leb, if◌then◌else◌,
}
use telegram_mini_app.Prelude.Integers.{ℤ, pos, neg_ℤ, leb_ℤ}
use telegram_mini_app.Prelude.Text.{Text, text}
use telegram_mini_app.Types.{
  LedgerTxKind, deposit_claim, deposit_credit, deposit_reversal, manual_adjustment, LedgerRefType,
  deposit_ref, rail_settlement_ref, reversal_ref, Actor, Error, ledger_error, invalid_amount,
  nothing_to_reverse, Result, ok, err,
}
use telegram_mini_app.Ledger.AccountCodes.{
  rail_clearing_code, player_liability_code, ichancy_agent_float_code, house_cash_code,
}
use telegram_mini_app.Ledger.Posting.{Posting, PostingEntry, by_code, by_id}

infixl 5 ◌>>=◌
abbrev ◌>>=◌ : {A B : Type 0} → Result A → (A → Result B) → Result B
m >>= f = elim m [ ok a ↦ f a | err e ↦ err e ]

-- `requirePositive`; the `assertPositive` that it ends with repeats the same test.
pub require_positive : ℤ → Result ℤ
require_positive amount =
    if leb_ℤ amount (pos 0) then err (ledger_error invalid_amount) else ok amount

-- What the three rules over an amount share: check it, name the debited and the credited account,
-- and build the posting.
unfoldable pub rule : ℤ → Result Text → Result Text → (ℤ → Text → Text → Posting) → Result Posting
unfolding require_positive
rule amount_minor debit credit build = do
  amount ← require_positive amount_minor
  debited ← debit
  credited ← credit
  ok (build amount debited credited)

pub record DepositApprovedInput : Type 0 where
  pub deposit_id : Text
  pub short_id : Text
  pub player_id : Text
  pub payment_method_id : Text
  pub amount_minor : ℤ
  pub currency : Text
  pub actor : Actor
  pub occurred_at : Option ℕ

-- T1.
unfoldable pub deposit_approved : DepositApprovedInput → Result Posting
unfolding rule
deposit_approved input =
    rule input.amount_minor (rail_clearing_code input.payment_method_id input.currency)
      (player_liability_code input.player_id input.currency)
      λ amount clearing liability. record {
        idempotency_key = text "ledger:deposit:" ++ (input.deposit_id ++ text ":claim");
        kind = deposit_claim;
        ref_type = deposit_ref;
        ref_id = input.deposit_id;
        currency = input.currency;
        entries = by_code clearing amount ∷ by_code liability (neg_ℤ amount) ∷ [];
        actor = input.actor;
        occurred_at = input.occurred_at;
        external_ref = some input.short_id;
        reverses_tx_id = none;
        allow_negative = none;
      }

pub record IchancyCreditedInput : Type 0 where
  pub deposit_id : Text
  pub short_id : Text
  pub player_id : Text
  pub amount_minor : ℤ
  pub currency : Text
  pub actor : Actor
  pub occurred_at : Option ℕ

-- T2.
unfoldable pub ichancy_credited : IchancyCreditedInput → Result Posting
unfolding rule
ichancy_credited input =
    rule input.amount_minor (player_liability_code input.player_id input.currency)
      (ichancy_agent_float_code input.currency)
      λ amount liability float. record {
        idempotency_key = text "ledger:deposit:" ++ (input.deposit_id ++ text ":credit");
        kind = deposit_credit;
        ref_type = deposit_ref;
        ref_id = input.deposit_id;
        currency = input.currency;
        entries = by_code liability amount ∷ by_code float (neg_ℤ amount) ∷ [];
        actor = input.actor;
        occurred_at = input.occurred_at;
        external_ref = some input.short_id;
        reverses_tx_id = none;
        allow_negative = none;
      }

pub record RailSettledInput : Type 0 where
  pub settlement_id : Text
  pub payment_method_id : Text
  pub amount_minor : ℤ
  pub currency : Text
  pub actor : Actor
  pub occurred_at : Option ℕ
  pub external_ref : Option Text
  pub kind : Option LedgerTxKind

unfoldable pub rail_settled : RailSettledInput → Result Posting
unfolding rule
rail_settled input =
    rule input.amount_minor (house_cash_code input.payment_method_id input.currency)
      (rail_clearing_code input.payment_method_id input.currency)
      λ amount cash clearing. record {
        idempotency_key = text "ledger:rail-settlement:" ++ input.settlement_id;
        kind = or_else input.kind manual_adjustment;
        ref_type = rail_settlement_ref;
        ref_id = input.settlement_id;
        currency = input.currency;
        entries = by_code cash amount ∷ by_code clearing (neg_ℤ amount) ∷ [];
        actor = input.actor;
        occurred_at = input.occurred_at;
        external_ref = some (or_else input.external_ref input.settlement_id);
        reverses_tx_id = none;
        allow_negative = none;
      }

pub record ReversibleEntry : Type 0 where
  pub ledger_account_id : Text
  pub amount_minor : ℤ
  pub sequence : ℕ

pub record ReversalInput : Type 0 where
  pub transaction_id : Text
  pub currency_code : Text
  pub entries : List ReversibleEntry
  pub actor : Actor
  pub occurred_at : Option ℕ
  pub kind : Option LedgerTxKind
  pub allow_negative : Option Bool

-- The stable `sort` by sequence, one insertion.
abbrev pub insert_by_sequence : ReversibleEntry → List ReversibleEntry → List ReversibleEntry
insert_by_sequence e [] = e ∷ []
insert_by_sequence e (f ∷ rest) =
    if leb e.sequence f.sequence then e ∷ (f ∷ rest) else f ∷ insert_by_sequence e rest

abbrev pub sort_by_sequence : List ReversibleEntry → List ReversibleEntry
sort_by_sequence [] = []
sort_by_sequence (e ∷ rest) = insert_by_sequence e (sort_by_sequence rest)

abbrev pub mirror : ReversibleEntry → PostingEntry
mirror e = by_id e.ledger_account_id (neg_ℤ e.amount_minor)

pub reversal_posting : ReversalInput → Posting
reversal_posting input = record {
  idempotency_key = text "ledger:reversal:" ++ input.transaction_id;
  kind = or_else input.kind deposit_reversal;
  ref_type = reversal_ref;
  ref_id = input.transaction_id;
  currency = input.currency_code;
  entries = map mirror (sort_by_sequence input.entries);
  actor = input.actor;
  occurred_at = input.occurred_at;
  external_ref = none;
  reverses_tx_id = some input.transaction_id;
  allow_negative = some (or_else input.allow_negative true);
}

abbrev pub reversal_of : ReversalInput → List ReversibleEntry → Result Posting
reversal_of input [] = err (ledger_error nothing_to_reverse)
reversal_of input (e ∷ rest) = ok (reversal_posting input)

unfoldable pub reversal : ReversalInput → Result Posting
unfolding reversal_posting
reversal input = reversal_of input input.entries
