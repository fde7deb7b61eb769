-- ===== src/Examples/Opening.antt =====
-- The theorems on opening a deposit, for one player with a limit.
use telegram_mini_app.Prelude.{
  suc, ◌≤◌, true, false, List, [], ◌∷◌, none, some, ◌≡◌, ◌≢◌, ◌↔◌, ◌⊎◌, refl, arith,
}
use telegram_mini_app.Prelude.Integers.{pos, ◌+ℤ◌}
use telegram_mini_app.Prelude.Text.{Text, text, text_eq}
use telegram_mini_app.Types.{awaiting_proof, rejected, active, system_actor, ok}
use telegram_mini_app.Db.{Db, Env, generate_id, require_effective_tenant_id, write_audit}
use telegram_mini_app.Db.Rows.{Deposit, PlayerLimit}
use telegram_mini_app.Deposit.StateMachine.{transition}
use telegram_mini_app.Deposit.StateMachine.Patch.{apply_patch}
use telegram_mini_app.Deposit.Policy.{
  assert_may_deposit, assert_not_self_excluded, assert_player_active, assert_not_too_many_open,
  assert_single_deposit_limit, assert_cooldown, assert_rolling_cap, effective_limit,
  sum_accepted_since, allows, count_open_for_player, max_open_deposits_per_player,
}
use telegram_mini_app.Deposit.Policy.Permits.{Permits, decision_on, assert_may_deposit_lem}
use telegram_mini_app.Deposit.Creation.{
  bank_transfer, DepositArgs, find_by_idempotency_key, policy_input, open_deposit, insert_deposit,
  store_deposit, announce_opening,
}
use telegram_mini_app.Deposit.Creation.Cases.{Replayed}
use telegram_mini_app.Deposit.Creation.Limits.{open_deposit_limits}
use telegram_mini_app.Deposit.Creation.Replay.{retry_meets_cooldown, open_deposit_taken}
use telegram_mini_app.Examples.{operator, env, deposit_in, db_with, returned_or}

abbrev player : Text
player = 5 ∷ []

abbrev limit : PlayerLimit
limit = record {
  id = 61 ∷ [];
  tenant_id = operator;
  player_id = player;
  currency_code = 6 ∷ [];
  daily_deposit_cap_minor = some (pos 500);
  max_single_deposit_minor = some (pos 300);
  cooldown_minutes = some (pos 5);
  effective_from = 10;
  effective_to = none;
}

abbrev empty_db : Db
empty_db = record (db_with rejected) {
  players = record { id = player; tenant_id = operator; status = active; created_at = 20 } ∷ [];
  player_limits = limit ∷ [];
}

abbrev args : DepositArgs
args = record {
  input = record {
    player_id = player;
    payment_method_id = 8 ∷ [];
    payment_destination_id = none;
    amount_minor = pos 200;
    external_reference = none;
    sender_account = none;
    idempotency_key = some (44 ∷ []);
  };
  method = record {
    id = 8 ∷ [];
    rail = bank_transfer;
    currency_code = 6 ∷ [];
    fee_fixed_minor = pos 0;
    fee_bps = pos 0;
  };
  destination = 9 ∷ [];
  fee_minor = pos 0;
  expires_at = 5000;
  reference = none;
  sender_account = none;
}

abbrev opened : Deposit × Db
opened =
    returned_or (deposit_in rejected, empty_db) (open_deposit env false system_actor args empty_db)

opened_run : open_deposit env false system_actor args empty_db ≡ ok opened
unfolding open_deposit insert_deposit store_deposit announce_opening transition write_audit
    generate_id require_effective_tenant_id apply_patch assert_may_deposit text_eq text
    assert_not_self_excluded assert_player_active assert_not_too_many_open
    assert_single_deposit_limit effective_limit assert_cooldown assert_rolling_cap ◌+ℤ◌
    sum_accepted_since
opened_run = refl

assert_may_deposit_lem_example :
    (assert_may_deposit env (policy_input args) empty_db
      ≡ ok (decision_on env (policy_input args) empty_db, empty_db))
    ↔ Permits env (policy_input args) empty_db
assert_may_deposit_lem_example = assert_may_deposit_lem env (policy_input args) empty_db

open_deposit_limits_example :
    Replayed env args empty_db opened.0 opened.1
    ⊎ ((allows (some (pos 500)) (sum_accepted_since 1000 player opened.1.deposits) ≡ true)
        × (sum_accepted_since 1000 player opened.1.deposits
            ≡ sum_accepted_since 1000 player empty_db.deposits +ℤ pos 200)
        × (count_open_for_player env player opened.1.deposits ≤ max_open_deposits_per_player)
        × (allows (some (pos 300)) (pos 200) ≡ true)
        × (opened.0.status ≡ awaiting_proof)
        × (opened.0.claimed_amount_minor ≡ pos 200))
unfolding effective_limit text_eq
open_deposit_limits_example =
    open_deposit_limits env false system_actor args empty_db opened.0 opened.1 opened_run

-- The row that was inserted first.
abbrev stored : List Deposit → Deposit
stored [] = deposit_in rejected
stored (d ∷ ds) = d

-- A minute later.
abbrev later : Env
later = record env { now = 61000 }

limit_later : effective_limit later player (6 ∷ []) opened.1 ≡ some limit
unfolding open_deposit insert_deposit store_deposit announce_opening transition write_audit
    generate_id require_effective_tenant_id apply_patch assert_may_deposit text_eq text
    assert_not_self_excluded assert_player_active assert_not_too_many_open
    assert_single_deposit_limit effective_limit assert_cooldown assert_rolling_cap ◌+ℤ◌
    sum_accepted_since
limit_later = refl

retry_meets_cooldown_example :
    Replayed env args empty_db opened.0 opened.1
    ⊎ (open_deposit later false system_actor args opened.1 ≢ ok opened)
retry_meets_cooldown_example =
    retry_meets_cooldown env later false false system_actor system_actor args args limit empty_db
      opened.0 opened.1 opened opened_run refl refl limit_later (omega arith) (omega arith)

-- The request again, an hour later, for a player with no limit row.
abbrev unlimited : Db
unlimited = record opened.1 { player_limits = [] }

abbrev hour_later : Env
hour_later = record env { now = 3601000 }

again-Permits : Permits hour_later (policy_input args) unlimited
unfolding open_deposit insert_deposit store_deposit announce_opening transition write_audit
    generate_id require_effective_tenant_id apply_patch assert_may_deposit text_eq text
    assert_not_self_excluded assert_player_active assert_not_too_many_open
    assert_single_deposit_limit effective_limit assert_cooldown assert_rolling_cap ◌+ℤ◌
    sum_accepted_since
again-Permits = (assert_may_deposit_lem hour_later (policy_input args) unlimited).0 refl

found_again :
    find_by_idempotency_key operator (44 ∷ []) unlimited.deposits ≡ some (stored unlimited.deposits)
unfolding open_deposit insert_deposit store_deposit announce_opening transition write_audit
    generate_id require_effective_tenant_id apply_patch assert_may_deposit text_eq text
    assert_not_self_excluded assert_player_active assert_not_too_many_open
    assert_single_deposit_limit effective_limit assert_cooldown assert_rolling_cap ◌+ℤ◌
    sum_accepted_since
found_again = refl

open_deposit_taken_example :
    open_deposit hour_later true system_actor args unlimited
    ≡ ok (stored unlimited.deposits, record unlimited { generated = suc (suc unlimited.generated) })
open_deposit_taken_example =
    open_deposit_taken hour_later true system_actor args operator (44 ∷ [])
      (stored unlimited.deposits) unlimited refl refl found_again again-Permits
