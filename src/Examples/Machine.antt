-- ===== src/Examples/Machine.antt =====
-- The theorems on the state machine at one deposit.
use telegram_mini_app.Prelude.{true, [], ◌∷◌, Option, none, some, All₂, ◌≡◌, refl, ◌⊎◌, find}
use telegram_mini_app.Prelude.Text.{Text, text, text_eq}
use telegram_mini_app.Types.{DepositStatus, status_in, approved, crediting, system_actor, ok}
use telegram_mini_app.Db.{Db, is_deposit, require_effective_tenant_id}
use telegram_mini_app.Db.Rows.{Deposit, DepositTransition}
use telegram_mini_app.Deposit.StateMachine.{
  TransitionInput, transitioned, already_handled, AlreadyHandledReason, status_mismatch, no_guard,
  transition, written,
}
use telegram_mini_app.Deposit.StateMachine.Accepted.{KeepsAccepted, transition-KeepsAccepted}
use telegram_mini_app.Deposit.StateMachine.Moves.{Moved, transition-Moved}
use telegram_mini_app.Deposit.StateMachine.Once.{
  transition_once, transition_won, Rewritten, Recorded,
}
use telegram_mini_app.Deposit.StateMachine.Patch.{apply_patch}
use telegram_mini_app.Examples.{env, deposit_in, db_with, returned_or}

abbrev take_input : TransitionInput
take_input = record {
  deposit_request_id = 1 ∷ [];
  from = approved ∷ [];
  to = crediting;
  actor = system_actor;
  patch = [];
  guard = no_guard;
}

abbrev after : Db
after =
    (returned_or (already_handled none status_mismatch, db_with approved)
      (transition env take_input (db_with approved))).1

abbrev taken : Deposit
taken = written env take_input (deposit_in approved)

taken_run : transition env take_input (db_with approved) ≡ ok (transitioned taken approved, after)
unfolding transition text apply_patch require_effective_tenant_id text_eq
taken_run = refl

transition_won_example :
    (tenant : Text) × (d : Deposit) × (h : DepositTransition) × (env.tenant ≡ some tenant)
    × (find (is_deposit tenant (1 ∷ [])) (db_with approved).deposits ≡ some d)
    × (take_input.guard d ≡ true)
    × (status_in d.status (approved ∷ []) ≡ true)
    × (find (is_deposit tenant (1 ∷ [])) after.deposits ≡ some taken)
    × Rewritten env take_input d taken
    × (after.transitions ≡ h ∷ [])
    × Recorded take_input d h
transition_won_example = transition_won env take_input (db_with approved) (refl, tt) taken_run

transition_once_example :
    (current : Option DepositStatus) × (reason : AlreadyHandledReason) × (transition env take_input
        after
      ≡ ok (already_handled current reason, after))
transition_once_example = transition_once env env take_input (db_with approved) taken_run refl refl

transition-Moved_example :
    All₂ (λ d e. (e ≡ d) ⊎ Moved env take_input d e) (db_with approved).deposits after.deposits
transition-Moved_example = transition-Moved env take_input (db_with approved) taken_run

transition-KeepsAccepted_example : All₂ KeepsAccepted (db_with approved).deposits after.deposits
transition-KeepsAccepted_example =
    transition-KeepsAccepted env take_input (db_with approved) taken_run
