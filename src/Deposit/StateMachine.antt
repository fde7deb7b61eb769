-- ===== src/Deposit/StateMachine.antt =====
-- The only writer of a deposit's status: src/modules/deposit/deposit-state.machine.ts.
pub mod Edges
pub mod Writes
pub mod Moves
pub mod Once
pub mod Patch
pub mod ReadBack
pub mod Accepted
use telegram_mini_app.Prelude.{
  ℕ, Bool, true, false, ◌&&◌, List, [], ◌∷◌, Option, none, some, find, keep, length, map_where,
  or_else, ◌==◌, if◌then◌else◌,
}
use telegram_mini_app.Prelude.Text.{Text, text_eq}
use telegram_mini_app.Types.{
  DepositStatus, draft, awaiting_proof, submitted, under_review, pending_second_approval, approved,
  crediting, credited, credit_failed, needs_reconciliation, rejected, expired, reversed, status_in,
  Actor, player_actor, admin_actor, system_actor, Error, illegal_transition, record_not_found,
}
use telegram_mini_app.Db.{
  Db, Env, Tx, pure, throw, ◌>>=◌, ◌>>◌, require_effective_tenant_id, is_deposit,
}
use telegram_mini_app.Db.Rows.{Deposit, DepositTransition}
use telegram_mini_app.Uuid.{is_uuid}
use Patch.{PatchField, apply_patch}

-- `ALLOWED_TRANSITIONS`.
abbrev pub allowed_transitions : DepositStatus → List DepositStatus
allowed_transitions draft = awaiting_proof ∷ submitted ∷ expired ∷ rejected ∷ []
allowed_transitions awaiting_proof = submitted ∷ expired ∷ rejected ∷ []
allowed_transitions submitted =
    under_review ∷ pending_second_approval ∷ approved ∷ rejected ∷ expired ∷ []
allowed_transitions under_review =
    submitted ∷ under_review ∷ pending_second_approval ∷ approved ∷ rejected ∷ expired ∷ []
allowed_transitions pending_second_approval = approved ∷ rejected ∷ expired ∷ []
allowed_transitions approved = crediting ∷ reversed ∷ []
allowed_transitions crediting = credited ∷ credit_failed ∷ needs_reconciliation ∷ approved ∷ []
allowed_transitions credited = reversed ∷ []
allowed_transitions credit_failed = approved ∷ needs_reconciliation ∷ reversed ∷ []
allowed_transitions needs_reconciliation = credited ∷ credit_failed ∷ approved ∷ reversed ∷ []
allowed_transitions rejected = []
allowed_transitions expired = []
allowed_transitions reversed = []

abbrev pub terminal_statuses : List DepositStatus
terminal_statuses = rejected ∷ expired ∷ reversed ∷ credited ∷ []

abbrev pub reviewable_statuses : List DepositStatus
reviewable_statuses = submitted ∷ under_review ∷ pending_second_approval ∷ []

abbrev pub is_terminal : DepositStatus → Bool
is_terminal s = status_in s terminal_statuses

-- `from` is the list that the code makes of a single status or of several. A `guard` is the extra
-- predicate of the compare-and-swap.
pub record TransitionInput : Type 0 where
  pub deposit_request_id : Text
  pub from : List DepositStatus
  pub to : DepositStatus
  pub actor : Actor
  pub patch : List PatchField
  pub guard : Deposit → Bool

pub data AlreadyHandledReason : Type 0 where
  not_found_reason status_mismatch guard_failed : AlreadyHandledReason

pub data TransitionOutcome : Type 0 where
  transitioned : Deposit → DepositStatus → TransitionOutcome
  already_handled : Option DepositStatus → AlreadyHandledReason → TransitionOutcome

-- `guard` where the caller gives none.
abbrev pub no_guard : Deposit → Bool
no_guard d = true

abbrev pub is_legal : DepositStatus → DepositStatus → Bool
is_legal from to = status_in to (allowed_transitions from)

-- The loop of `assertLegal` over every declared `from`.
unfoldable pub assert_all_legal : List DepositStatus → DepositStatus → Tx (Unit {0})
assert_all_legal [] to db = pure tt db
assert_all_legal (from ∷ rest) to db =
    let next = assert_all_legal rest to db in
    if is_legal from to then next else throw (illegal_transition from to) db

actor_uuid : Text → Option Text
actor_uuid id = if is_uuid id then some id else none

-- `normalizeActorId` of the actor's id.
pub normalize_actor_id : Actor → Option Text
normalize_actor_id (player_actor id) = actor_uuid id
normalize_actor_id (admin_actor id) = actor_uuid id
normalize_actor_id system_actor = none

-- The WHERE clause of the compare-and-swap.
abbrev pub matches : Text → TransitionInput → Deposit → Bool
matches tenant input d =
    input.guard d && (is_deposit tenant input.deposit_request_id d && status_in d.status input.from)

-- Its `data`: the status, then the patch; Prisma stamps `updated_at`.
abbrev pub written : Env → TransitionInput → Deposit → Deposit
written env input d =
    let moved = record d { status = input.to } in
    record (apply_patch input.patch moved) { updated_at = env.now }

-- `updateMany`, which returns how many rows matched.
unfoldable pub update_many : Env → Text → TransitionInput → Tx ℕ
update_many env tenant input db =
    pure (length (keep (matches tenant input) db.deposits))
      (record db { deposits = map_where (matches tenant input) (written env input) db.deposits })

-- Why nothing matched.
unfoldable pub explain_miss : Text → TransitionInput → Tx TransitionOutcome
explain_miss tenant input db =
    elim (find (is_deposit tenant input.deposit_request_id) db.deposits) [
      | none ↦ pure (already_handled none not_found_reason) db
      | some row ↦
          pure
            (already_handled (some row.status)
              (if status_in row.status input.from then guard_failed else status_mismatch))
            db
    ]

abbrev pub single_from : List DepositStatus → Option DepositStatus
single_from (s ∷ []) = some s
single_from _ = none

-- The history row of the move, which names the deposit's own operator.
pub history_row : TransitionInput → Deposit → DepositTransition
unfolding normalize_actor_id actor_uuid
history_row input d = record {
  tenant_id = d.tenant_id;
  deposit_request_id = input.deposit_request_id;
  from_status = single_from input.from;
  to_status = input.to;
  actor = input.actor;
  actor_id = normalize_actor_id input.actor;
  from_candidates = elim (single_from input.from) [ none ↦ input.from | some s ↦ [] ];
}

-- `findUniqueOrThrow` of the row that was just written, then `depositTransition.create`.
unfoldable pub record_move : Text → TransitionInput → Tx TransitionOutcome
unfolding history_row
record_move tenant input db = elim (find (is_deposit tenant input.deposit_request_id) db.deposits) [
  | none ↦ throw record_not_found db
  | some d ↦
      pure (transitioned d (or_else (single_from input.from) d.status))
        (record db { transitions = history_row input d ∷ db.transitions })
]

unfoldable pub transition : Env → TransitionInput → Tx TransitionOutcome
unfolding assert_all_legal update_many explain_miss record_move
transition env input = do
  assert_all_legal input.from input.to
  tenant ← require_effective_tenant_id env
  count ← update_many env tenant input
  if count == 0 then explain_miss tenant input else record_move tenant input

moved_deposit : TransitionOutcome → Option Deposit
moved_deposit (transitioned d from) = some d
moved_deposit (already_handled current reason) = none

unfoldable pub try_transition : Env → TransitionInput → Tx (Option Deposit)
unfolding moved_deposit
try_transition env input = do outcome ← transition env input; pure (moved_deposit outcome)
