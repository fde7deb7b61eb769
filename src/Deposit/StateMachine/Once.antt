-- ===== src/Deposit/StateMachine/Once.antt =====
-- The compare-and-swap has one winner.
use telegram_mini_app.Prelude.{
  true, false, List, [], ◌∷◌, Option, none, some, find, any, keep, map_where, ◌≡◌, refl, sym, subst,
  ◌∙◌, ap, ◌≢◌, ◌⊎◌, inl, inr, arith, Bool-cases,
}
use mathlib.Core.Path.{subst₂}
use telegram_mini_app.Prelude.Text.{Text, text_eq, text_eq_iff}
use telegram_mini_app.Types.{status_in, ok, DepositStatus}
use telegram_mini_app.Db.{Db, Env, is_deposit}
use telegram_mini_app.Db.Rows.{Deposit, DepositTransition}
use telegram_mini_app.Deposit.StateMachine.{
  TransitionInput, transitioned, already_handled, AlreadyHandledReason, matches, written,
  transition, explain_miss, history_row, normalize_actor_id, single_from,
}
use telegram_mini_app.Deposit.StateMachine.Patch.{PatchField, apply_patch}
use telegram_mini_app.Deposit.StateMachine.ReadBack.{
  Patched, Reads, same_column, apply_patch-keeps, apply_patch-Patched, status-Reads, stamp-Reads,
  stamp-Patched,
}
use telegram_mini_app.Deposit.StateMachine.Writes.{
  KeepsClaim, transition-cases, transition-legal, transition-miss,
}
use telegram_mini_app.Deposit.StateMachine.Moves.{written-KeepsClaim}

-- No two rows of one operator have one id, as the primary key demands.
abbrev pub IsKeyed : List Deposit → Type 0
IsKeyed [] = Unit
IsKeyed (d ∷ ds) = (find (is_deposit d.tenant_id d.id) ds ≡ none) × IsKeyed ds

pub explain_miss-reports :
    (tenant : Text) (input : TransitionInput) (db : Db) {d : Deposit} {from : DepositStatus}
    {db' : Db}
    → explain_miss tenant input db ≢ ok (transitioned d from, db')
unfolding explain_miss
explain_miss-reports tenant input db h = ground arith

transitioned_row :
    {d e : Deposit} {from from' : DepositStatus}
    → transitioned d from ≡ transitioned e from'
    → d ≡ e
transitioned_row h = cc

module _ (env : Env) (input : TransitionInput) (tenant : Text) where
  -- A row that was rewritten has the status asked for, so it no longer matches.
  no_second_match :
      (ds : List Deposit)
      → status_in input.to input.from ≡ false
      → keep (matches tenant input) (map_where (matches tenant input) (written env input) ds) ≡ []
  no_second_match [] h = refl
  no_second_match (d ∷ ds) h = elim (Bool-cases (matches tenant input d)) [
    | inl hit ↦ ground (arith, written-KeepsClaim env input d, no_second_match ds h)
    | inr miss ↦ ground (arith, no_second_match ds h)
  ]

-- Once a transition to a status that is not among its declared ones has won, the same call in the same
-- operator, on the database that it left and whatever the clock says by then, reports that somebody
-- acted and writes nothing.
pub transition_once :
    (env later : Env) (input : TransitionInput) (db : Db) {d : Deposit} {from : DepositStatus}
    {db' : Db}
    → transition env input db ≡ ok (transitioned d from, db')
    → later.tenant ≡ env.tenant
    → status_in input.to input.from ≡ false
    → (current : Option DepositStatus) × (reason : AlreadyHandledReason) × (transition later input
          db'
        ≡ ok (already_handled current reason, db'))
transition_once env later input db {d} {from} {db'} h same fresh =
    elim (transition-cases env input db h) [
      | inl m ↦ absurd (explain_miss-reports m.tenant input db m.explained)
      | inr s ↦
          transition-miss later input db' s.tenant (same ∙ s.in_context)
            (transition-legal env input db h)
            (rw (s.after) (no_second_match env input s.tenant db.deposits fresh))
    ]

module _ (env : Env) (input : TransitionInput) (tenant : Text) where
  unnamed :
      (ds : List Deposit)
      → find (is_deposit tenant input.deposit_request_id) ds ≡ none
      → keep (matches tenant input) ds ≡ []
  unnamed [] h = refl
  unnamed (d ∷ ds) h = elim (Bool-cases (is_deposit tenant input.deposit_request_id d)) [
    | inl named ↦ absurd (ground arith)
    | inr another ↦ ground (arith, unnamed ds)
  ]

  is_deposit-written :
      (d : Deposit)
      → is_deposit tenant input.deposit_request_id (written env input d)
        ≡ is_deposit tenant input.deposit_request_id d
  is_deposit-written d =
      let claim = (written-KeepsClaim env input d).0 in
      cc (
        ap (λ x. text_eq x input.deposit_request_id) claim.id,
        ap (λ x. text_eq x tenant) claim.tenant_id,
      )

  -- The row of that id after a rewrite of what matches is the row before it, rewritten.
  find-swapped :
      (ds : List Deposit) {row : Deposit}
      → IsKeyed ds
      → keep (matches tenant input) ds ≢ []
      → find
          (is_deposit tenant input.deposit_request_id)
          (map_where (matches tenant input) (written env input) ds)
        ≡ some row
      → (d : Deposit) × (find (is_deposit tenant input.deposit_request_id) ds ≡ some d)
        × (matches tenant input d ≡ true)
        × (row ≡ written env input d)
  find-swapped [] k some_match h = absurd (some_match refl)
  find-swapped (d ∷ ds) {row} k some_match h =
      elim (Bool-cases (is_deposit tenant input.deposit_request_id d)) [
        | inl named ↦ elim (Bool-cases (matches tenant input d)) [
          | inl hit ↦ (d, ground arith, hit, ground (arith, is_deposit-written d))
          | inr miss ↦
              let id = (text_eq_iff d.id input.deposit_request_id).0 (ground arith) in
              let owner = (text_eq_iff d.tenant_id tenant).0 (ground arith) in
              let alone : find (is_deposit tenant input.deposit_request_id) ds ≡ none =
                subst₂ (λ t i. find (is_deposit t i) ds ≡ none) owner id k.0 in
              absurd (some_match (ground (arith, unnamed ds alone)))
        ]
        | inr another ↦
            let (e, found, hit, wrote) =
              find-swapped ds {row = row} k.1 (λ nothing. some_match (ground arith))
                (ground (arith, is_deposit-written d)) in
            (e, ground arith, hit, wrote)
      ]

-- The row that a winning transition writes over a deposit: it has the new status and the time of the
-- call, every field of the patch reads back from it, and what the patch does not name is as it was.
pub record Rewritten (env : Env) (input : TransitionInput) (d row : Deposit) : Type 0 where
  pub arrived : row.status ≡ input.to
  pub stamped : row.updated_at ≡ env.now
  pub patched : Patched input.patch row
  pub others : (f : PatchField) → any (same_column f) input.patch ≡ false → Reads f d → Reads f row
  pub claim : KeepsClaim d row

-- The history row of that move: it names the deposit and its operator, the status that was reached, who
-- acted, and the status it came from where only one was declared, else all that were.
pub record Recorded (input : TransitionInput) (d : Deposit) (h : DepositTransition) : Type 0 where
  pub tenant_id : h.tenant_id ≡ d.tenant_id
  pub deposit_request_id : h.deposit_request_id ≡ input.deposit_request_id
  pub to_status : h.to_status ≡ input.to
  pub actor : h.actor ≡ input.actor
  pub actor_id : h.actor_id ≡ normalize_actor_id input.actor
  pub came_from :
      ((s : DepositStatus) × (input.from ≡ s ∷ [])
        × (h.from_status ≡ some s)
        × (h.from_candidates ≡ []))
      ⊎ ((h.from_status ≡ none) × (h.from_candidates ≡ input.from))

written-Rewritten :
    (env : Env) (input : TransitionInput) (d : Deposit)
    → Rewritten env input d (written env input d)
written-Rewritten env input d =
    let moved : Deposit = record d { status = input.to } in
    let (claim, arrived) = written-KeepsClaim env input d in
    record {
      arrived = arrived;
      stamped = refl;
      patched =
          stamp-Patched input.patch env.now (apply_patch input.patch moved)
            (apply_patch-Patched input.patch moved);
      others = λ f e h.
          stamp-Reads f env.now (apply_patch input.patch moved)
            (apply_patch-keeps f input.patch moved e (status-Reads f input.to d h));
      claim = claim;
    }

came_from_one :
    (from : List DepositStatus)
    → ((s : DepositStatus) × (from ≡ s ∷ []) × (single_from from ≡ some s))
      ⊎ (single_from from ≡ none)
came_from_one [] = inr refl
came_from_one (s ∷ []) = inl (s, refl, refl)
came_from_one (s ∷ (t ∷ rest)) = inr refl

history_row-Recorded :
    (input : TransitionInput) (d row : Deposit)
    → row.tenant_id ≡ d.tenant_id
    → Recorded input d (history_row input row)
unfolding history_row
history_row-Recorded input d row owner = record {
  tenant_id = owner;
  deposit_request_id = refl;
  to_status = refl;
  actor = refl;
  actor_id = refl;
  came_from = elim (came_from_one input.from) [
    | inl (s, e, one) ↦ inl (s, e, one, ap candidates one)
    | inr several ↦ inr (several, ap candidates several)
  ];
}
  where
    candidates : Option DepositStatus → List DepositStatus
    candidates o = elim o [ none ↦ input.from | some s ↦ [] ]

-- A winning transition, where ids are unique. The deposit that was named had a declared status and
-- passed the guard; the row that the table holds under its id afterwards is the one that is returned:
-- it has the new status and the time of the call, every field of the patch, and in the other columns of
-- a patch, as in those of the claim, what the deposit had. One history row is added, which names the
-- deposit, its operator, the actor, and the statuses.
pub transition_won :
    (env : Env) (input : TransitionInput) (db : Db) {row : Deposit} {from : DepositStatus}
    {db' : Db}
    → IsKeyed db.deposits
    → transition env input db ≡ ok (transitioned row from, db')
    → (tenant : Text) × (d : Deposit) × (h : DepositTransition) × (env.tenant ≡ some tenant)
      × (find (is_deposit tenant input.deposit_request_id) db.deposits ≡ some d)
      × (input.guard d ≡ true)
      × (status_in d.status input.from ≡ true)
      × (find (is_deposit tenant input.deposit_request_id) db'.deposits ≡ some row)
      × Rewritten env input d row
      × (db'.transitions ≡ h ∷ db.transitions)
      × Recorded input d h
transition_won env input db {row} {from} {db'} keyed h = elim (transition-cases env input db h) [
  | inl m ↦ absurd (explain_miss-reports m.tenant input db m.explained)
  | inr s ↦
      let same : row ≡ s.row = transitioned_row s.reported.1 in
      let (d, found, hit, wrote) =
        find-swapped env input s.tenant db.deposits keyed s.some_match s.found in
      let written_row = same ∙ wrote in
      let made =
        subst (λ r. Rewritten env input d r) (sym written_row) (written-Rewritten env input d) in
      (
        s.tenant,
        d,
        history_row input row,
        s.in_context,
        found,
        ground (arith, hit),
        ground (arith, hit),
        rw same (
            ap (λ (x : Db). find (is_deposit s.tenant input.deposit_request_id) x.deposits) s.after
            ∙ s.found),
        made,
        rw same (ap (λ (x : Db). x.transitions) s.after),
        history_row-Recorded input d row made.claim.tenant_id,
      )
]
