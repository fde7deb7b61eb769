-- ===== src/Deposit/StateMachine/Edges.antt =====
-- What the table of `ALLOWED_TRANSITIONS` allows over many steps.
use telegram_mini_app.Prelude.{
  true, false, List, [], ◌∷◌, all, ◌≡◌, refl, ◌⊎◌, inl, inr, arith, Bool-cases,
}
use telegram_mini_app.Types.{
  DepositStatus, draft, approved, crediting, credited, credit_failed, needs_reconciliation,
  rejected, expired, reversed, status_in, illegal_transition, err,
}
use telegram_mini_app.Db.{Db, Env, ◌>>=◌}
use telegram_mini_app.Deposit.StateMachine.{
  is_legal, terminal_statuses, TransitionInput, transition,
}
use telegram_mini_app.Deposit.StateMachine.Writes.{assert_all_legal_err}

-- The statuses that legal transitions lead to.
pub data Leads (s : DepositStatus) : DepositStatus → Type 0 where
  here : Leads s s
  next : {t u : DepositStatus} → Leads s t → is_legal t u ≡ true → Leads s u

-- The statuses of a deposit whose claim has been accepted.
abbrev pub accepted_statuses : List DepositStatus
accepted_statuses =
    approved ∷ crediting ∷ credited ∷ credit_failed ∷ needs_reconciliation ∷ reversed ∷ []

pub accepted_step :
    (s t : DepositStatus)
    → status_in s accepted_statuses ≡ true
    → is_legal s t ≡ true
    → status_in t accepted_statuses ≡ true
accepted_step draft t h e = absurd (cc)
accepted_step s t h e = ground arith

-- From APPROVED, CREDITING, CREDITED, CREDIT_FAILED, NEEDS_RECONCILIATION or REVERSED the table leads only to
-- those.
pub accepted_stays :
    {s t : DepositStatus}
    → status_in s accepted_statuses ≡ true
    → Leads s t
    → status_in t accepted_statuses ≡ true
accepted_stays h here = h
accepted_stays h (next {t = t} {u = u} path e) = accepted_step t u (accepted_stays h path) e

enters_by_approval :
    (s t : DepositStatus)
    → status_in s accepted_statuses ≡ false
    → is_legal s t ≡ true
    → (t ≡ approved) ⊎ (status_in t accepted_statuses ≡ false)
enters_by_approval draft t h e = ground arith
enters_by_approval s t h e = ground arith

-- Money is credited only after an approval: every way from an undecided status to an accepted one
-- passes through APPROVED.
pub accepted_via_approved :
    {s t : DepositStatus}
    → status_in s accepted_statuses ≡ false
    → status_in t accepted_statuses ≡ true
    → Leads s t
    → Leads s approved × Leads approved t
accepted_via_approved h k here = absurd (cc)
accepted_via_approved h k (next {t = t} {u = u} path e) =
    elim (Bool-cases (status_in t accepted_statuses)) [
      | inl inside ↦
          let (before, after) = accepted_via_approved h inside path in (before, next after e)
      | inr outside ↦ elim (enters_by_approval t u outside e) [
        | inl at_approved ↦ (rw at_approved at (next path e), rw at_approved here)
        | inr still ↦ absurd (cc)
      ]
    ]

-- REJECTED, EXPIRED and REVERSED are final.
pub final_stays :
    {s t : DepositStatus}
    → status_in s (rejected ∷ expired ∷ reversed ∷ []) ≡ true
    → Leads s t
    → t ≡ s
final_stays h here = refl
final_stays {s} h (next {t = t} {u = u} path e) =
    absurd (no_exit s u h (rw (final_stays h path) at e))
  where
    no_exit :
        (s u : DepositStatus)
        → status_in s (rejected ∷ expired ∷ reversed ∷ []) ≡ true
        → is_legal s u ≡ true
        → ⊥
    no_exit draft u h e = cc
    no_exit s u h e = ground arith

-- A terminal status allows no step, but for CREDITED, which can be reversed.
pub terminal_exits :
    (s t : DepositStatus)
    → status_in s terminal_statuses ≡ true
    → is_legal s t ≡ true
    → (s ≡ credited) × (t ≡ reversed)
terminal_exits draft t h e = absurd (cc)
terminal_exits s t h e = ground arith

-- A call that declares a status with no edge to the requested one throws, whatever the row holds,
-- and so writes nothing.
pub transition_illegal :
    (env : Env) (input : TransitionInput) (db : Db)
    → all (λ f. is_legal f input.to) input.from ≡ false
    → (f : DepositStatus) × (transition env input db ≡ err (illegal_transition f input.to))
      × (is_legal f input.to ≡ false)
unfolding transition
transition_illegal env input db h =
    let (f, thrown, illegal) = assert_all_legal_err input.from input.to db h in
    (f, rw (thrown, ◌>>=◌), illegal)
