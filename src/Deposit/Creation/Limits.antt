-- ===== src/Deposit/Creation/Limits.antt =====
-- What an opened deposit does to the player's limits
-- (src/modules/deposit/services/deposit.service.ts).
use telegram_mini_app.Prelude.{
  ℕ, suc, ◌≤◌, Bool, true, List, [], ◌∷◌, some, map_where, or_else, ◌≡◌, ◌⊎◌, inl, inr, refl, ap,
  ◌∙◌, arith, Bool-cases,
}
use telegram_mini_app.Prelude.Integers.{ℤ, ◌+ℤ◌, int_laws}
use telegram_mini_app.Prelude.Text.{Text, text_eq_refl}
use telegram_mini_app.Types.{Actor, draft, awaiting_proof, status_eq-eq, ok}
use telegram_mini_app.Db.{Db, Env}
use telegram_mini_app.Db.Rows.{Deposit}
use telegram_mini_app.Deposit.StateMachine.{matches, written}
use telegram_mini_app.Deposit.StateMachine.Patch.{apply_patch}
use telegram_mini_app.Deposit.Policy.{
  count_open_for_player, is_open_of, counts_since, sum_accepted_since, max_open_deposits_per_player,
  cap_of, allows, effective_limit,
}
use telegram_mini_app.Deposit.Policy.Permits.{single_of}
use telegram_mini_app.Deposit.Creation.{DepositArgs, deposit_row, opening_input, open_deposit}
use telegram_mini_app.Deposit.Creation.Cases.{Replayed, Opened, open_deposit-cases}

module _ (env : Env) (actor : Actor) (tenant id : Text) where
  matched_draft :
      (d : Deposit) → matches tenant (opening_input actor id) d ≡ true → d.status ≡ draft
  matched_draft d h = status_eq-eq d.status draft (ground arith)

  counts_kept :
      (now : ℕ) (player : Text) (d : Deposit)
      → matches tenant (opening_input actor id) d ≡ true
      → counts_since now player (written env (opening_input actor id) d) ≡ counts_since now player d
  unfolding apply_patch
  counts_kept now player d h = rw (matched_draft d h) refl

  open_kept :
      (player : Text) (d : Deposit)
      → matches tenant (opening_input actor id) d ≡ true
      → is_open_of env player (written env (opening_input actor id) d) ≡ is_open_of env player d
  unfolding apply_patch
  open_kept player d h = rw (matched_draft d h) refl

  sum_kept :
      (now : ℕ) (player : Text) (ds : List Deposit)
      → sum_accepted_since now player (
          map_where
            (matches tenant (opening_input actor id))
            (written env (opening_input actor id))
            ds)
        ≡ sum_accepted_since now player ds
  unfolding sum_accepted_since apply_patch
  sum_kept now player [] = refl
  sum_kept now player (d ∷ ds) = elim (Bool-cases (matches tenant (opening_input actor id) d)) [
    | inl e ↦ elim (Bool-cases (counts_since now player d)) [
      | inl c ↦
          rw (e, counts_kept now player d e, c)
            (ap (λ (x : ℤ). or_else d.verified_amount_minor d.claimed_amount_minor +ℤ x)
              (sum_kept now player ds))
      | inr c ↦ rw (e, counts_kept now player d e, c) (sum_kept now player ds)
    ]
    | inr e ↦ elim (Bool-cases (counts_since now player d)) [
      | inl c ↦
          rw (e, c)
            (ap (λ (x : ℤ). or_else d.verified_amount_minor d.claimed_amount_minor +ℤ x)
              (sum_kept now player ds))
      | inr c ↦ rw (e, c) (sum_kept now player ds)
    ]
  ]

  count_kept :
      (player : Text) (ds : List Deposit)
      → count_open_for_player env player (
          map_where
            (matches tenant (opening_input actor id))
            (written env (opening_input actor id))
            ds)
        ≡ count_open_for_player env player ds
  count_kept player [] = refl
  count_kept player (d ∷ ds) = elim (Bool-cases (matches tenant (opening_input actor id) d)) [
    | inl e ↦ ground (arith, e, open_kept player d e, count_kept player ds)
    | inr e ↦ ground (arith, e, count_kept player ds)
  ]

row_counts :
    (env : Env) (args : DepositArgs) (tenant short id : Text)
    → counts_since env.now args.input.player_id (deposit_row env args tenant short id) ≡ true
row_counts env args tenant short id = rw (text_eq_refl args.input.player_id) (ground arith)

row_is_open :
    (env : Env) (args : DepositArgs) (tenant short id : Text)
    → env.tenant ≡ some tenant
    → is_open_of env args.input.player_id (deposit_row env args tenant short id) ≡ true
row_is_open env args tenant short id h =
    rw (h) (rw (text_eq_refl tenant, text_eq_refl args.input.player_id) refl)

+ℤ_comm : (a b : ℤ) → a +ℤ b ≡ b +ℤ a
+ℤ_comm a b = grind int_laws

-- The player's side of the books after a deposit was opened: the window holds the amount beside what it
-- held, and one more deposit is open.
pub Opened-adds :
    (env : Env) (actor : Actor) (args : DepositArgs) (db : Db) {d : Deposit} {db' : Db}
    → Opened env actor args db d db'
    → (sum_accepted_since env.now args.input.player_id db'.deposits
        ≡ sum_accepted_since env.now args.input.player_id db.deposits +ℤ args.input.amount_minor)
      × (count_open_for_player env args.input.player_id db'.deposits
          ≡ suc (count_open_for_player env args.input.player_id db.deposits))
unfolding sum_accepted_since
Opened-adds env actor args db {d} {db'} o =
    let player = args.input.player_id in
    let row = deposit_row env args o.tenant o.short o.id in
    (
      ap (sum_accepted_since env.now player) o.deposits
          ∙ sum_kept env actor o.tenant o.id env.now player (row ∷ db.deposits)
          ∙ rw (row_counts env args o.tenant o.short o.id) (+ℤ_comm _ _),
      ap (count_open_for_player env player) o.deposits
          ∙ count_kept env actor o.tenant o.id player (row ∷ db.deposits)
          ∙ rw (row_is_open env args o.tenant o.short o.id o.in_context) refl,
    )

-- Where the transaction of `create` inserted a deposit, and did not answer with one that was there under
-- the request's key, the player's limits still hold afterwards: what the last 24 hours count has grown by
-- the amount and is within the cap in force, no more than three deposits are open, and the amount is
-- within the ceiling on one deposit. The deposit waits for its proof with the amount that was asked for.
pub open_deposit_limits :
    (env : Env) (survives : Bool) (actor : Actor) (args : DepositArgs) (db : Db) (d : Deposit)
    (db' : Db)
    → open_deposit env survives actor args db ≡ ok (d, db')
    → Replayed env args db d db'
      ⊎ ((allows
              (cap_of (effective_limit env args.input.player_id args.method.currency_code db))
              (sum_accepted_since env.now args.input.player_id db'.deposits)
            ≡ true)
          × (sum_accepted_since env.now args.input.player_id db'.deposits
              ≡ sum_accepted_since env.now args.input.player_id db.deposits
                +ℤ args.input.amount_minor)
          × (count_open_for_player env args.input.player_id db'.deposits
              ≤ max_open_deposits_per_player)
          × (allows
                (single_of (effective_limit env args.input.player_id args.method.currency_code db))
                args.input.amount_minor
              ≡ true)
          × (d.status ≡ awaiting_proof)
          × (d.claimed_amount_minor ≡ args.input.amount_minor))
open_deposit_limits env survives actor args db d db' h =
    let (permits, outcome) = open_deposit-cases env survives actor args db h in
    elim outcome [
      | inl r ↦ inl r
      | inr o ↦
          let (grown, opened) = Opened-adds env actor args db o in
          inr (
            rw grown permits.within_cap,
            grown,
            omega (arith, opened, permits.few_open),
            permits.within_single,
            ap (λ (x : Deposit). x.status) o.returned_row,
            ap (λ (x : Deposit). x.claimed_amount_minor) o.returned_row,
          )
    ]
