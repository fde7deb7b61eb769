-- ===== src/Ledger/Repository/Totals.antt =====
-- The total of the cached balances, and the same total seen through the running balances.
use telegram_mini_app.Prelude.{
  true, false, List, [], ◌∷◌, Option, none, some, find, or_else, if◌then◌else◌, ◌≡◌, refl, ap, ◌∙◌,
  inl, inr, arith, Bool-cases,
}
use telegram_mini_app.Prelude.Integers.{ℤ, pos, ◌+ℤ◌, int_laws, parts_of_eq}
use telegram_mini_app.Prelude.Text.{Text, text_eq, text_eq_iff}
use telegram_mini_app.Db.Rows.{LedgerAccount}
use telegram_mini_app.Ledger.Repository.Compute.{balance_now}
use telegram_mini_app.Ledger.Repository.Accounts.{Dict, lookup, set, is_account_id}

abbrev pub total : List LedgerAccount → ℤ
total [] = pos 0
total (a ∷ rows) = a.cached_balance_minor +ℤ total rows

abbrev pub view : Dict ℤ → List LedgerAccount → ℤ
view running [] = pos 0
view running (a ∷ rows) = balance_now running a +ℤ view running rows

-- Account ids are a primary key, and a map holds a key once.
abbrev pub AreKeyed : List LedgerAccount → Type 0
AreKeyed [] = Unit
AreKeyed (a ∷ rows) = (find (is_account_id a.id) rows ≡ none) × AreKeyed rows

abbrev pub IsMap : Dict ℤ → Type 0
IsMap [] = Unit
IsMap ((k, v) ∷ d) = (lookup k d ≡ none) × IsMap d

pub lookup-set :
    (j k : Text) (v : ℤ) (d : Dict ℤ)
    → lookup k (set j v d) ≡ (if text_eq j k then some v else lookup k d)
lookup-set j k v [] = refl
lookup-set j k v ((i, w) ∷ d) =
    ground (arith, text_eq_iff j k, text_eq_iff i k, text_eq_iff i j, lookup-set j k v d)

pub set-IsMap : (j : Text) (v : ℤ) (d : Dict ℤ) → IsMap d → IsMap (set j v d)
set-IsMap j v [] h = (refl, tt)
set-IsMap j v ((i, w) ∷ d) h = elim (Bool-cases (text_eq i j)) [
  | inl same ↦ rw same h
  | inr other ↦ rw other (
    lookup-set j i v d ∙ ground (arith, text_eq_iff i j, text_eq_iff j i, h.0),
    set-IsMap j v d h.1,
  )
]

pub view_nil : (rows : List LedgerAccount) → view [] rows ≡ total rows
view_nil [] = refl
view_nil (a ∷ rows) = ap (λ t. a.cached_balance_minor +ℤ t) (view_nil rows)

swap : (x y z : ℤ) → x +ℤ y +ℤ z ≡ z +ℤ y +ℤ x
swap x y z = omega int_laws

now_set :
    (id : Text) (v : ℤ) (running : Dict ℤ) (a : LedgerAccount)
    → text_eq a.id id ≡ true
    → balance_now (set id v running) a ≡ v
now_set id v running a same =
    ground (arith, lookup-set id a.id v running, text_eq_iff a.id id, text_eq_iff id a.id)

now_kept :
    (id : Text) (v : ℤ) (running : Dict ℤ) (a : LedgerAccount)
    → text_eq a.id id ≡ false
    → balance_now (set id v running) a ≡ balance_now running a
now_kept id v running a other =
    let kept : lookup a.id (set id v running) ≡ lookup a.id running =
      ground (arith, lookup-set id a.id v running, text_eq_iff a.id id, text_eq_iff id a.id) in
    ap (λ (o : Option ℤ). or_else o a.cached_balance_minor) kept

-- An entry for an account that the list does not hold is not seen.
view-absent :
    (id : Text) (v : ℤ) (running : Dict ℤ) (rows : List LedgerAccount)
    → find (is_account_id id) rows ≡ none
    → view (set id v running) rows ≡ view running rows
view-absent id v running [] h = refl
view-absent id v running (a ∷ rows) h = elim (Bool-cases (text_eq a.id id)) [
  | inl same ↦ absurd (ground arith)
  | inr other ↦
      rw (now_kept id v running a other)
        (ap (λ t. balance_now running a +ℤ t) (view-absent id v running rows (rw other at h)))
]

first_row :
    (a row : LedgerAccount) (id : Text) (rows : List LedgerAccount)
    → text_eq a.id id ≡ true
    → find (is_account_id id) (a ∷ rows) ≡ some row
    → a ≡ row
first_row a row id rows same h = ground arith

-- Giving an account a new running balance moves the total by the difference.
pub view-set :
    (id : Text) (v : ℤ) (running : Dict ℤ) (rows : List LedgerAccount) {row : LedgerAccount}
    → AreKeyed rows
    → find (is_account_id id) rows ≡ some row
    → view (set id v running) rows +ℤ balance_now running row ≡ view running rows +ℤ v
view-set id v running [] k h = absurd (cc)
view-set id v running (a ∷ rows) {row} k h = elim (Bool-cases (text_eq a.id id)) [
  | inl same ↦
      let ids : a.id ≡ id = (text_eq_iff a.id id).0 same in
      let now : balance_now (set id v running) a ≡ v = now_set id v running a same in
      let later : view (set id v running) rows ≡ view running rows =
        view-absent id v running rows (rw (← ids) k.0) in
      rw now (
        rw later (
          rw (← first_row a row id rows same h)
            (swap v (view running rows) (balance_now running a))))
  | inr other ↦
      let now : balance_now (set id v running) a ≡ balance_now running a =
        now_kept id v running a other in
      rw now
        (omega (int_laws, parts_of_eq (view-set id v running rows {row = row} k.1 (rw other at h))))
]
