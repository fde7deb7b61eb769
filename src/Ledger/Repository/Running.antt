-- ===== src/Ledger/Repository/Running.antt =====
-- The running balances of a posting, and the cached balances that they are written to.
use telegram_mini_app.Prelude.{
  ℕ, suc, true, false, List, [], ◌∷◌, none, some, find, map_where, ◌≡◌, refl, sym, ap, ◌∙◌, inl,
  inr, arith, Bool-cases, Option-cases, find-holds,
}
use telegram_mini_app.Prelude.Integers.{ℤ, ◌+ℤ◌, int_laws, parts_of_eq, sum_ℤ}
use telegram_mini_app.Prelude.Text.{Text, text_eq, text_eq_iff}
use telegram_mini_app.Types.{ok, chain_ok}
use telegram_mini_app.Db.{Db, returned}
use telegram_mini_app.Db.Rows.{LedgerAccount}
use telegram_mini_app.Ledger.Posting.{Posting, PostingEntry, amounts, entry_ref}
use telegram_mini_app.Ledger.Repository.{write_balances, is_owned_account}
use telegram_mini_app.Ledger.Repository.Accounts.{Dict, lookup, is_account_id}
use telegram_mini_app.Ledger.Repository.Compute.{
  Balances, balance_now, advance, entry_row, walk_entries,
}
use telegram_mini_app.Ledger.Repository.Totals.{
  total, view, AreKeyed, IsMap, view-set, set-IsMap, view_nil,
}

-- The locked rows stand in the table.
abbrev pub AreRowsOf : List LedgerAccount → List LedgerAccount → Type 0
AreRowsOf accounts locked =
    (id : Text) (row : LedgerAccount)
    → find (is_account_id id) locked ≡ some row
    → find (is_account_id id) accounts ≡ some row

entry_row_found :
    (p : Posting) (refs : Dict Text) (locked : List LedgerAccount) (e : PostingEntry)
    {row : LedgerAccount}
    → entry_row p refs locked e ≡ ok row
    → find (is_account_id row.id) locked ≡ some row
unfolding entry_row
entry_row_found p refs locked e {row} h = elim (Option-cases (lookup (entry_ref e) refs)) [
  | inl unknown ↦ absurd (ground arith)
  | inr (id, known) ↦ elim (Option-cases (find (is_account_id id) locked)) [
    | inl gone ↦ absurd (ground arith)
    | inr (r, found) ↦
        let same : r ≡ row = ground arith in
        let named : r.id ≡ id =
          (text_eq_iff r.id id).0 (find-holds (is_account_id id) locked found) in
        rw same at (rw (← named) at found)
  ]
]

module _ (p : Posting) (refs : Dict Text) (locked accounts : List LedgerAccount)
    (keyed : AreKeyed accounts) (rows : AreRowsOf accounts locked) where
  pub walk_entries-view :
      (index : ℕ) (es : List PostingEntry) (b : Balances) {b' : Balances}
      → walk_entries p refs locked index es b ≡ ok b'
      → IsMap b.running
      → (view b'.running accounts ≡ view b.running accounts +ℤ sum_ℤ (amounts es))
        × IsMap b'.running
  unfolding walk_entries
  walk_entries-view index [] b {b'} h m = let same : b ≡ b' = cc in rw (← same) (omega int_laws, m)
  walk_entries-view index (e ∷ es) b {b'} h m =
      let (row, h1, h2) = chain_ok (entry_row p refs locked e) _ h in
      let found = rows row.id row (entry_row_found p refs locked e h1) in
      let now = balance_now b.running row +ℤ e.amount_minor in
      let (rest, m') =
        walk_entries-view (suc index) es (advance index row e.amount_minor b) h2
          (set-IsMap row.id now b.running m) in
      (
        omega (
          int_laws,
          parts_of_eq rest,
          parts_of_eq (view-set row.id now b.running accounts {row = row} keyed found),
        ),
        m',
      )

-- Writing one balance.
abbrev put : ℤ → LedgerAccount → LedgerAccount
put balance a = record a { cached_balance_minor = balance }

module _ (tenant id : Text) (balance : ℤ) where
  find-written :
      (x : Text) (rows : List LedgerAccount)
      → find (is_account_id x) rows ≡ none
      → find (is_account_id x) (map_where (is_owned_account tenant id) (put balance) rows) ≡ none
  find-written x [] h = refl
  find-written x (a ∷ rows) h = ground (arith, find-written x rows)

  written-AreKeyed :
      (rows : List LedgerAccount)
      → AreKeyed rows
      → AreKeyed (map_where (is_owned_account tenant id) (put balance) rows)
  written-AreKeyed [] k = tt
  written-AreKeyed (a ∷ rows) k = elim (Bool-cases (is_owned_account tenant id a)) [
    | inl own ↦ rw own (find-written a.id rows k.0, written-AreKeyed rows k.1)
    | inr foreign ↦ rw foreign (find-written a.id rows k.0, written-AreKeyed rows k.1)
  ]

  written-absent :
      (rows : List LedgerAccount)
      → find (is_account_id id) rows ≡ none
      → (map_where (is_owned_account tenant id) (put balance) rows ≡ rows)
        × (find (is_owned_account tenant id) rows ≡ none)
  written-absent [] h = (refl, refl)
  written-absent (a ∷ rows) h =
      let rest = written-absent rows (ground arith) in (ground (arith, rest), ground (arith, rest))

  view-absent_head :
      (running : Dict ℤ) (rows : List LedgerAccount)
      → find (is_account_id id) rows ≡ none
      → view ((id, balance) ∷ running) rows ≡ view running rows
  view-absent_head running [] h = refl
  view-absent_head running (a ∷ rows) h =
      let rest = view-absent_head running rows (ground arith) in
      let other : text_eq id a.id ≡ false =
        ground (arith, text_eq_iff a.id id, text_eq_iff id a.id) in
      rw other (rw rest refl)

  view-written :
      (running : Dict ℤ) (rows : List LedgerAccount) {row : LedgerAccount}
      → AreKeyed rows
      → lookup id running ≡ none
      → find (is_owned_account tenant id) rows ≡ some row
      → view ((id, balance) ∷ running) rows
        ≡ view running (map_where (is_owned_account tenant id) (put balance) rows)
  view-written running [] k l h = absurd (cc)
  view-written running (a ∷ rows) {row} k l h = elim (Bool-cases (text_eq a.id id)) [
    | inl same ↦
        let ids : a.id ≡ id = (text_eq_iff a.id id).0 same in
        let alone : find (is_account_id id) rows ≡ none = rw ids at k.0 in
        let back : text_eq id a.id ≡ true = (text_eq_iff id a.id).1 (sym ids) in
        let none_yet : lookup a.id running ≡ none = rw ids l in
        elim (Bool-cases (text_eq a.tenant_id tenant)) [
          | inl own ↦ rw back (
              rw same (
                rw own (
                  rw none_yet (
                    rw (written-absent rows alone).0
                      (ap (λ t. balance +ℤ t) (view-absent_head running rows alone))))))
          | inr foreign ↦ absurd (cc ((written-absent rows alone).1, rw foreign at (rw same at h)))
        ]
    | inr other ↦
        let back : text_eq id a.id ≡ false =
          ground (arith, text_eq_iff a.id id, text_eq_iff id a.id) in
        rw back (
          rw other (
            ap (λ t. balance_now running a +ℤ t)
              (view-written running rows {row = row} k.1 l (rw other at h))))
  ]

-- The cached balances after the writes are those of the running map.
pub write_balances-total :
    (tenant : Text) (running : Dict ℤ) (db : Db) {u : Unit {0}} {db' : Db}
    → AreKeyed db.accounts
    → IsMap running
    → write_balances tenant running db ≡ ok (u, db')
    → total db'.accounts ≡ view running db.accounts
unfolding write_balances
write_balances-total tenant [] db {u} {db'} k m h =
    let same : db'.accounts ≡ db.accounts = ap (λ (x : Db). x.accounts) (sym (returned h).1) in
    ap total same ∙ sym (view_nil db.accounts)
write_balances-total tenant ((id, balance) ∷ running) db {u} {db'} k m h =
    elim (Option-cases (find (is_owned_account tenant id) db.accounts)) [
      | inl gone ↦ absurd (cc (rw gone at h))
      | inr (row, found) ↦
          write_balances-total tenant running
            (record db {
              accounts = map_where (is_owned_account tenant id) (put balance) db.accounts;
            })
            (written-AreKeyed tenant id balance db.accounts k) m.1 (rw found at h)
          ∙ sym (view-written tenant id balance running db.accounts {row = row} k m.0 found)
    ]
