-- ===== src/Ledger/Repository/Conservation.antt =====
-- A posting moves money between the accounts and neither makes nor loses any.
use telegram_mini_app.Prelude.{
  List, [], ◌∷◌, some, any, find, ◌≡◌, sym, ap, ◌∙◌, inl, inr, Bool-cases, Option-cases, find-holds,
}
use telegram_mini_app.Prelude.Integers.{int_laws}
use telegram_mini_app.Prelude.Text.{Text, text_eq, text_eq_iff}
use telegram_mini_app.Types.{Result, ok, err, chain_ok}
use telegram_mini_app.Db.{Db, Env, generate_id, bind_ok, returned}
use telegram_mini_app.Db.Rows.{LedgerAccount, LedgerEntry, LedgerTransaction}
use telegram_mini_app.Ledger.Posting.{Posting}
use telegram_mini_app.Ledger.Validation.{IsPosting}
use telegram_mini_app.Ledger.Repository.{
  lock_accounts, write_balances, entry_rows, record_posting, write_posting, transaction_row,
  assert_first, is_second,
}
use telegram_mini_app.Ledger.Repository.Accounts.{lift, Dict, is_account_id}
use telegram_mini_app.Ledger.Repository.Lookup.{PostedTransaction}
use telegram_mini_app.Ledger.Repository.Compute.{
  Balances, check_signs, allows_negative, walk_entries, compute_balances,
}
use telegram_mini_app.Ledger.Repository.Totals.{total, view, AreKeyed, IsMap, view_nil}
use telegram_mini_app.Ledger.Repository.Running.{AreRowsOf, walk_entries-view, write_balances-total}

AreRowsOf-same :
    (accounts : List LedgerAccount) {these those : List LedgerAccount}
    → these ≡ those
    → AreRowsOf accounts these
    → AreRowsOf accounts those
AreRowsOf-same accounts e f = rw e at f

lock_accounts-AreRowsOf :
    (ids : List Text) (db : Db) {locked : List LedgerAccount} {db' : Db}
    → lock_accounts ids db ≡ ok (locked, db')
    → (db' ≡ db) × AreRowsOf db.accounts locked
unfolding lock_accounts
lock_accounts-AreRowsOf [] db {locked} h =
    let none_locked : [] ≡ locked = (returned h).0 in (sym (returned h).1, λ x r e. absurd (cc))
lock_accounts-AreRowsOf (id ∷ ids) db {locked} {db'} h =
    elim (Option-cases (find (is_account_id id) db.accounts)) [
      | inl gone ↦ absurd (cc (rw (gone, lock_accounts) at h))
      | inr (row, found) ↦
          let (rest, mid, h1, h2) =
            bind_ok (lock_accounts ids) _ db (rw (found, lock_accounts) at h) in
          let (same, rows) = lock_accounts-AreRowsOf ids db h1 in
          let named = (text_eq_iff row.id id).0 (find-holds (is_account_id id) db.accounts found) in
          (
            sym (returned h2).1 ∙ same,
            AreRowsOf-same db.accounts (returned h2).0 (with_row row rest named found rows),
          )
    ]
  where
    with_row :
        (row : LedgerAccount) (rest : List LedgerAccount)
        → row.id ≡ id
        → find (is_account_id id) db.accounts ≡ some row
        → AreRowsOf db.accounts rest
        → AreRowsOf db.accounts (row ∷ rest)
    with_row row rest named found rows x r e = elim (Bool-cases (text_eq row.id x)) [
      | inl here ↦
          let this : row ≡ r = cc (rw here at e) in
          let ids : id ≡ x = sym named ∙ (text_eq_iff row.id x).0 here in
          rw this at (rw ids at found)
      | inr elsewhere ↦ rows x r (rw elsewhere at e)
    ]

compute_balances-walk :
    (p : Posting) (refs : Dict Text) (locked : List LedgerAccount) {b : Balances}
    → compute_balances p refs locked ≡ ok b
    → walk_entries p refs locked 0 p.entries (record { snapshots = []; running = [] }) ≡ ok b
unfolding compute_balances
compute_balances-walk p refs locked {b} h =
    let (walked, h1, h2) =
      chain_ok (walk_entries p refs locked 0 p.entries (record { snapshots = []; running = [] })) _
        h in
    elim (Bool-cases (allows_negative p)) [
      | inl free ↦ let this : walked ≡ b = cc (rw free at h2) in rw this at h1
      | inr guarded ↦
          let (_, _, h3) = chain_ok (check_signs locked walked.running) _ (rw guarded at h2) in
          let this : walked ≡ b = cc in rw this at h1
    ]

generate_id-accounts :
    (db : Db) {id : Text} {db' : Db} → generate_id db ≡ ok (id, db') → db'.accounts ≡ db.accounts
unfolding generate_id
generate_id-accounts db h = ap (λ (x : Db). x.accounts) (sym (returned h).1)

lift-accounts :
    {A : Type 0} (x : Result A) (db : Db) {a : A} {db' : Db}
    → lift x db ≡ ok (a, db')
    → db'.accounts ≡ db.accounts
lift-accounts (ok a) db h = ap (λ (x : Db). x.accounts) (sym (returned h).1)
lift-accounts (err e) db h = absurd (cc)

record_posting-accounts :
    (env : Env) (tenant : Text) (p : Posting) (b : Balances) (id : Text) (rows : List LedgerEntry)
    (db : Db) {r : PostedTransaction} {db' : Db}
    → record_posting env tenant p b id rows db ≡ ok (r, db')
    → db'.accounts ≡ db.accounts
unfolding record_posting
record_posting-accounts env tenant p b id rows db h =
    ap (λ (x : Db). x.accounts) (sym (returned h).1)

assert_first-accounts :
    (row : LedgerTransaction) (db : Db) {u : Unit {0}} {db' : Db}
    → assert_first row db ≡ ok (u, db')
    → db'.accounts ≡ db.accounts
unfolding assert_first
assert_first-accounts row db h = elim (Bool-cases (any (is_second row) db.transactions)) [
  | inl e ↦ absurd (cc (rw e at h))
  | inr e ↦ ap (λ (x : Db). x.accounts) (sym (returned (rw e at h)).1)
]

write_posting-total :
    (env : Env) (tenant : Text) (p : Posting) (b : Balances) (db : Db) {r : PostedTransaction}
    {db' : Db}
    → AreKeyed db.accounts
    → IsMap b.running
    → write_posting env tenant p b db ≡ ok (r, db')
    → total db'.accounts ≡ view b.running db.accounts
unfolding write_posting
write_posting-total env tenant p b db k m h =
    let (id, d1, h1, k1) = bind_ok generate_id _ db h in
    let (_, d4, h4, k4) = bind_ok (assert_first (transaction_row env tenant id p b)) _ d1 k1 in
    let (rows, d2, h2, k2) =
      bind_ok (lift (entry_rows tenant id p.currency 0 p.entries b.snapshots)) _ d4 k4 in
    let (done, d3, h3, k3) = bind_ok (write_balances tenant b.running) _ d2 k2 in
    let same : d2.accounts ≡ db.accounts =
      lift-accounts (entry_rows tenant id p.currency 0 p.entries b.snapshots) d4 h2
      ∙ assert_first-accounts (transaction_row env tenant id p b) d1 h4
      ∙ generate_id-accounts db h1 in
    let written : total d3.accounts ≡ view b.running d2.accounts =
      write_balances-total tenant b.running d2 (rw same k) m h3 in
    ap total (record_posting-accounts env tenant p b id rows d3 k3)
    ∙ written
    ∙ ap (view b.running) same

-- The books are conserved: once the accounts of a posting are locked, the balances computed and all
-- written, the cached balances of all accounts add up to what they were, if the posting's amounts add
-- up to zero, as the validator demands. Ids are unique in the table of accounts.
pub write_posting_conserves :
    (env : Env) (tenant : Text) (p : Posting) (refs : Dict Text) (ids : List Text) (db : Db)
    {locked : List LedgerAccount} {mid : Db} {b : Balances} {r : PostedTransaction} {db' : Db}
    → AreKeyed db.accounts
    → IsPosting p
    → lock_accounts ids db ≡ ok (locked, mid)
    → compute_balances p refs locked ≡ ok b
    → write_posting env tenant p b mid ≡ ok (r, db')
    → total db'.accounts ≡ total db.accounts
write_posting_conserves env tenant p refs ids db {locked} {mid} {b} k valid h1 h2 h3 =
    let (same, rows) = lock_accounts-AreRowsOf ids db h1 in
    let (walked, m) =
      walk_entries-view p refs locked db.accounts k rows 0 p.entries
        (record { snapshots = []; running = [] }) (compute_balances-walk p refs locked h2) tt in
    let accounts : mid.accounts ≡ db.accounts = ap (λ (x : Db). x.accounts) same in
    write_posting-total env tenant p b mid (rw accounts k) m h3
    ∙ ap (view b.running) accounts
    ∙ walked
    ∙ rw (valid.balanced) (rw (view_nil db.accounts) (omega int_laws))
