-- ===== src/Ledger/Repository/Replay.antt =====
-- A posting is written once for its key.
use telegram_mini_app.Prelude.{
  ℕ, ltb, not, ◌&&◌, keep, Bool, true, false, List, ◌∷◌, Option, none, some, ◌≡◌, ◌≢◌, sym, ap, ◌∙◌,
  ◌⊎◌, inl, inr, arith,
}
use telegram_mini_app.Prelude.Text.{Text, text_eq_iff, text_eq_refl}
use telegram_mini_app.Types.{ledger_error, idempotency_key_reused, Result, ok, err}
use telegram_mini_app.Db.{
  Db, Env, ◌>>=◌, bind_ok, returned, require_effective_tenant_id, generate_id,
}
use telegram_mini_app.Db.Rows.{PostingBody, IdempotencyKey, LedgerTransaction, LedgerEntry}
use telegram_mini_app.Ledger.Posting.{Posting, posting_body}
use telegram_mini_app.Ledger.Validation.{assert_valid_posting}
use telegram_mini_app.Ledger.Repository.{
  record_posting, post_new, write_posting, write_balances, entry_rows, resolve_accounts,
  lock_accounts, locked_ids, transaction_row, assert_first, key_row, post_unless, post,
}
use telegram_mini_app.Ledger.Repository.Compute.{Balances, compute_balances}
use telegram_mini_app.Ledger.Repository.Lookup.{PostedTransaction, find_replay, replayed}
use telegram_mini_app.Ledger.Repository.Accounts.{lift}

lift_ok :
    {A : Type 0} (r : Result A) (db : Db) {a : A} {db' : Db}
    → lift r db ≡ ok (a, db')
    → (r ≡ ok a) × (db' ≡ db)
lift_ok (ok a) db h = ground arith
lift_ok (err e) db h = absurd (cc)

-- The parts of a posting that went through.
pub record Posted (env : Env) (p : Posting) (r : PostedTransaction) (db db' : Db) : Type 0 where
  pub valid : assert_valid_posting p ≡ ok tt
  pub tenant : Text
  pub in_context : env.tenant ≡ some tenant
  pub way :
      ((find_replay env tenant p db ≡ ok (some r, db)) × (db' ≡ db))
      ⊎ ((find_replay env tenant p db ≡ ok (none, db)) × (post_new env tenant p db ≡ ok (r, db')))

tenant_ok :
    (env : Env) (db : Db) {tenant : Text} {mid : Db}
    → require_effective_tenant_id env db ≡ ok (tenant, mid)
    → (env.tenant ≡ some tenant) × (mid ≡ db)
unfolding require_effective_tenant_id
tenant_ok env db h = ground arith

find_replay-same :
    (env : Env) (tenant : Text) (p : Posting) (db : Db) {o : Option PostedTransaction} {mid : Db}
    → find_replay env tenant p db ≡ ok (o, mid)
    → mid ≡ db
unfolding find_replay
find_replay-same env tenant p db h = ground arith

pub post-Posted :
    (env : Env) (p : Posting) (db : Db) {r : PostedTransaction} {db' : Db}
    → post env p db ≡ ok (r, db')
    → Posted env p r db db'
unfolding post
post-Posted env p db {r} {db'} h =
    let (done, db₁, lifted, h₁) = bind_ok (lift (assert_valid_posting p)) _ db h in
    let (valid, same₁) = lift_ok (assert_valid_posting p) db lifted in
    let (tenant, db₂, required, h₂) = bind_ok (require_effective_tenant_id env) _ db₁ h₁ in
    let (in_context, same₂) = tenant_ok env db₁ required in
    let (replay, db₃, found, h₃) = bind_ok (find_replay env tenant p) _ db₂ h₂ in
    let same₃ = find_replay-same env tenant p db₂ found in
    record {
      valid = valid;
      tenant = tenant;
      in_context = in_context;
      way = way tenant replay db₃ (same₃ ∙ same₂ ∙ same₁) (rw (same₂ ∙ same₁) at found) h₃;
    }
  where
    way :
        (tenant : Text) (replay : Option PostedTransaction) (db₃ : Db)
        → db₃ ≡ db
        → find_replay env tenant p db ≡ ok (replay, db₃)
        → post_unless env tenant p replay db₃ ≡ ok (r, db')
        → ((find_replay env tenant p db ≡ ok (some r, db)) × (db' ≡ db))
          ⊎ ((find_replay env tenant p db ≡ ok (none, db))
              × (post_new env tenant p db ≡ ok (r, db')))
    way tenant none db₃ e found k = inr (rw e at found, rw e at k)
    way tenant (some o) db₃ e found k = inl (ground arith, ground arith)

-- What a posting that is new leaves behind: its transaction and its key, both naming the operator.
pub record Written (env : Env) (tenant : Text) (p : Posting) (r : PostedTransaction) (db' : Db)
    : Type 0 where
  pub id : Text
  pub named : r.transaction_id ≡ id
  pub balances : Balances
  pub transactions : List LedgerTransaction
  pub keys : List IdempotencyKey
  pub has_transaction : db'.transactions ≡ transaction_row env tenant id p balances ∷ transactions
  pub has_key : db'.keys ≡ key_row env tenant id p ∷ keys
  pub fresh : r.deduplicated ≡ false

record_posting-Written :
    (env : Env) (tenant : Text) (p : Posting) (b : Balances) (id : Text) (rows : List LedgerEntry)
    (db : Db) {r : PostedTransaction} {db' : Db}
    → record_posting env tenant p b id rows db ≡ ok (r, db')
    → Written env tenant p r db'
unfolding record_posting
record_posting-Written env tenant p b id rows db {r} {db'} h =
    let (same_r, same_db) = returned h in
    record {
      id = id;
      named = sym (ap (λ (x : PostedTransaction). x.transaction_id) same_r);
      balances = b;
      transactions = db.transactions;
      keys = db.keys;
      has_transaction = ap (λ (x : Db). x.transactions) (sym same_db);
      has_key = ap (λ (x : Db). x.keys) (sym same_db);
      fresh = ap (λ (x : PostedTransaction). x.deduplicated) (sym same_r);
    }

write_posting-Written :
    (env : Env) (tenant : Text) (p : Posting) (b : Balances) (db : Db) {r : PostedTransaction}
    {db' : Db}
    → write_posting env tenant p b db ≡ ok (r, db')
    → Written env tenant p r db'
unfolding write_posting
write_posting-Written env tenant p b db h =
    let (id, db₁, made, h₁) = bind_ok generate_id _ db h in
    let (_, db₄, first, h₄) = bind_ok (assert_first (transaction_row env tenant id p b)) _ db₁ h₁ in
    let (rows, db₂, listed, h₂) =
      bind_ok (lift (entry_rows tenant id p.currency 0 p.entries b.snapshots)) _ db₄ h₄ in
    let (done, db₃, cached, h₃) = bind_ok (write_balances tenant b.running) _ db₂ h₂ in
    record_posting-Written env tenant p b id rows db₃ h₃

post_new-Written :
    (env : Env) (tenant : Text) (p : Posting) (db : Db) {r : PostedTransaction} {db' : Db}
    → post_new env tenant p db ≡ ok (r, db')
    → Written env tenant p r db'
unfolding post_new
post_new-Written env tenant p db h =
    let (refs, db₁, resolved, h₁) = bind_ok (resolve_accounts env p) _ db h in
    let (locked, db₂, rows, h₂) = bind_ok (lock_accounts (locked_ids refs)) _ db₁ h₁ in
    let (b, db₃, computed, h₃) = bind_ok (lift (compute_balances p refs locked)) _ db₂ h₂ in
    write_posting-Written env tenant p b db₃ h₃

-- The answer depends on the digest only.
find_replay-hash :
    (env later : Env) (tenant : Text) (p : Posting) (db : Db) {o : PostedTransaction}
    → later.request_hash ≡ env.request_hash
    → find_replay env tenant p db ≡ ok (some o, db)
    → find_replay later tenant p db ≡ ok (some o, db)
unfolding find_replay
find_replay-hash env later tenant p db same found =
    ground (arith, ap (λ (hash : PostingBody → Text). hash (posting_body p)) same)

-- What the reaper of the idempotency records, which does not look at the scope, deletes among the keys of
-- the ledger at some instant: expired ones, as many as its batches and the locks of others let it.
abbrev pub reap_keys : ℕ → (IdempotencyKey → Bool) → Db → Db
reap_keys now taken db = record db {
  keys = keep (λ (k : IdempotencyKey). not (ltb k.expires_at now && taken k)) db.keys;
}

find_replay-deduplicated :
    (env : Env) (tenant : Text) (p : Posting) (db : Db) {o : PostedTransaction}
    → find_replay env tenant p db ≡ ok (some o, db)
    → o.deduplicated ≡ true
unfolding find_replay replayed
find_replay-deduplicated env tenant p db h = ground arith

refused :
    (env later : Env) (tenant : Text) (p q : Posting) {r : PostedTransaction} (db' : Db)
    → Written env tenant p r db'
    → q.idempotency_key ≡ p.idempotency_key
    → env.request_hash (posting_body p) ≢ later.request_hash (posting_body q)
    → find_replay later tenant q db' ≡ err (ledger_error idempotency_key_reused)
unfolding find_replay key_row
refused env later tenant p q db' w same_key differ = ground (
  arith,
  w.has_key,
  text_eq_refl tenant,
  text_eq_iff p.idempotency_key q.idempotency_key,
  text_eq_iff (env.request_hash (posting_body p)) (later.request_hash (posting_body q)),
)

-- After a posting that was written, and not answered from an earlier one, a valid posting of the same
-- key in the same operator is refused, and nothing is written, if the digests of the bodies differ.
pub post_refuses_reuse :
    (env later : Env) (p q : Posting) (db : Db) {r : PostedTransaction} {db' : Db}
    → post env p db ≡ ok (r, db')
    → r.deduplicated ≡ false
    → later.tenant ≡ env.tenant
    → assert_valid_posting q ≡ ok tt
    → q.idempotency_key ≡ p.idempotency_key
    → env.request_hash (posting_body p) ≢ later.request_hash (posting_body q)
    → post later q db' ≡ err (ledger_error idempotency_key_reused)
unfolding post require_effective_tenant_id
post_refuses_reuse env later p q db {r} {db'} h new same_tenant valid same_key differ =
    let was = post-Posted env p db h in
    elim was.way [
      | inl (found, same) ↦ absurd (cc (find_replay-deduplicated env was.tenant p db found))
      | inr (unknown, posted) ↦
          let w = post_new-Written env was.tenant p db posted in
          rw (valid, ◌>>=◌)
            (rw (same_tenant ∙ was.in_context, ◌>>=◌)
              (rw (refused env later was.tenant p q db' w same_key differ, ◌>>=◌)))
    ]
