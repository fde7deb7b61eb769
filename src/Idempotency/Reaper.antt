-- ===== src/Idempotency/Reaper.antt =====
-- The deletion of expired idempotency records in bounded batches (`reap` and `buildReapQuery` of
-- src/core/idempotency/idempotency.service.ts, and its schedule in idempotency-reaper.service.ts).
use telegram_mini_app.Prelude.{
  ℕ, zero, suc, ◌+◌, Bool, not, ◌||◌, ◌&&◌, List, [], ◌∷◌, ltb, leb, if◌then◌else◌, any, keep,
  length, if-cases,
}
use telegram_mini_app.Prelude.Text.{Text, text_eq}
use telegram_mini_app.Idempotency.{IdempotencyRecord}
use telegram_mini_app.Idempotency.Fence.{Statements, idle, then_one, deleted}

abbrev reap_batch_size : ℕ
reap_batch_size = 500

abbrev reap_max_batches : ℕ
reap_max_batches = 20

-- `ORDER BY expires_at`.
abbrev by_expiry : IdempotencyRecord → List IdempotencyRecord → List IdempotencyRecord
by_expiry row [] = row ∷ []
by_expiry row (next ∷ rows) =
    let rest = by_expiry row rows in
    if leb row.expires_at next.expires_at then row ∷ (next ∷ rows) else next ∷ rest

abbrev order_by_expiry : List IdempotencyRecord → List IdempotencyRecord
order_by_expiry [] = []
order_by_expiry (row ∷ rows) = by_expiry row (order_by_expiry rows)

abbrev limit_to : ℕ → List IdempotencyRecord → List IdempotencyRecord
limit_to zero rows = []
limit_to (suc n) [] = []
limit_to (suc n) (row ∷ rows) = row ∷ limit_to n rows

-- The expired records that no other transaction has locked, those that expired first before the others.
abbrev doomed : ℕ → ℕ → (IdempotencyRecord → Bool) → List IdempotencyRecord → List IdempotencyRecord
doomed now limit locked table =
    limit_to limit
      (order_by_expiry (keep (λ row. ltb row.expires_at now && not (locked row)) table))

abbrev is_doomed : List IdempotencyRecord → IdempotencyRecord → Bool
is_doomed rows row = any (λ d. text_eq row.id d.id) rows

-- One statement: how many records it deletes, and the table without them.
unfoldable pub reap_query :
    ℕ → ℕ → (IdempotencyRecord → Bool) → List IdempotencyRecord → ℕ × List IdempotencyRecord
reap_query now limit locked table =
    let rows = doomed now limit locked table in
    (length (keep (is_doomed rows) table), keep (λ row. not (is_doomed rows row)) table)

-- The batches that are left; one that is not full is the last. `locked` has the locks that each batch
-- meets, by how many are left after it. An error of the database ends the batches and is only logged;
-- those that committed stay, and it is not modelled.
unfoldable pub reap_batches :
    ℕ → (ℕ → IdempotencyRecord → Bool) → ℕ → ℕ → List IdempotencyRecord → ℕ × List IdempotencyRecord
reap_batches now locked zero total table = (total, table)
reap_batches now locked (suc left) total table =
    let (gone, rest) = reap_query now reap_batch_size (locked left) table in
    let next = reap_batches now locked left (total + gone) in
    if ltb gone reap_batch_size then (total + gone, rest) else next rest

unfoldable pub reap_expired :
    ℕ → (ℕ → IdempotencyRecord → Bool) → List IdempotencyRecord → ℕ × List IdempotencyRecord
reap_expired now locked table = reap_batches now locked reap_max_batches 0 table

-- A tick runs on a worker, and not while an earlier one is still at it.
unfoldable pub tick_reaper :
    Bool
    → Bool
    → ℕ
    → (ℕ → IdempotencyRecord → Bool)
    → List IdempotencyRecord
    → ℕ × List IdempotencyRecord
tick_reaper is_worker reaping now locked table =
    if not is_worker || reaping then (0, table) else reap_expired now locked table

after_one :
    (id : Text) (now limit : ℕ) (locked : IdempotencyRecord → Bool)
    {before table : List IdempotencyRecord}
    → Statements id before table
    → Statements id before (reap_query now limit locked table).1
unfolding reap_query
after_one id now limit locked ss = then_one ss (deleted _)

batches-Statements :
    (id : Text) (now : ℕ) (locked : ℕ → IdempotencyRecord → Bool) (left total : ℕ)
    {before : List IdempotencyRecord} (table : List IdempotencyRecord)
    → Statements id before table
    → Statements id before (reap_batches now locked left total table).1
unfolding reap_batches
batches-Statements id now locked zero total table ss = ss
batches-Statements id now locked (suc left) total {before} table ss =
    let one = reap_query now reap_batch_size (locked left) table in
    let rest = after_one id now reap_batch_size (locked left) ss in
    if-cases (λ (r : ℕ × List IdempotencyRecord). Statements id before r.1)
      (ltb one.0 reap_batch_size) (λ e. rest)
      (λ e. batches-Statements id now locked left (total + one.0) one.1 rest)

-- A tick of the reaper, with any locks, is a sequence of statements that the fence withstands.
pub tick_reaper-Statements :
    (id : Text) (is_worker reaping : Bool) (now : ℕ) (locked : ℕ → IdempotencyRecord → Bool)
    (table : List IdempotencyRecord)
    → Statements id table (tick_reaper is_worker reaping now locked table).1
unfolding tick_reaper reap_expired
tick_reaper-Statements id is_worker reaping now locked table =
    if-cases (λ (r : ℕ × List IdempotencyRecord). Statements id table r.1)
      (not is_worker || reaping) (λ e. idle)
      (λ e. batches-Statements id now locked reap_max_batches 0 table idle)
