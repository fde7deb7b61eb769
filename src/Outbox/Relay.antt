-- ===== src/Outbox/Relay.antt =====
-- The relay, which publishes the rows that the producers committed
-- (src/core/outbox/outbox-relay.service.ts and the statements of src/core/outbox/outbox.sql.ts).
-- The queue is Redis: whether `addBulk` returned or threw is a parameter of a tick. Every statement
-- works on the rows of all operators.
pub mod Keys
pub mod Buckets
pub mod Rows
pub mod Life
pub mod Final
pub mod Order
pub mod Settles
use telegram_mini_app.Prelude.{
  ℕ, suc, ◌+◌, ◌-◌, Bool, true, false, not, ◌&&◌, List, [], ◌∷◌, ◌++◌, Option, none, some, map,
  map_where, keep, any, length, ltb, leb, ◌==◌, if◌then◌else◌,
}
use telegram_mini_app.Prelude.Text.{Text, text, text_eq, text_lt, nonempty}
use telegram_mini_app.Outbox.Table.{
  OutboxRow, OutboxStatus, pending, in_flight, sent, dead, has_status, row_id, max_publish_attempts,
  stale_lock_ms, publish_backoff_ms,
}

-- `FOR UPDATE SKIP LOCKED`: `locked` tells the rows that another transaction holds.
abbrev pub is_claimable : ℕ → (Text → Bool) → OutboxRow → Bool
is_claimable now locked row =
    has_status row.status pending && (leb row.available_at now && not (locked (row_id row)))

-- How many rows that pass the test come before an id.
abbrev pub count_before : (OutboxRow → Bool) → Text → List OutboxRow → ℕ
count_before p id [] = 0
count_before p id (row ∷ rows) =
    let rest = count_before p id rows in if p row && text_lt (row_id row) id then suc rest else rest

-- `ORDER BY id LIMIT limit`: a row is taken when fewer than `limit` rows come before it.
abbrev pub is_picked : ℕ → ℕ → (Text → Bool) → List OutboxRow → OutboxRow → Bool
is_picked now limit locked table row =
    is_claimable now locked row
    && ltb (count_before (is_claimable now locked) (row_id row) table) limit

abbrev pub claim_row : ℕ → Text → OutboxRow → OutboxRow
claim_row now worker row = record row {
  status = in_flight;
  attempts = suc row.attempts;
  locked_at = some now;
  locked_by = some worker;
}

abbrev pub has_id : List Text → OutboxRow → Bool
has_id ids row = any (text_eq (row_id row)) ids

-- `buildClaimQuery`: the table after the update, and the rows that it returns.
unfoldable pub claim :
    ℕ → ℕ → (Text → Bool) → Text → List OutboxRow → List OutboxRow × List OutboxRow
claim now limit locked worker table =
    let picked = keep (is_picked now limit locked table) table in
    (
      map_where (has_id (map row_id picked)) (claim_row now worker) table,
      map (claim_row now worker) picked,
    )

abbrev pub sent_row : ℕ → OutboxRow → OutboxRow
sent_row now row = record row {
  status = sent;
  sent_at = some now;
  locked_at = none;
  locked_by = none;
  last_error = none;
}

unfoldable pub mark_sent : ℕ → List Text → List OutboxRow → List OutboxRow
mark_sent now ids table = map_where (has_id ids) (sent_row now) table

abbrev pub dead_row : Text → OutboxRow → OutboxRow
dead_row error row = record row {
  status = dead;
  locked_at = none;
  locked_by = none;
  last_error = some error;
}

abbrev pub retry_row : ℕ → Text → ℕ → OutboxRow → OutboxRow
retry_row now error delay row = record row {
  status = pending;
  locked_at = none;
  locked_by = none;
  last_error = some error;
  available_at = now + delay;
}

-- The `Map` from an attempt count to the ids that have it, in the order of insertion.
abbrev pub add_to_bucket : ℕ → Text → List (ℕ × List Text) → List (ℕ × List Text)
add_to_bucket attempts id [] = (attempts, id ∷ []) ∷ []
add_to_bucket attempts id ((a, ids) ∷ buckets) =
    if a == attempts
    then (a, ids ++ (id ∷ [])) ∷ buckets
    else (a, ids) ∷ add_to_bucket attempts id buckets

abbrev pub bucket_rows : List OutboxRow → List (ℕ × List Text) → List (ℕ × List Text)
bucket_rows [] buckets = buckets
bucket_rows (row ∷ rows) buckets =
    bucket_rows rows (add_to_bucket row.attempts (row_id row) buckets)

-- One `updateMany` for each bucket, with a delay drawn for it.
abbrev pub retry_buckets :
    ℕ → Text → (ℕ → ℕ) → List (ℕ × List Text) → List OutboxRow → List OutboxRow
retry_buckets now error scaled [] table = table
retry_buckets now error scaled ((attempts, ids) ∷ buckets) table =
    retry_buckets now error scaled buckets
      (map_where (has_id ids) (retry_row now error (publish_backoff_ms attempts scaled)) table)

abbrev pub is_exhausted : OutboxRow → Bool
is_exhausted row = leb max_publish_attempts row.attempts

abbrev pub is_retryable : OutboxRow → Bool
is_retryable row = ltb row.attempts max_publish_attempts

abbrev pub bury : Text → List OutboxRow → List OutboxRow → List OutboxRow
bury error [] table = table
bury error (row ∷ rows) table = map_where (has_id (map row_id (row ∷ rows))) (dead_row error) table

-- The table, and how many rows are retried and how many are given up.
unfoldable pub mark_publish_failed :
    ℕ → (ℕ → ℕ) → List OutboxRow → Text → List OutboxRow → List OutboxRow × (ℕ × ℕ)
mark_publish_failed now scaled rows error table =
    let exhausted = keep is_exhausted rows in
    let retryable = keep is_retryable rows in
    (
      retry_buckets now error scaled (bucket_rows retryable []) (bury error exhausted table),
      (length retryable, length exhausted),
    )

pub record RelayTickResult : Type 0 where
  pub claimed : ℕ
  pub published : ℕ
  pub failed : ℕ
  pub dead : ℕ

abbrev pub idle_tick : RelayTickResult
idle_tick = record { claimed = 0; published = 0; failed = 0; dead = 0 }

-- What becomes of a claimed batch: the queue takes it, the queue throws, or the process dies (or the
-- update fails) before the rows are marked.
pub data Outcome : Type 0 where
  published lost : Outcome
  refused : Text → Outcome

-- What a run finds around it.
pub record Worker : Type 0 where
  pub now : ℕ
  pub limit : ℕ
  pub locked : Text → Bool
  pub worker_id : Text
  pub scaled : ℕ → ℕ

-- The rest of `runOnce`, on the rows that were claimed.
abbrev pub finish_run :
    Worker → Outcome → List OutboxRow → List OutboxRow → List OutboxRow × RelayTickResult
finish_run w published rows table = (
  mark_sent w.now (map row_id rows) table,
  record { claimed = length rows; published = length rows; failed = 0; dead = 0 },
)
finish_run w lost rows table = (table, idle_tick)
finish_run w (refused error) rows table =
    let marked = mark_publish_failed w.now w.scaled rows error table in
    (
      marked.0,
      record { claimed = length rows; published = 0; failed = marked.1.0; dead = marked.1.1 },
    )

-- What follows the claim; without rows there is nothing to publish.
abbrev pub resume :
    Worker → Outcome → List OutboxRow → List OutboxRow → List OutboxRow × RelayTickResult
resume w outcome [] table = (table, idle_tick)
resume w outcome (row ∷ rows) table = finish_run w outcome (row ∷ rows) table

unfoldable pub run_once : Worker → Outcome → List OutboxRow → List OutboxRow × RelayTickResult
run_once w outcome table =
    let claimed = claim w.now w.limit w.locked w.worker_id table in
    resume w outcome claimed.1 claimed.0

-- `tick`: a process that is no worker, or whose tick is still running, does nothing.
unfoldable pub tick :
    Bool → Bool → Worker → Outcome → List OutboxRow → List OutboxRow × RelayTickResult
tick is_worker ticking w outcome table =
    if is_worker && not ticking then run_once w outcome table else (table, idle_tick)

abbrev pub locked_before : ℕ → Option ℕ → Bool
locked_before t none = false
locked_before t (some at) = ltb at t

abbrev pub is_stale : ℕ → OutboxRow → Bool
is_stale stale_before row =
    has_status row.status in_flight && locked_before stale_before row.locked_at

abbrev pub reclaimed_error : Text
reclaimed_error = text "RECLAIMED_AFTER_STALE_LOCK"

abbrev pub reclaim_row : ℕ → OutboxRow → OutboxRow
reclaim_row now row = record row {
  status = if leb max_publish_attempts row.attempts then dead else pending;
  locked_at = none;
  locked_by = none;
  available_at = now;
  last_error = some reclaimed_error;
}

-- `reap`, whose clock is `now`.
unfoldable pub reap : ℕ → List OutboxRow → List OutboxRow
reap now table = map_where (is_stale (now - stale_lock_ms)) (reclaim_row now) table
