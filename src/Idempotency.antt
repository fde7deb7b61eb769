-- ===== src/Idempotency.antt =====
-- Idempotency records: a request inserts its record before it does anything, and a record is owned by
-- whoever holds its current lock (src/core/idempotency/idempotency.service.ts, with its types and
-- constants; the table is `idempotency_keys` of prisma/schema.prisma). Every statement is atomic, and
-- other requests may commit between two of them. Instants are milliseconds.
pub mod Fence
pub mod Replay
pub mod Reaper
pub mod Interceptor
use telegram_mini_app.Prelude.{
  ℕ, zero, suc, ◌+◌, ◌*◌, Bool, true, false, not, ◌&&◌, List, [], ◌∷◌, Option, none, some, ltb,
  ◌==◌, if◌then◌else◌, any, find, keep, map_where, length, or_else,
}
use telegram_mini_app.Prelude.Text.{Text, text_eq}

pub data IdempotencyState : Type 0 where
  in_flight completed : IdempotencyState

pub record IdempotencyRecord : Type 0 where
  pub id : Text
  pub tenant_id : Text
  pub scope : Text
  pub key : Text
  pub request_hash : Text
  pub state : IdempotencyState
  pub response_body : Option Text
  pub result_ref : Option Text
  pub locked_at : ℕ
  pub completed_at : Option ℕ
  pub expires_at : ℕ

pub record BeginInput : Type 0 where
  pub scope : Text
  pub key : Text
  pub request_hash : Text
  pub ttl_seconds : Option ℕ

pub record Lease : Type 0 where
  pub record_id : Text
  pub scope : Text
  pub key : Text
  pub fenced_at : ℕ

pub data BeginResult : Type 0 where
  proceed : Lease → Option ℕ → BeginResult
  replay : Option Text → Option Text → Option ℕ → BeginResult
  busy : ℕ → BeginResult
  mismatch : BeginResult

-- The response is its encoding as JSON, or none where there is nothing to store.
pub record CompleteInput : Type 0 where
  pub response : Option Text
  pub result_ref : Option Text

abbrev pub default_ttl_seconds : ℕ
default_ttl_seconds = 24 * 60 * 60

abbrev pub ttl_of : BeginInput → ℕ
ttl_of input = or_else input.ttl_seconds default_ttl_seconds

abbrev pub idempotency_stale_lock_ms : ℕ
idempotency_stale_lock_ms = 60000

abbrev pub begin_max_rounds : ℕ
begin_max_rounds = 3

-- What a call meets: the clock and the id that the database draws in each round, the clock after the
-- last one, and what other requests commit before each of its statements, three to a round.
pub record World : Type 0 where
  pub clock : ℕ → ℕ
  pub new_id : ℕ → Text
  pub others : ℕ → List IdempotencyRecord → List IdempotencyRecord

abbrev pub is_in_flight : IdempotencyRecord → Bool
is_in_flight row = elim row.state [ in_flight ↦ true | completed ↦ false ]

-- The columns of UNIQUE(tenant_id, scope, key).
abbrev pub has_key : Text → Text → Text → IdempotencyRecord → Bool
has_key tenant scope key row =
    text_eq row.tenant_id tenant && (text_eq row.scope scope && text_eq row.key key)

abbrev pub new_key : World → BeginInput → Text → ℕ → IdempotencyRecord
new_key w input tenant round = record {
  id = w.new_id round;
  tenant_id = tenant;
  scope = input.scope;
  key = input.key;
  request_hash = input.request_hash;
  state = in_flight;
  response_body = none;
  result_ref = none;
  locked_at = w.clock round;
  completed_at = none;
  expires_at = w.clock round + ttl_of input * 1000;
}

-- The insert, or none where the unique index refuses it. Any other error of the database is thrown on,
-- and nothing is written.
abbrev pub create : IdempotencyRecord → List IdempotencyRecord → Option (List IdempotencyRecord)
create row table =
    if any (has_key row.tenant_id row.scope row.key) table then none else some (row ∷ table)

-- The condition of every later write: the record, in flight, under the lock that the caller saw.
abbrev pub is_held : Text → ℕ → IdempotencyRecord → Bool
is_held id lock row = text_eq row.id id && (is_in_flight row && (row.locked_at == lock))

abbrev pub locked_until : ℕ → ℕ → IdempotencyRecord → IdempotencyRecord
locked_until lock expires row = record row { locked_at = lock; expires_at = expires }

abbrev pub max_ℕ : ℕ → ℕ → ℕ
max_ℕ a b = if ltb a b then b else a

-- `lockedAt > now - 60 s`, without going below zero.
abbrev pub is_fresh : ℕ → IdempotencyRecord → Bool
is_fresh now row = ltb now (row.locked_at + idempotency_stale_lock_ms)

-- The compare-and-swap on the lock that was seen; the new lock is strictly later.
abbrev pub take_over :
    World
    → BeginInput
    → ℕ
    → (List IdempotencyRecord → BeginResult × List IdempotencyRecord)
    → IdempotencyRecord
    → List IdempotencyRecord
    → BeginResult × List IdempotencyRecord
take_over w input round again existing table =
    let next = max_ℕ (w.clock round) (existing.locked_at + 1) in
    let held = is_held existing.id existing.locked_at in
    let expires = w.clock round + ttl_of input * 1000 in
    let swapped = map_where held (locked_until next expires) table in
    if length (keep held table) == 1
    then (
      proceed
          (record {
            record_id = existing.id;
            scope = input.scope;
            key = input.key;
            fenced_at = next;
          })
          (some existing.locked_at),
      swapped,
    )
    else again swapped

-- What a record that is already there says to the request.
abbrev pub answer :
    World
    → BeginInput
    → ℕ
    → (List IdempotencyRecord → BeginResult × List IdempotencyRecord)
    → IdempotencyRecord
    → List IdempotencyRecord
    → BeginResult × List IdempotencyRecord
answer w input round again existing table =
    if not (text_eq existing.request_hash input.request_hash)
    then (mismatch, table)
    else if not (is_in_flight existing)
    then (replay existing.response_body existing.result_ref existing.completed_at, table)
    else if is_fresh (w.clock round) existing
    then (busy existing.locked_at, table)
    else take_over w input round again existing (w.others (3 * round + 2) table)

-- The read after a refused insert; a record that was reaped in between costs a round.
abbrev pub read_existing :
    World
    → BeginInput
    → ℕ
    → (List IdempotencyRecord → BeginResult × List IdempotencyRecord)
    → Option IdempotencyRecord
    → List IdempotencyRecord
    → BeginResult × List IdempotencyRecord
read_existing w input round again none table = again table
read_existing w input round again (some existing) table = answer w input round again existing table

abbrev pub after_create :
    World
    → BeginInput
    → Text
    → ℕ
    → (List IdempotencyRecord → BeginResult × List IdempotencyRecord)
    → List IdempotencyRecord
    → Option (List IdempotencyRecord)
    → BeginResult × List IdempotencyRecord
after_create w input tenant round again table (some created) = (
  proceed
      (record {
        record_id = w.new_id round;
        scope = input.scope;
        key = input.key;
        fenced_at = w.clock round;
      })
      none,
  created,
)
after_create w input tenant round again table none =
    let seen = w.others (3 * round + 1) table in
    read_existing w input round again (find (has_key tenant input.scope input.key) seen) seen

abbrev pub begin_round :
    World
    → BeginInput
    → Text
    → ℕ
    → (List IdempotencyRecord → BeginResult × List IdempotencyRecord)
    → List IdempotencyRecord
    → BeginResult × List IdempotencyRecord
begin_round w input tenant round again table =
    let before = w.others (3 * round) table in
    after_create w input tenant round again before (create (new_key w input tenant round) before)

-- The rounds that are left, from a given one on.
unfoldable pub begin_rounds :
    World
    → BeginInput
    → Text
    → ℕ
    → ℕ
    → List IdempotencyRecord
    → BeginResult × List IdempotencyRecord
begin_rounds w input tenant zero round table = (busy (w.clock round), table)
begin_rounds w input tenant (suc left) round table =
    begin_round w input tenant round (begin_rounds w input tenant left (suc round)) table

unfoldable pub begin :
    World → BeginInput → Text → List IdempotencyRecord → BeginResult × List IdempotencyRecord
begin w input tenant table = begin_rounds w input tenant begin_max_rounds 0 table

abbrev pub completed_row : ℕ → CompleteInput → IdempotencyRecord → IdempotencyRecord
completed_row now input row = record row {
  state = completed;
  completed_at = some now;
  response_body = input.response;
  result_ref = input.result_ref;
}

-- `completeOn`: also the body of `complete` and of `completeWithin`, which differ in the transaction.
unfoldable pub complete :
    ℕ → Lease → CompleteInput → List IdempotencyRecord → Bool × List IdempotencyRecord
complete now lease input table =
    let held = is_held lease.record_id lease.fenced_at in
    (length (keep held table) == 1, map_where held (completed_row now input) table)

unfoldable pub release : Lease → List IdempotencyRecord → Bool × List IdempotencyRecord
release lease table =
    let held = is_held lease.record_id lease.fenced_at in
    (length (keep held table) == 1, keep (λ row. not (held row)) table)
