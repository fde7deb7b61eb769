-- ===== src/Outbox.antt =====
-- Side effects that are recorded with the business write that causes them:
-- src/core/outbox/outbox.service.ts. The aggregate's type is a constant of each caller and left out.
pub mod Table
pub mod Relay
pub mod Backoff
pub mod Dispatch
pub mod Frame
pub mod Holds
use telegram_mini_app.Prelude.{
  ℕ, suc, Bool, true, false, ◌&&◌, List, [], ◌∷◌, none, some, any, find, map, length, or_else, ◌==◌,
  if◌then◌else◌,
}
use telegram_mini_app.Prelude.Text.{Text, text_eq, is_text}
use telegram_mini_app.Db.{Env, Tx, pure, ◌>>=◌, ◌>>◌, generate_id, require_effective_tenant_id}
use telegram_mini_app.Db.Rows.{OutboxInput, OutboxMessage}
use telegram_mini_app.Types.{ok}

pub record OutboxEnqueueResult : Type 0 where
  pub id : Text
  pub deduplicated : Bool

-- `UNIQUE (tenant_id, dedupe_key)`, in which NULL equals nothing.
abbrev pub same_key : Text → Text → OutboxMessage → Bool
same_key tenant key m = is_text m.input.dedupe_key key && text_eq m.tenant_id tenant

abbrev pub is_taken : OutboxMessage → List OutboxMessage → Bool
is_taken m stored = elim m.input.dedupe_key [
  | none ↦ false
  | some key ↦ any (same_key m.tenant_id key) stored
]

-- INSERT … ON CONFLICT DO NOTHING of one row.
abbrev pub insert_row : OutboxMessage → List OutboxMessage → List OutboxMessage
insert_row m stored = if is_taken m stored then stored else m ∷ stored

-- `createMany({ skipDuplicates: true })`: the stored rows, and how many were inserted.
abbrev pub insert_rows : List OutboxMessage → List OutboxMessage → List OutboxMessage × ℕ
insert_rows [] stored = (stored, 0)
insert_rows (m ∷ ms) stored =
    let rest = insert_rows ms (insert_row m stored) in
    (rest.0, if is_taken m stored then rest.1 else suc rest.1)

-- The rows of a batch, each with an id of its own.
unfoldable pub outbox_rows : Env → Text → List OutboxInput → Tx (List OutboxMessage)
outbox_rows env tenant [] = pure []
outbox_rows env tenant (input ∷ inputs) = do
  id ← generate_id
  rows ← outbox_rows env tenant inputs
  pure (
      record {
        id = id;
        tenant_id = tenant;
        input = input;
        available_at = or_else input.available_at env.now;
      }
      ∷ rows)

-- The id that the database holds for a key, if a row of that key was there before.
enqueue_result : List OutboxMessage → OutboxMessage → OutboxEnqueueResult
enqueue_result stored m = elim m.input.dedupe_key [
  | none ↦ record { id = m.id; deduplicated = false }
  | some key ↦ elim (find (same_key m.tenant_id key) stored) [
    | none ↦ record { id = m.id; deduplicated = false }
    | some there ↦
        if text_eq there.id m.id
        then record { id = m.id; deduplicated = false }
        else record { id = there.id; deduplicated = true }
  ]
]

fresh_result : OutboxMessage → OutboxEnqueueResult
fresh_result m = record { id = m.id; deduplicated = false }

-- The insert, and the answer per row: a shortcut where nothing was skipped.
unfoldable pub store_rows : List OutboxMessage → Tx (List OutboxEnqueueResult)
unfolding enqueue_result fresh_result
store_rows rows db =
    let inserted = insert_rows rows db.outbox in
    ok (
      if inserted.1 == length rows
          then map fresh_result rows
          else map (enqueue_result inserted.0) rows,
      record db { outbox = inserted.0 },
    )

unfoldable pub enqueue_many : Env → List OutboxInput → Tx (List OutboxEnqueueResult)
unfolding outbox_rows store_rows
enqueue_many env [] = pure []
enqueue_many env (input ∷ inputs) = do
  tenant ← require_effective_tenant_id env
  rows ← outbox_rows env tenant (input ∷ inputs)
  store_rows rows

-- `enqueue`, whose callers ignore the answer.
unfoldable pub enqueue : Env → OutboxInput → Tx (Unit {0})
unfolding enqueue_many
enqueue env input = do enqueue_many env (input ∷ []); pure tt
