-- ===== src/Outbox/Relay/Final.antt =====
-- A row that was sent or given up, over whole ticks, enqueues and reaps (src/core/outbox/outbox-relay.service.ts).
use telegram_mini_app.Prelude.{
  ◌-◌, Bool, true, false, not, ◌&&◌, ◌||◌, List, [], ◌∷◌, Option, some, map_where, any, find,
  find-holds, ◌≡◌, refl, sym, ap, ◌∙◌, arith, if-cases, Bool-cases, inl, inr,
}
use telegram_mini_app.Prelude.Text.{Text, text_eq, text_eq_iff}
use telegram_mini_app.Db.Rows.{OutboxMessage}
use telegram_mini_app.Outbox.Table.{
  OutboxRow, sent, dead, has_status, new_row, row_id, same_id, stale_lock_ms,
}
use telegram_mini_app.Outbox.Relay.{
  RelayTickResult, is_picked, claim_row, tick, is_stale, reclaim_row, reap,
}
use telegram_mini_app.Outbox.Relay.Rows.{after_claim, run_once-rows}
use telegram_mini_app.Outbox.Relay.Life.{IsLive, Step, enqueued, ticked, reaped, after_claim_id}

abbrev pub is_settled : OutboxRow → Bool
is_settled row = has_status row.status sent || has_status row.status dead

abbrev pub named : Text → OutboxRow → Bool
named id row = text_eq (row_id row) id

same : (x row : OutboxRow) → ◌≡◌ {A = Option OutboxRow} (some x) (some row) → x ≡ row
same x row e = cc

find-map_where :
    (q p : OutboxRow → Bool) (f : OutboxRow → OutboxRow)
    → ((x : OutboxRow) → q (f x) ≡ q x)
    → (table : List OutboxRow) {row : OutboxRow} → find q table ≡ some row
    → p row ≡ false
    → find q (map_where p f table) ≡ some row
find-map_where q p f k [] h e = absurd (cc)
find-map_where q p f k (x ∷ xs) {row} h e = elim (Bool-cases (q x)) [
  | inl t ↦ ground (arith, t, k x, same x row (ground (arith, t)))
  | inr t ↦ ground (arith, t, k x, find-map_where q p f k xs {row = row} (ground (arith, t)) e)
]

any-find :
    (q r : OutboxRow → Bool) (table : List OutboxRow) {row : OutboxRow}
    → find q table ≡ some row
    → r row ≡ true
    → any r table ≡ true
any-find q r [] h e = absurd (cc)
any-find q r (x ∷ xs) {row} h e = elim (Bool-cases (q x)) [
  | inl t ↦ ground (arith, e, same x row (ground (arith, t)))
  | inr t ↦ ground (arith, any-find q r xs {row = row} (ground (arith, t)) e)
]

new-apart :
    (m : OutboxMessage) (id : Text) (table : List OutboxRow) {row : OutboxRow}
    → any (same_id (new_row m)) table ≡ false
    → find (named id) table ≡ some row
    → named id (new_row m) ≡ false
new-apart m id table {row} e f = elim (Bool-cases (named id (new_row m))) [
  | inl t ↦
      let there = (text_eq_iff (row_id row) id).0 (find-holds (named id) table f) in
      let here = (text_eq_iff m.id id).0 t in
      absurd (
        cc (
          e,
          any-find (named id) (same_id (new_row m)) table {row = row} f
              ((text_eq_iff m.id (row_id row)).1 (here ∙ sym there)),
        ))
  | inr t ↦ t
]

-- Once a row of a sound table is sent or given up, no step changes it, a tick of the relay being one step
-- here: a worker whose late update of a failed publish names the row by its id alone is not covered.
pub Step-settled :
    {table next : List OutboxRow} (id : Text) {row : OutboxRow}
    → IsLive table
    → Step table next
    → find (named id) table ≡ some row
    → is_settled row ≡ true
    → find (named id) next ≡ some row
unfolding tick reap
Step-settled {table} id {row} h (enqueued m e) f s = rw (new-apart m id table {row = row} e f) f
Step-settled {table} id {row} h (ticked is_worker ticking w outcome) f s =
    if-cases (λ (r : List OutboxRow × RelayTickResult). find (named id) r.0 ≡ some row)
      (is_worker && not ticking)
      (λ e. rw (run_once-rows w outcome table h.0) (
        find-map_where (named id) (is_picked w.now w.limit w.locked table)
          (λ row. after_claim w outcome (claim_row w.now w.worker_id row))
          (λ x. ap (λ t. text_eq t id) (after_claim_id w outcome x)) table f (ground arith)))
      (λ e. f)
Step-settled {table} id {row} h (reaped now) f s =
    find-map_where (named id) (is_stale (now - stale_lock_ms)) (reclaim_row now) (λ x. refl) table f
      (ground arith)
