-- ===== src/Outbox/Relay/Life.antt =====
-- The life of a row (src/core/outbox/outbox-relay.service.ts): what its columns say in each status, and
-- that the producer, the relay and the reaper keep it so.
use telegram_mini_app.Prelude.{
  ℕ, suc, ◌-◌, ◌≤◌, ◌<◌, Bool, true, false, not, ◌&&◌, List, [], ◌∷◌, none, is_some, map_where, any,
  All, if◌then◌else◌, ◌≡◌, refl, sym, ◌∙◌, arith, if-cases, subst, leb,
}
use telegram_mini_app.Prelude.Text.{text_eq}
use telegram_mini_app.Db.Rows.{OutboxMessage}
use telegram_mini_app.Outbox.Table.{
  OutboxRow, OutboxStatus, pending, in_flight, sent, failed, dead, has_status, new_row, row_id,
  same_id, IsKeyed, max_publish_attempts, stale_lock_ms,
}
use telegram_mini_app.Outbox.Relay.{
  RelayTickResult, Worker, Outcome, published, lost, refused, is_picked, claim_row, run_once, tick,
  is_stale, reclaim_row, reap,
}
use telegram_mini_app.Outbox.Relay.Rows.{after_claim, run_once-rows}

-- What the columns of a row say in each status. No code writes `FAILED`.
abbrev pub SoundIn : OutboxRow → OutboxStatus → Type 0
SoundIn row pending = (row.attempts < max_publish_attempts) × (row.locked_at ≡ none)
SoundIn row in_flight =
    (1 ≤ row.attempts) × (row.attempts ≤ max_publish_attempts) × (is_some row.locked_at ≡ true)
SoundIn row sent =
    (1 ≤ row.attempts) × (row.attempts ≤ max_publish_attempts) × (is_some row.sent_at ≡ true)
SoundIn row failed = ⊥
SoundIn row dead = (row.attempts ≡ max_publish_attempts) × (is_some row.last_error ≡ true)

abbrev pub IsSound : OutboxRow → Type 0
IsSound row = SoundIn row row.status

abbrev pub IsLive : List OutboxRow → Type 0
IsLive table = IsKeyed table × All IsSound table

-- A step of the system: a producer's row is committed, a worker ticks, or the reaper runs.
pub data Step (table : List OutboxRow) : List OutboxRow → Type 0 where
  enqueued :
      (m : OutboxMessage) → any (same_id (new_row m)) table ≡ false → Step table (new_row m ∷ table)
  ticked :
      (is_worker ticking : Bool) (w : Worker) (outcome : Outcome)
      → Step table (tick is_worker ticking w outcome table).0
  reaped : (now : ℕ) → Step table (reap now table)

module _ (p : OutboxRow → Bool) (f : OutboxRow → OutboxRow)
    (ids : (row : OutboxRow) → row_id (f row) ≡ row_id row) where
  kept_id : (row : OutboxRow) → row_id (if p row then f row else row) ≡ row_id row
  kept_id row = if-cases (λ r. row_id r ≡ row_id row) (p row) (λ e. ids row) (λ e. refl)

  any_same :
      (x : OutboxRow) (table : List OutboxRow)
      → any (same_id x) (map_where p f table) ≡ any (same_id x) table
  any_same x [] = refl
  any_same x (row ∷ table) = cc (kept_id row, any_same x table)

  -- An update that keeps the ids keeps the key.
  map_where-IsKeyed : (table : List OutboxRow) → IsKeyed table → IsKeyed (map_where p f table)
  map_where-IsKeyed [] h = tt
  map_where-IsKeyed (row ∷ table) h = (
    subst (λ id. any (λ y. text_eq id (row_id y)) (map_where p f table) ≡ false) (sym (kept_id row))
        (any_same row table ∙ h.0),
    map_where-IsKeyed table h.1,
  )

All-map_where :
    (P : OutboxRow → Type 0) (p : OutboxRow → Bool) (f : OutboxRow → OutboxRow)
    → ((row : OutboxRow) → p row ≡ true → P row → P (f row))
    → (table : List OutboxRow) → All P table
    → All P (map_where p f table)
All-map_where P p f k [] h = tt
All-map_where P p f k (row ∷ table) h =
    (if-cases P (p row) (λ e. k row e h.0) (λ e. h.0), All-map_where P p f k table h.1)

pub status-pending : (s : OutboxStatus) → has_status s pending ≡ true → s ≡ pending
status-pending pending h = refl
status-pending in_flight h = absurd (cc)
status-pending sent h = absurd (cc)
status-pending failed h = absurd (cc)
status-pending dead h = absurd (cc)

pub status-in_flight : (s : OutboxStatus) → has_status s in_flight ≡ true → s ≡ in_flight
status-in_flight pending h = absurd (cc)
status-in_flight in_flight h = refl
status-in_flight sent h = absurd (cc)
status-in_flight failed h = absurd (cc)
status-in_flight dead h = absurd (cc)

-- What is known of a sound row whose status is known.
pub pending_sound :
    (row : OutboxRow) → has_status row.status pending ≡ true → IsSound row → SoundIn row pending
pending_sound row h s = subst (SoundIn row) (status-pending row.status h) s

pub in_flight_sound :
    (row : OutboxRow) → has_status row.status in_flight ≡ true → IsSound row → SoundIn row in_flight
in_flight_sound row h s = subst (SoundIn row) (status-in_flight row.status h) s

after_claim-IsSound :
    (w : Worker) (outcome : Outcome) (row : OutboxRow)
    → SoundIn row pending
    → IsSound (after_claim w outcome (claim_row w.now w.worker_id row))
after_claim-IsSound w published row s = (omega arith, omega (arith, s.0), refl)
after_claim-IsSound w lost row s = (omega arith, omega (arith, s.0), refl)
after_claim-IsSound w (refused error) row s =
    if-cases IsSound (leb max_publish_attempts (suc row.attempts))
      (λ e. (ground (arith, s.0), refl)) (λ e. (ground arith, refl))

reclaim_row-IsSound :
    (now : ℕ) (row : OutboxRow) → SoundIn row in_flight → IsSound (reclaim_row now row)
reclaim_row-IsSound now row s =
    if-cases (λ status. SoundIn (record (reclaim_row now row) { status = status }) status)
      (leb max_publish_attempts row.attempts) (λ e. (ground (arith, s.1), refl))
      (λ e. (ground arith, refl))

pub picked-pending :
    (w : Worker) (table : List OutboxRow) (row : OutboxRow)
    → is_picked w.now w.limit w.locked table row ≡ true
    → has_status row.status pending ≡ true
picked-pending w table row h = ground arith

pub after_claim_id :
    (w : Worker) (outcome : Outcome) (row : OutboxRow)
    → row_id (after_claim w outcome (claim_row w.now w.worker_id row)) ≡ row_id row
after_claim_id w published row = refl
after_claim_id w lost row = refl
after_claim_id w (refused error) row =
    if-cases (λ r. row_id r ≡ row_id row) (leb max_publish_attempts (suc row.attempts)) (λ e. refl)
      (λ e. refl)

pub run_once-IsLive :
    (w : Worker) (outcome : Outcome) (table : List OutboxRow)
    → IsLive table
    → IsLive (run_once w outcome table).0
run_once-IsLive w outcome table h =
    let p = is_picked w.now w.limit w.locked table in
    let f : OutboxRow → OutboxRow =
      λ row. after_claim w outcome (claim_row w.now w.worker_id row) in
    rw (run_once-rows w outcome table h.0) (
      map_where-IsKeyed p f (after_claim_id w outcome) table h.0,
      All-map_where IsSound p f
          (λ row e s.
            after_claim-IsSound w outcome row (pending_sound row (picked-pending w table row e) s))
          table h.1,
    )

pub reap-IsLive : (now : ℕ) (table : List OutboxRow) → IsLive table → IsLive (reap now table)
unfolding reap
reap-IsLive now table h =
    let p = is_stale (now - stale_lock_ms) in
    (
      map_where-IsKeyed p (reclaim_row now) (λ row. refl) table h.0,
      All-map_where IsSound p (reclaim_row now)
          (λ row e s. reclaim_row-IsSound now row (in_flight_sound row (ground arith) s)) table h.1,
    )

Step-IsLive : {table next : List OutboxRow} → IsLive table → Step table next → IsLive next
unfolding tick
Step-IsLive h (enqueued m e) = ((e, h.0), ((omega arith, refl), h.1))
Step-IsLive {table} h (ticked is_worker ticking w outcome) =
    if-cases (λ (r : List OutboxRow × RelayTickResult). IsLive r.0) (is_worker && not ticking)
      (λ e. run_once-IsLive w outcome table h) (λ e. h)
Step-IsLive {table} h (reaped now) = reap-IsLive now table h

-- The tables that the system can reach from the empty one.
pub data Reachable : List OutboxRow → Type 0 where
  empty : Reachable []
  after : {table next : List OutboxRow} → Reachable table → Step table next → Reachable next

-- Whatever producers, workers and the reaper do, in any order, no two rows share an id and every row's
-- columns stay as its status has them: a row that waits has an attempt left and no lock, a row is in
-- flight or sent after one to eight attempts, and a row is given up after exactly eight, with an error
-- to read.
pub Reachable-IsLive : {table : List OutboxRow} → Reachable table → IsLive table
Reachable-IsLive empty = (tt, tt)
Reachable-IsLive (after r s) = Step-IsLive (Reachable-IsLive r) s
