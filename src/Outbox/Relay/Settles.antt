-- ===== src/Outbox/Relay/Settles.antt =====
-- Every row is sent or given up (src/core/outbox/outbox-relay.service.ts): while the relay and the
-- reaper keep running, a bounded number of rounds settles the table, whatever the queue does.
use telegram_mini_app.Prelude.{
  ℕ, suc, ◌+◌, ◌-◌, ◌*◌, ◌≤◌, ◌<◌, Bool, true, false, ◌||◌, List, [], ◌∷◌, map_where,
  map_where-none, keep, any, All, length, leb, ◌≡◌, refl, ◌∙◌, arith, subst, Bool-cases, inl, inr,
  ◌⊎◌,
}
use telegram_mini_app.Outbox.Table.{
  OutboxRow, OutboxStatus, pending, in_flight, sent, failed, dead, has_status, max_publish_attempts,
  stale_lock_ms,
}
use telegram_mini_app.Outbox.Relay.{
  Worker, Outcome, published, lost, refused, is_claimable, is_picked, claim_row, run_once, is_stale,
  reclaim_row, reap,
}
use telegram_mini_app.Outbox.Relay.Keys.{All-imply, any-none}
use telegram_mini_app.Outbox.Relay.Rows.{after_claim, run_once-rows}
use telegram_mini_app.Outbox.Relay.Life.{
  IsLive, IsSound, SoundIn, status-pending, status-in_flight, pending_sound, in_flight_sound,
  run_once-IsLive, reap-IsLive, picked-pending,
}
use telegram_mini_app.Outbox.Relay.Final.{is_settled}
use telegram_mini_app.Outbox.Relay.Order.{claimable-picked}

-- How many more steps a row can take.
abbrev weight_in : ℕ → OutboxStatus → ℕ
weight_in attempts pending = 2 * (max_publish_attempts - attempts)
weight_in attempts in_flight = suc (2 * (max_publish_attempts - attempts))
weight_in attempts sent = 0
weight_in attempts failed = 0
weight_in attempts dead = 0

abbrev weight : OutboxRow → ℕ
weight row = weight_in row.attempts row.status

abbrev total : List OutboxRow → ℕ
total [] = 0
total (row ∷ table) = weight row + total table

-- A round: a run of the relay, and later one of the reaper.
abbrev pub round : Worker → Outcome → ℕ → List OutboxRow → List OutboxRow
round w outcome later table = reap later (run_once w outcome table).0

-- Every row that waits can be claimed: its backoff has passed and no one holds it.
abbrev pub IsDue : Worker → List OutboxRow → Type 0
IsDue w = All (λ row. has_status row.status pending ≡ true → is_claimable w.now w.locked row ≡ true)

-- Every row that is in flight was claimed long enough ago for the reaper.
abbrev pub IsAbandoned : ℕ → List OutboxRow → Type 0
IsAbandoned later =
    All
      (λ row. has_status row.status in_flight ≡ true → is_stale (later - stale_lock_ms) row ≡ true)

-- `n` rounds, each late enough for the backoffs and the locks of the table that it finds.
pub data Rounds : List OutboxRow → ℕ → List OutboxRow → Type 0 where
  done : {table : List OutboxRow} → Rounds table 0 table
  next :
      {table last : List OutboxRow} {n : ℕ} (w : Worker) (outcome : Outcome) (later : ℕ)
      → 1 ≤ w.limit
      → IsDue w table
      → IsAbandoned later (run_once w outcome table).0
      → Rounds (round w outcome later table) n last
      → Rounds table (suc n) last

module _ (p : OutboxRow → Bool) (f : OutboxRow → OutboxRow) where
  WeighsLess : OutboxRow → Type 0
  WeighsLess row = p row ≡ true → weight (f row) < weight row

  total_le :
      (table : List OutboxRow) → All WeighsLess table → total (map_where p f table) ≤ total table
  unfolding WeighsLess
  total_le [] h = omega arith
  total_le (row ∷ table) h = ground (arith, h.0, total_le table h.1)

  total_lt :
      (table : List OutboxRow)
      → All WeighsLess table
      → any p table ≡ true
      → total (map_where p f table) < total table
  unfolding WeighsLess
  total_lt [] h e = absurd (cc)
  total_lt (row ∷ table) h e = ground (arith, h.0, total_le table h.1, total_lt table h.1)

claimed-lighter :
    (w : Worker) (outcome : Outcome) (row : OutboxRow)
    → row.status ≡ pending
    → SoundIn row pending
    → weight (after_claim w outcome (claim_row w.now w.worker_id row)) < weight row
claimed-lighter w published row e s = ground (arith, e, s.0)
claimed-lighter w lost row e s = ground (arith, e, s.0)
claimed-lighter w (refused error) row e s = ground (arith, e, s.0)

reclaimed-lighter :
    (now : ℕ) (row : OutboxRow)
    → row.status ≡ in_flight
    → SoundIn row in_flight
    → weight (reclaim_row now row) < weight row
reclaimed-lighter now row e s = ground (arith, e, s.1)

run_lighter :
    (w : Worker) (outcome : Outcome) (table : List OutboxRow)
    → All IsSound table
    → All
        (WeighsLess
          (is_picked w.now w.limit w.locked table)
          (λ row. after_claim w outcome (claim_row w.now w.worker_id row)))
        table
unfolding WeighsLess
run_lighter w outcome table h =
    All-imply
      (λ row s e.
        let waits = picked-pending w table row e in
        claimed-lighter w outcome row (status-pending row.status waits) (pending_sound row waits s))
      table h

reap_lighter :
    (now : ℕ) (table : List OutboxRow)
    → All IsSound table
    → All (WeighsLess (is_stale (now - stale_lock_ms)) (reclaim_row now)) table
unfolding WeighsLess
reap_lighter now table h =
    All-imply
      (λ row s e.
        reclaimed-lighter now row (status-in_flight row.status (ground arith))
          (in_flight_sound row (ground arith) s))
      table h

module _ (w : Worker) (outcome : Outcome) (table : List OutboxRow) (live : IsLive table) where
  after_run : List OutboxRow
  after_run = (run_once w outcome table).0

  run_le : total (run_once w outcome table).0 ≤ total table
  run_le =
      rw (run_once-rows w outcome table live.0)
        (total_le _ _ table (run_lighter w outcome table live.1))

  run_lt :
      1 ≤ w.limit
      → any (is_claimable w.now w.locked) table ≡ true
      → total (run_once w outcome table).0 < total table
  run_lt l h = rw (run_once-rows w outcome table live.0) (
      total_lt _ _ table (run_lighter w outcome table live.1)
        (claimable-picked w.now w.limit w.locked table l h))

reap_le : (now : ℕ) (table : List OutboxRow) → IsLive table → total (reap now table) ≤ total table
unfolding reap
reap_le now table live = total_le _ _ table (reap_lighter now table live.1)

reap_lt :
    (now : ℕ) (table : List OutboxRow)
    → IsLive table
    → any (is_stale (now - stale_lock_ms)) table ≡ true
    → total (reap now table) < total table
unfolding reap
reap_lt now table live h = total_lt _ _ table (reap_lighter now table live.1) h

unsettled :
    (attempts : ℕ) (s : OutboxStatus)
    → 1 ≤ weight_in attempts s
    → (has_status s pending ≡ true) ⊎ (has_status s in_flight ≡ true)
unsettled a pending h = inl refl
unsettled a in_flight h = inr refl
unsettled a sent h = absurd (omega arith)
unsettled a failed h = absurd (omega arith)
unsettled a dead h = absurd (omega arith)

-- A table of some weight has a row that is due, or one that is abandoned.
heavy :
    (w : Worker) (later : ℕ) (table : List OutboxRow)
    → 1 ≤ total table
    → IsDue w table
    → IsAbandoned later table
    → any (is_claimable w.now w.locked) table || any (is_stale (later - stale_lock_ms)) table ≡ true
heavy w later [] h d a = absurd (omega arith)
heavy w later (row ∷ table) h d a = elim (Bool-cases (leb 1 (weight row))) [
  | inl e ↦ elim (unsettled row.attempts row.status (ground (arith, e))) [
    | inl f ↦ ground (arith, d.0 f)
    | inr f ↦ ground (arith, a.0 f)
  ]
  | inr e ↦ ground (arith, heavy w later table (ground (arith, e)) d.1 a.1)
]

-- Without a row that is due, a run changes nothing.
idle :
    (w : Worker) (outcome : Outcome) (table : List OutboxRow)
    → IsLive table
    → any (is_claimable w.now w.locked) table ≡ false
    → (run_once w outcome table).0 ≡ table
idle w outcome table live h =
    run_once-rows w outcome table live.0
    ∙ map_where-none _ _ table (
        none-kept (is_picked w.now w.limit w.locked table) table (
          All-imply (λ row e. ground (arith, e)) table
            (any-none (is_claimable w.now w.locked) table h)))
  where
    none-kept :
        (p : OutboxRow → Bool) (t : List OutboxRow) → All (λ row. p row ≡ false) t → keep p t ≡ []
    none-kept p [] h = refl
    none-kept p (row ∷ t) h = ground (arith, h.0, none-kept p t h.1)

-- A round takes at least one step, unless there is none left to take.
round-total :
    (w : Worker) (outcome : Outcome) (later : ℕ) (table : List OutboxRow)
    → IsLive table
    → 1 ≤ w.limit
    → IsDue w table
    → IsAbandoned later (run_once w outcome table).0
    → total (round w outcome later table) ≤ total table - 1
round-total w outcome later table live l d a =
    let run-live = run_once-IsLive w outcome table live in
    let fewer = reap_le later (run_once w outcome table).0 run-live in
    elim (Bool-cases (any (is_claimable w.now w.locked) table)) [
      | inl e ↦ omega (arith, fewer, run_lt w outcome table live l e)
      | inr e ↦
          rw (idle w outcome table live e)
            (last-step (subst (IsAbandoned later) (idle w outcome table live e) a) e)
    ]
  where
    last-step :
        IsAbandoned later table
        → any (is_claimable w.now w.locked) table ≡ false
        → total (reap later table) ≤ total table - 1
    last-step a e = elim (Bool-cases (leb 1 (total table))) [
      | inl f ↦ omega (
        arith,
        reap_lt later table live (ground (arith, e, heavy w later table (ground (arith, f)) d a)),
      )
      | inr f ↦ ground (arith, f, reap_le later table live)
    ]

round-IsLive :
    (w : Worker) (outcome : Outcome) (later : ℕ) (table : List OutboxRow)
    → IsLive table
    → IsLive (round w outcome later table)
round-IsLive w outcome later table live =
    reap-IsLive later (run_once w outcome table).0 (run_once-IsLive w outcome table live)

Rounds-total :
    {table last : List OutboxRow} {n : ℕ}
    → IsLive table
    → Rounds table n last
    → IsLive last × (total last ≤ total table - n)
Rounds-total live done = (live, omega arith)
Rounds-total {table} live (next w outcome later l d a rest) =
    let tail = Rounds-total (round-IsLive w outcome later table live) rest in
    (tail.0, omega (arith, tail.1, round-total w outcome later table live l d a))

weight_bound : (row : OutboxRow) (s : OutboxStatus) → SoundIn row s → weight_in row.attempts s ≤ 16
weight_bound row pending h = omega arith
weight_bound row in_flight h = omega (arith, h.0)
weight_bound row sent h = omega arith
weight_bound row failed h = absurd h
weight_bound row dead h = omega arith

light_status :
    (row : OutboxRow) (s : OutboxStatus)
    → SoundIn row s
    → weight_in row.attempts s ≡ 0
    → has_status s sent || has_status s dead ≡ true
light_status row pending h e = absurd (omega (arith, h.0))
light_status row in_flight h e = absurd (omega arith)
light_status row sent h e = refl
light_status row failed h e = absurd h
light_status row dead h e = refl

total_bound : (table : List OutboxRow) → All IsSound table → total table ≤ 16 * length table
total_bound [] h = omega arith
total_bound (row ∷ table) h = omega (arith, weight_bound row row.status h.0, total_bound table h.1)

light-settled :
    (table : List OutboxRow)
    → All IsSound table
    → total table ≡ 0
    → All (λ row. is_settled row ≡ true) table
light-settled [] h e = tt
light-settled (row ∷ table) h e =
    (light_status row row.status h.0 (omega arith), light-settled table h.1 (omega arith))

-- From a table of sound rows, sixteen rounds for each row are enough for every row to be sent or given
-- up, whatever the queue answers and however often a worker dies between its claim and its mark. A
-- round is a run that may claim a row at least, once the backoffs have passed, and a run of the reaper
-- once the locks are stale.
pub Rounds-settled :
    {table last : List OutboxRow} {n : ℕ}
    → IsLive table
    → 16 * length table ≤ n
    → Rounds table n last
    → All (λ row. is_settled row ≡ true) last
Rounds-settled {table} {last} live enough rounds =
    let (kept, light) = Rounds-total live rounds in
    light-settled last kept.1 (omega (arith, light, total_bound table live.1))
