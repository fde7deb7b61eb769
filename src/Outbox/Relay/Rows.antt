-- ===== src/Outbox/Relay/Rows.antt =====
-- What one run of the relay does to each row (src/core/outbox/outbox-relay.service.ts, `runOnce`).
use telegram_mini_app.Prelude.{
  suc, Bool, true, ◌&&◌, List, [], ◌∷◌, map, map_where, map_where-none, keep, All, if◌then◌else◌,
  ◌≡◌, refl, sym, ap, ◌∙◌, arith, if-cases, subst,
}
use telegram_mini_app.Prelude.Text.{Text, text_eq}
use telegram_mini_app.Outbox.Table.{OutboxRow, row_id, same_id, IsKeyed}
use telegram_mini_app.Outbox.Relay.{
  Worker, Outcome, published, lost, refused, has_id, is_picked, claim_row, sent_row, dead_row,
  is_exhausted, is_retryable, bury, claim, mark_sent, mark_publish_failed, finish_run, run_once,
  resume,
}
use telegram_mini_app.Outbox.Relay.Keys.{
  IsKeyed-IsSole, has_id-keep, All-imply, All-both, All-keep, map_where-cong,
}
use telegram_mini_app.Outbox.Relay.Buckets.{retried, retry_buckets-retried}

-- What becomes of a row that a run has claimed.
abbrev pub after_claim : Worker → Outcome → OutboxRow → OutboxRow
after_claim w published row = sent_row w.now row
after_claim w lost row = row
after_claim w (refused error) row =
    if is_exhausted row then dead_row error row else retried w.now error w.scaled row

module _ {A : Type 0} where
  keep-map-keep :
      (p : A → Bool) (f : A → A) (q : A → Bool) (xs : List A)
      → keep q (map f (keep p xs)) ≡ map f (keep (λ x. p x && q (f x)) xs)
  keep-map-keep p f q [] = refl
  keep-map-keep p f q (x ∷ xs) = ground (arith, keep-map-keep p f q xs)

  All-kept : (p : A → Bool) (xs : List A) → All (λ x. p x ≡ true) (keep p xs)
  All-kept p [] = tt
  All-kept p (x ∷ xs) =
      if-cases (All (λ y. p y ≡ true)) (p x) (λ e. (e, All-kept p xs)) (λ e. All-kept p xs)

module _ (w : Worker) (outcome : Outcome) (table : List OutboxRow) (keyed : IsKeyed table) where
  abbrev picked : OutboxRow → Bool
  picked = is_picked w.now w.limit w.locked table

  abbrev c : OutboxRow → OutboxRow
  c = claim_row w.now w.worker_id

  abbrev ids : (OutboxRow → Bool) → List Text
  ids q = map row_id (keep q table)

  -- The ids that the claim returned are those of the rows that it picked.
  claimed_ids : (rows : List OutboxRow) → map row_id (map c rows) ≡ map row_id rows
  claimed_ids [] = refl
  claimed_ids (row ∷ rows) = ap (λ l. row_id row ∷ l) (claimed_ids rows)

  claimed_table : map_where (has_id (ids picked)) c table ≡ map_where picked c table
  claimed_table =
      map_where-cong (has_id (ids picked)) picked c table (has_id-keep picked table keyed)

  bury-map_where :
      (error : Text) (rows t : List OutboxRow)
      → bury error rows t ≡ map_where (has_id (map row_id rows)) (dead_row error) t
  bury-map_where error [] t = sym (none t)
    where
      none : (t : List OutboxRow) → map_where (has_id []) (dead_row error) t ≡ t
      none [] = refl
      none (row ∷ t) = ap (λ l. row ∷ l) (none t)
  bury-map_where error (row ∷ rows) t = refl

  sent_rows :
      (s : List OutboxRow)
      → All (λ row. has_id (ids picked) row ≡ picked row) s
      → map_where (has_id (ids picked)) (sent_row w.now) (map_where picked c s)
        ≡ map_where picked (λ row. after_claim w published (c row)) s
  sent_rows [] h = refl
  sent_rows (row ∷ s) h = ground (arith, h.0, sent_rows s h.1)

  abbrev given_up : OutboxRow → Bool
  given_up row = picked row && is_exhausted (c row)

  abbrev retries : OutboxRow → Bool
  retries row = picked row && is_retryable (c row)

  failed_rows :
      (error : Text) (s : List OutboxRow)
      → All (λ row. has_id (ids given_up) row ≡ given_up row) s
      → All (λ row. has_id (ids retries) row ≡ retries row) s
      → map_where
          (has_id (ids retries))
          (retried w.now error w.scaled)
          (map_where (has_id (ids given_up)) (dead_row error) (map_where picked c s))
        ≡ map_where picked (λ row. after_claim w (refused error) (c row)) s
  failed_rows error [] h k = refl
  failed_rows error (row ∷ s) h k = ground (arith, h.0, k.0, failed_rows error s h.1 k.1)

  abbrev AgreesOn : OutboxRow → List OutboxRow → Type 0
  AgreesOn row = All (λ y. (same_id row y ≡ true → row ≡ y) × (retries y ≡ true))

  retried_same : All (λ row. AgreesOn row (keep retries table)) table
  retried_same =
      All-imply
        (λ row sole.
          All-both (λ y e f. (e, f)) (keep retries table)
            (All-keep (λ y. same_id row y ≡ true → row ≡ y) retries table sole)
            (All-kept retries table))
        table (IsKeyed-IsSole table keyed)

  -- A row after the claim and after the exhausted rows of the batch were given up.
  abbrev updated : Text → OutboxRow → OutboxRow
  updated error row =
      let claimed = if picked row then c row else row in
      if has_id (ids given_up) claimed then dead_row error claimed else claimed

  updated_id : (error : Text) (row : OutboxRow) → row_id (updated error row) ≡ row_id row
  updated_id error row = ground arith

  updated_attempts :
      (error : Text) (row : OutboxRow)
      → picked row ≡ true
      → (updated error row).attempts ≡ suc row.attempts
  updated_attempts error row h = ground arith

  same_attempts_of :
      (error : Text) (row : OutboxRow) (ys : List OutboxRow)
      → AgreesOn row ys
      → All
          (λ x. same_id (updated error row) x ≡ true → x.attempts ≡ (updated error row).attempts)
          (map c ys)
  same_attempts_of error row [] h = tt
  same_attempts_of error row (y ∷ ys) h = (
    λ e. attempts (h.0.0 (subst (λ id. text_eq id (row_id y) ≡ true) (updated_id error row) e)),
    same_attempts_of error row ys h.1,
  )
    where
      attempts : row ≡ y → suc y.attempts ≡ (updated error row).attempts
      attempts e = rw (e) (sym (updated_attempts error y (ground (arith, h.0.1))))

  -- A claimed row still has the attempt count with which it was claimed.
  same_attempts :
      (error : Text) (s : List OutboxRow)
      → All (λ row. AgreesOn row (keep retries table)) s
      → All
          (λ row.
            All
              (λ x. same_id row x ≡ true → x.attempts ≡ row.attempts)
              (map c (keep retries table)))
          (map_where (has_id (ids given_up)) (dead_row error) (map_where picked c s))
  same_attempts error [] h = tt
  same_attempts error (row ∷ s) h =
      (same_attempts_of error row (keep retries table) h.0, same_attempts error s h.1)

  failed_table :
      (error : Text)
      → (mark_publish_failed w.now w.scaled
          (map c (keep picked table))
          error
          (map_where (has_id (ids picked)) c table)).0
        ≡ map_where picked (λ row. after_claim w (refused error) (c row)) table
  unfolding mark_publish_failed
  failed_table error =
      rw
        (
          claimed_table,
          keep-map-keep picked c is_exhausted table,
          keep-map-keep picked c is_retryable table,
          bury-map_where error (map c (keep given_up table)) (map_where picked c table),
          claimed_ids (keep given_up table),
        )
        (retry_buckets-retried w.now error w.scaled (map c (keep retries table))
            (map_where (has_id (ids given_up)) (dead_row error) (map_where picked c table))
            (same_attempts error table retried_same)
          ∙ rw (claimed_ids (keep retries table)) (
              failed_rows error table (has_id-keep given_up table keyed)
                (has_id-keep retries table keyed)))

  finish_run-rows :
      (o : Outcome)
      → (finish_run w o (map c (keep picked table)) (map_where (has_id (ids picked)) c table)).0
        ≡ map_where picked (λ row. after_claim w o (c row)) table
  unfolding mark_sent
  finish_run-rows published =
      rw (mark_sent, claimed_table, claimed_ids (keep picked table))
        (sent_rows table (has_id-keep picked table keyed))
  finish_run-rows lost = claimed_table
  finish_run-rows (refused error) = failed_table error

  resume-rows :
      (rows : List OutboxRow)
      → keep picked table ≡ rows
      → (resume w outcome (map c rows) (map_where (has_id (ids picked)) c table)).0
        ≡ map_where picked (λ row. after_claim w outcome (c row)) table
  resume-rows [] e =
      claimed_table
      ∙ map_where-none picked c table e
      ∙ sym (map_where-none picked (λ row. after_claim w outcome (c row)) table e)
  resume-rows (row ∷ rows) e =
      subst
        (λ l.
          (finish_run w outcome (map c l) (map_where (has_id (ids picked)) c table)).0
          ≡ map_where picked (λ row. after_claim w outcome (c row)) table)
        e (finish_run-rows outcome)

-- A run changes the rows that it picks and no other: each is claimed, and then sent, given up,
-- delayed by the backoff of its own attempt count, or left in flight, as the outcome has it.
pub run_once-rows :
    (w : Worker) (outcome : Outcome) (table : List OutboxRow)
    → IsKeyed table
    → (run_once w outcome table).0
      ≡ map_where
          (is_picked w.now w.limit w.locked table)
          (λ row. after_claim w outcome (claim_row w.now w.worker_id row))
          table
unfolding run_once claim
run_once-rows w outcome table keyed =
    resume-rows w outcome table keyed (keep (is_picked w.now w.limit w.locked table) table) refl
