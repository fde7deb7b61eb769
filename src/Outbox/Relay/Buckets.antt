-- ===== src/Outbox/Relay/Buckets.antt =====
-- The update that retries a batch, one statement per attempt count, gives each row the delay of its
-- own attempt count (src/core/outbox/outbox-relay.service.ts, `markPublishFailed`).
use telegram_mini_app.Prelude.{
  ℕ, Bool, true, false, ◌||◌, List, [], ◌∷◌, ◌++◌, map, map_where, All, if◌then◌else◌, ◌≡◌, refl,
  sym, ap, ◌∙◌, arith, Bool-cases, inl, inr, if-cases, ◌==◌, ==_iff,
}
use telegram_mini_app.Prelude.Text.{Text, text_eq}
use telegram_mini_app.Outbox.Table.{OutboxRow, row_id, same_id, publish_backoff_ms}
use telegram_mini_app.Outbox.Relay.{has_id, retry_row, add_to_bucket, bucket_rows, retry_buckets}

abbrev Bucket : Type 0
Bucket = ℕ × List Text

-- A row stands in one of the buckets.
abbrev in_buckets : List Bucket → OutboxRow → Bool
in_buckets [] row = false
in_buckets ((a, ids) ∷ buckets) row = has_id ids row || in_buckets buckets row

-- A bucket that names the row is that of its attempt count.
abbrev AgreesWith : OutboxRow → List Bucket → Type 0
AgreesWith row = All (λ b. has_id b.1 row ≡ true → b.0 ≡ row.attempts)

has_id-append :
    (ids more : List Text) (row : OutboxRow)
    → has_id (ids ++ more) row ≡ has_id ids row || has_id more row
has_id-append [] more row = refl
has_id-append (i ∷ ids) more row = ground (arith, has_id-append ids more row)

add_to_bucket-in_buckets :
    (attempts : ℕ) (id : Text) (buckets : List Bucket) (row : OutboxRow)
    → in_buckets (add_to_bucket attempts id buckets) row
      ≡ text_eq (row_id row) id || in_buckets buckets row
add_to_bucket-in_buckets attempts id [] row = ground arith
add_to_bucket-in_buckets attempts id ((a, ids) ∷ buckets) row =
    ground
      (arith, has_id-append ids (id ∷ []) row, add_to_bucket-in_buckets attempts id buckets row)

bucket_rows-in_buckets :
    (rows : List OutboxRow) (buckets : List Bucket) (row : OutboxRow)
    → in_buckets (bucket_rows rows buckets) row
      ≡ has_id (map row_id rows) row || in_buckets buckets row
bucket_rows-in_buckets [] buckets row = refl
bucket_rows-in_buckets (x ∷ rows) buckets row = ground (
  arith,
  bucket_rows-in_buckets rows (add_to_bucket x.attempts (row_id x) buckets) row,
  add_to_bucket-in_buckets x.attempts (row_id x) buckets row,
)

add_to_bucket-AgreesWith :
    (attempts : ℕ) (id : Text) (buckets : List Bucket) (row : OutboxRow)
    → (text_eq (row_id row) id ≡ true → attempts ≡ row.attempts)
    → AgreesWith row buckets
    → AgreesWith row (add_to_bucket attempts id buckets)
add_to_bucket-AgreesWith attempts id [] row h k = (λ e. h (ground arith), tt)
add_to_bucket-AgreesWith attempts id ((a, ids) ∷ buckets) row h k =
    if-cases (AgreesWith row) (a == attempts)
      (λ e. (λ f. ground (arith, h, k.0, ==_iff a attempts, has_id-append ids (id ∷ []) row), k.1))
      (λ e. (k.0, add_to_bucket-AgreesWith attempts id buckets row h k.1))

bucket_rows-AgreesWith :
    (rows : List OutboxRow) (buckets : List Bucket) (row : OutboxRow)
    → All (λ x. text_eq (row_id row) (row_id x) ≡ true → x.attempts ≡ row.attempts) rows
    → AgreesWith row buckets
    → AgreesWith row (bucket_rows rows buckets)
bucket_rows-AgreesWith [] buckets row h k = k
bucket_rows-AgreesWith (x ∷ rows) buckets row h k =
    bucket_rows-AgreesWith rows (add_to_bucket x.attempts (row_id x) buckets) row h.1
      (add_to_bucket-AgreesWith x.attempts (row_id x) buckets row h.0 k)

module _ {A : Type 0} where
  map-same : (f : A → A) → ((x : A) → f x ≡ x) → (xs : List A) → map f xs ≡ xs
  map-same f h [] = refl
  map-same f h (x ∷ xs) = cc (h x, map-same f h xs)

  map-map_where :
      (p : A → Bool) (f g : A → A) (xs : List A)
      → map g (map_where p f xs) ≡ map (λ x. g (if p x then f x else x)) xs
  map-map_where p f g [] = refl
  map-map_where p f g (x ∷ xs) = ap (λ ys. g (if p x then f x else x) ∷ ys) (map-map_where p f g xs)

module _ (now : ℕ) (error : Text) (scaled : ℕ → ℕ) where
  -- What the statements do to one row.
  abbrev retry_one : List Bucket → OutboxRow → OutboxRow
  retry_one [] row = row
  retry_one ((a, ids) ∷ buckets) row =
      retry_one buckets
        (if has_id ids row then retry_row now error (publish_backoff_ms a scaled) row else row)

  abbrev pub retried : OutboxRow → OutboxRow
  retried row = retry_row now error (publish_backoff_ms row.attempts scaled) row

  retried-retried : (row : OutboxRow) → retried (retried row) ≡ retried row
  retried-retried row = refl

  retry_buckets-map :
      (buckets : List Bucket) (table : List OutboxRow)
      → retry_buckets now error scaled buckets table ≡ map (retry_one buckets) table
  retry_buckets-map [] table = sym (map-same (retry_one []) (λ row. refl) table)
  retry_buckets-map ((a, ids) ∷ buckets) table =
      retry_buckets-map buckets
        (map_where (has_id ids) (retry_row now error (publish_backoff_ms a scaled)) table)
      ∙ map-map_where (has_id ids) (retry_row now error (publish_backoff_ms a scaled))
          (retry_one buckets) table

  retry_one-retried :
      (buckets : List Bucket) (row : OutboxRow)
      → AgreesWith row buckets
      → retry_one buckets row ≡ (if in_buckets buckets row then retried row else row)
  retry_one-retried [] row h = refl
  retry_one-retried ((a, ids) ∷ buckets) row h = elim (Bool-cases (has_id ids row)) [
    | inl e ↦
        rw (e, h.0 e)
          (retry_one-retried buckets (retried row) h.1
            ∙ if-cases (λ z. z ≡ retried row) (in_buckets buckets (retried row)) (λ f. refl)
                (λ f. refl))
    | inr e ↦ ground (arith, e, retry_one-retried buckets row h.1)
  ]

  -- The rows that a batch retries are delayed by their own attempt counts, and no other is touched.
  pub retry_buckets-retried :
      (rows : List OutboxRow) (table : List OutboxRow)
      → All (λ row. All (λ x. same_id row x ≡ true → x.attempts ≡ row.attempts) rows) table
      → retry_buckets now error scaled (bucket_rows rows []) table
        ≡ map_where (has_id (map row_id rows)) retried table
  retry_buckets-retried rows table h =
      retry_buckets-map (bucket_rows rows []) table ∙ by_row table h
    where
      by_row :
          (table : List OutboxRow)
          → All (λ row. All (λ x. same_id row x ≡ true → x.attempts ≡ row.attempts) rows) table
          → map (retry_one (bucket_rows rows [])) table
            ≡ map_where (has_id (map row_id rows)) retried table
      by_row [] k = refl
      by_row (row ∷ table) k = ground (
        arith,
        retry_one-retried (bucket_rows rows []) row (bucket_rows-AgreesWith rows [] row k.0 tt),
        bucket_rows-in_buckets rows [] row,
        by_row table k.1,
      )
