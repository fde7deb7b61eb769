-- ===== src/Transactions.antt =====
-- Transactions that are run again after a write conflict: src/core/prisma/retry.util.ts, around
-- `runInTransaction` of src/core/prisma/prisma.service.ts, and src/core/ledger/serialization-retry.util.ts,
-- around the postings of the ledger. Delays are milliseconds.
pub mod Attempts
use telegram_mini_app.Prelude.{
  ℕ, zero, suc, ◌+◌, ◌-◌, ◌*◌, ◌^◌, Bool, true, false, not, ◌&&◌, ◌||◌, List, [], ◌∷◌, Option, none,
  some, any, map, ltb, leb, ◌==◌, if◌then◌else◌,
}
use telegram_mini_app.Prelude.Text.{Text, text, text_eq}

-- The strings that are looked for on what was thrown: its code and message, and those of its `meta`, each
-- none where the path to it ends early or does not hold a string.
pub record ErrorShape : Type 0 where
  pub code : Option Text
  pub meta_code : Option Text
  pub db_error_code : Option Text
  pub adapter_original_code : Option Text
  pub adapter_kind : Option Text
  pub message : Option Text

-- A value that is no object, an object, and an object with another value as its `cause`. A cause that is
-- the object itself is not followed by the code, and counts as none.
pub data Thrown : Type 0 where
  not_an_object : Thrown
  thrown : ErrorShape → Thrown
  thrown_by : ErrorShape → Thrown → Thrown

abbrev pub holds_some : (Text → Bool) → Option Text → Bool
holds_some test none = false
holds_some test (some t) = test t

abbrev pub prisma_write_conflict_code : Text
prisma_write_conflict_code = text "P2034"

abbrev pub retryable_sql_states : List Text
retryable_sql_states = text "40001" ∷ text "40P01" ∷ []

abbrev pub is_sql_state : Text → Bool
is_sql_state code = any (text_eq code) retryable_sql_states

-- The flag `i` of a pattern without letters beyond ASCII.
abbrev pub fold_case : ℕ → ℕ
fold_case c = if leb 97 c && leb c 122 then c - 32 else c

abbrev pub begins : Text → Text → Bool
begins [] s = true
begins (c ∷ p) [] = false
begins (c ∷ p) (d ∷ s) = (fold_case c == fold_case d) && begins p s

abbrev pub contains : Text → Text → Bool
contains p [] = begins p []
contains p (c ∷ s) = begins p (c ∷ s) || contains p s

-- `RETRYABLE_MESSAGE`.
unfoldable pub is_retryable_message : Text → Bool
is_retryable_message message =
    any (λ p. contains p message)
      (text "could not serialize access"
        ∷ text "deadlock detected"
        ∷ text "write conflict"
        ∷ text "40001"
        ∷ text "40P01"
        ∷ [])

abbrev pub shows_conflict : ErrorShape → Bool
shows_conflict e =
    holds_some (text_eq prisma_write_conflict_code) e.code
    || (holds_some is_sql_state e.code
        || (holds_some is_sql_state e.meta_code
            || (holds_some is_sql_state e.db_error_code
                || (holds_some is_sql_state e.adapter_original_code
                    || holds_some (text_eq (text "TransactionWriteConflict")) e.adapter_kind))))

unfoldable pub is_serialization_error : Thrown → Bool
is_serialization_error not_an_object = false
is_serialization_error (thrown e) = shows_conflict e || holds_some is_retryable_message e.message
is_serialization_error (thrown_by e cause) =
    let deeper = is_serialization_error cause in
    shows_conflict e || (deeper || holds_some is_retryable_message e.message)

-- The ledger's own classifier looks at fewer places.
abbrev pub ledger_retryable : ErrorShape → Bool
ledger_retryable e =
    holds_some (text_eq prisma_write_conflict_code) e.code
    || (holds_some is_sql_state e.code
        || (holds_some is_sql_state e.meta_code || holds_some is_retryable_message e.message))

unfoldable pub is_retryable_transaction_error : Thrown → Bool
is_retryable_transaction_error not_an_object = false
is_retryable_transaction_error (thrown e) = ledger_retryable e
is_retryable_transaction_error (thrown_by e cause) = ledger_retryable e

-- One run of the transaction.
pub data Attempt (A : Type 0) : Type 0 where
  returned : A → Attempt A
  failed : Thrown → Attempt A

-- What the caller gets: the value, what was thrown, the TypeError of a count below one, or the ledger's
-- LEDGER_RETRY_EXHAUSTED.
pub data Outcome (A : Type 0) : Type 0 where
  returns : A → Outcome A
  throws : Thrown → Outcome A
  invalid_attempts exhausted : Outcome A

-- A whole call: its outcome, how often the work ran, and how long it slept between the runs.
pub record Trace (A : Type 0) : Type 0 where
  pub outcome : Outcome A
  pub runs : ℕ
  pub delays : List ℕ

-- `baseDelayMs`, `maxDelayMs`, and the random draws: `jittered n window` is what the floor of the jitter
-- makes of that window after the n-th run.
pub record Backoff : Type 0 where
  pub base_delay_ms : ℕ
  pub max_delay_ms : ℕ
  pub jittered : ℕ → ℕ → ℕ

abbrev pub min_of : ℕ → ℕ → ℕ
min_of a b = if ltb b a then b else a

-- The window after a run: doubled each time, up to the ceiling.
abbrev pub window_after : Backoff → ℕ → ℕ
window_after b attempt = min_of b.max_delay_ms (b.base_delay_ms * 2 ^ (attempt - 1))

module _ {A : Type 0} where
  abbrev pub slept : ℕ → Trace A → Trace A
  slept ms t = record { outcome = t.outcome; runs = t.runs; delays = ms ∷ t.delays }

  abbrev pub stopped : ℕ → Outcome A → Trace A
  stopped runs outcome = record { outcome = outcome; runs = runs; delays = [] }

  -- After a run that may be followed by others: `rest` is the loop from the next attempt on.
  abbrev pub follow_run : (Thrown → Bool) → Backoff → ℕ → Attempt A → Trace A → Trace A
  follow_run retryable b attempt (returned a) rest = stopped attempt (returns a)
  follow_run retryable b attempt (failed e) rest =
      if retryable e
      then slept (b.jittered attempt (window_after b attempt)) rest
      else stopped attempt (throws e)

  -- After the last run.
  abbrev pub last_run : (Thrown → Outcome A) → ℕ → Attempt A → Trace A
  last_run give_up attempt (returned a) = stopped attempt (returns a)
  last_run give_up attempt (failed e) = stopped attempt (give_up e)

  -- The loop from an attempt on, with so many more to follow it.
  unfoldable pub attempts_from :
      (Thrown → Bool) → (Thrown → Outcome A) → Backoff → (ℕ → Attempt A) → ℕ → ℕ → Trace A
  attempts_from retryable give_up b work zero attempt = last_run give_up attempt (work attempt)
  attempts_from retryable give_up b work (suc more) attempt =
      let rest = attempts_from retryable give_up b work more (suc attempt) in
      follow_run retryable b attempt (work attempt) rest

  -- `withSerializationRetry` of src/core/prisma/retry.util.ts: the last error is thrown as it is.
  unfoldable pub with_serialization_retry : ℕ → Backoff → (ℕ → Attempt A) → Trace A
  with_serialization_retry zero b work = stopped 0 invalid_attempts
  with_serialization_retry (suc more) b work =
      attempts_from is_serialization_error throws b work more 1

  -- The same of src/core/ledger/serialization-retry.util.ts: a conflict in the last attempt becomes
  -- LEDGER_RETRY_EXHAUSTED, also where there was no attempt.
  abbrev pub ledger_gives_up : Thrown → Outcome A
  ledger_gives_up e = if is_retryable_transaction_error e then exhausted else throws e

  unfoldable pub with_ledger_retry : ℕ → Backoff → (ℕ → Attempt A) → Trace A
  with_ledger_retry zero b work = stopped 0 exhausted
  with_ledger_retry (suc more) b work =
      attempts_from is_retryable_transaction_error ledger_gives_up b work more 1
