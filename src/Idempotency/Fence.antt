-- ===== src/Idempotency/Fence.antt =====
-- The lock of a record as a fence (src/core/idempotency/idempotency.service.ts).
use telegram_mini_app.Prelude.{
  ℕ, zero, suc, ◌+◌, ◌*◌, ◌≤◌, ◌<◌, Bool, true, false, not, List, [], ◌∷◌, Option, none, some, ◌==◌,
  any, keep, map_where, All, length, ◌≡◌, refl, sym, ap, subst, ◌⊎◌, inl, inr, if-cases, Bool-cases,
  arith,
}
use telegram_mini_app.Prelude.Text.{Text, text_eq}
use telegram_mini_app.Idempotency.{
  IdempotencyRecord, BeginInput, Lease, BeginResult, proceed, CompleteInput, World, is_in_flight,
  new_key, is_held, locked_until, max_ℕ, ttl_of, take_over, answer, read_existing, after_create,
  begin_round, begin_rounds, begin, completed_row, complete, release, is_fresh, has_key,
}

-- The record's lock has not gone below an instant.
abbrev pub Reached : Text → ℕ → IdempotencyRecord → Type 0
Reached id lock row = text_eq row.id id ≡ true → lock ≤ row.locked_at

-- The record is out of the reach of whoever holds that lock: completed, or locked again since.
abbrev pub Past : Text → ℕ → IdempotencyRecord → Type 0
Past id lock row = text_eq row.id id ≡ true → (is_in_flight row ≡ false) ⊎ (lock < row.locked_at)

-- A statement that commits: the insert of a record under a new id, a takeover from a lock that was
-- read, a completion, or the deletion of any records, as a release and the reaper make it.
pub data Statement (id : Text) : List IdempotencyRecord → List IdempotencyRecord → Type 0 where
  inserted :
      {table : List IdempotencyRecord} (row : IdempotencyRecord)
      → text_eq row.id id ≡ false
      → Statement id table (row ∷ table)
  relocked :
      {table : List IdempotencyRecord} (other : Text) (seen next expires : ℕ)
      → seen < next
      → Statement id table (map_where (is_held other seen) (locked_until next expires) table)
  finished :
      {table : List IdempotencyRecord} (other : Text) (seen now : ℕ) (input : CompleteInput)
      → Statement id table (map_where (is_held other seen) (completed_row now input) table)
  deleted :
      {table : List IdempotencyRecord} (p : IdempotencyRecord → Bool)
      → Statement id table (keep p table)

pub data Statements (id : Text) : List IdempotencyRecord → List IdempotencyRecord → Type 0 where
  idle : {table : List IdempotencyRecord} → Statements id table table
  then_one :
      {table middle next : List IdempotencyRecord}
      → Statements id table middle
      → Statement id middle next
      → Statements id table next

All-keep :
    (P : IdempotencyRecord → Type 0) (p : IdempotencyRecord → Bool) (table : List IdempotencyRecord)
    → All P table
    → All P (keep p table)
All-keep P p [] h = tt
All-keep P p (x ∷ xs) h =
    let rest = All-keep P p xs h.1 in if-cases (All P) (p x) (λ e. (h.0, rest)) (λ e. rest)

All-map_where :
    (P Q : IdempotencyRecord → Type 0) (p : IdempotencyRecord → Bool)
    (f : IdempotencyRecord → IdempotencyRecord)
    → ((x : IdempotencyRecord) → P x → p x ≡ true → Q (f x))
    → ((x : IdempotencyRecord) → P x → p x ≡ false → Q x)
    → (table : List IdempotencyRecord) → All P table
    → All Q (map_where p f table)
All-map_where P Q p f moved kept [] h = tt
All-map_where P Q p f moved kept (x ∷ xs) h =
    (if-cases Q (p x) (moved x h.0) (kept x h.0), All-map_where P Q p f moved kept xs h.1)

held_lock :
    (id : Text) (lock : ℕ) (row : IdempotencyRecord)
    → is_held id lock row ≡ true
    → row.locked_at ≡ lock
held_lock id lock row h = ground arith

Statement-Reached :
    (id : Text) (lock : ℕ) {table next : List IdempotencyRecord}
    → Statement id table next
    → All (Reached id lock) table
    → All (Reached id lock) next
Statement-Reached id lock (inserted row e) h = ((λ k. absurd (cc)), h)
Statement-Reached id lock {table} (relocked other seen next expires l) h =
    All-map_where (Reached id lock) (Reached id lock) (is_held other seen)
      (locked_until next expires) (λ x r e k. omega (arith, r k, held_lock other seen x e, l))
      (λ x r e. r) table h
Statement-Reached id lock {table} (finished other seen now input) h =
    All-map_where (Reached id lock) (Reached id lock) (is_held other seen) (completed_row now input)
      (λ x r e. r) (λ x r e. r) table h
Statement-Reached id lock {table} (deleted p) h = All-keep (Reached id lock) p table h

Statement-Past :
    (id : Text) (lock : ℕ) {table next : List IdempotencyRecord}
    → Statement id table next
    → All (Past id lock) table
    → All (Past id lock) next
Statement-Past id lock (inserted row e) h = ((λ k. absurd (cc)), h)
Statement-Past id lock {table} (relocked other seen next expires l) h =
    All-map_where (Past id lock) (Past id lock) (is_held other seen) (locked_until next expires)
      (λ x r e k. elim (r k) [
        | inl done ↦ inl done
        | inr later ↦ inr (omega (arith, later, held_lock other seen x e, l))
      ])
      (λ x r e. r) table h
Statement-Past id lock {table} (finished other seen now input) h =
    All-map_where (Past id lock) (Past id lock) (is_held other seen) (completed_row now input)
      (λ x r e k. inl refl) (λ x r e. r) table h
Statement-Past id lock {table} (deleted p) h = All-keep (Past id lock) p table h

Statements-Reached :
    (id : Text) (lock : ℕ) {table next : List IdempotencyRecord}
    → Statements id table next
    → All (Reached id lock) table
    → All (Reached id lock) next
Statements-Reached id lock idle h = h
Statements-Reached id lock (then_one ss s) h =
    Statement-Reached id lock s (Statements-Reached id lock ss h)

Statements-Past :
    (id : Text) (lock : ℕ) {table next : List IdempotencyRecord}
    → Statements id table next
    → All (Past id lock) table
    → All (Past id lock) next
Statements-Past id lock idle h = h
Statements-Past id lock (then_one ss s) h = Statement-Past id lock s (Statements-Past id lock ss h)

-- Nobody holds a record under a lock that is past.
Past-held :
    (id : Text) (lock : ℕ) (row : IdempotencyRecord)
    → Past id lock row
    → is_held id lock row ≡ false
Past-held id lock row h = elim (Bool-cases (is_held id lock row)) [
  | inl e ↦
      let named : text_eq row.id id ≡ true = ground arith in
      elim (h named) [
        | inl done ↦ ground arith
        | inr later ↦ absurd (omega (arith, later, held_lock id lock row e))
      ]
  | inr e ↦ e
]

none_held :
    (id : Text) (lock : ℕ) (f : IdempotencyRecord → IdempotencyRecord)
    (table : List IdempotencyRecord)
    → All (Past id lock) table
    → (keep (is_held id lock) table ≡ [])
      × (map_where (is_held id lock) f table ≡ table)
      × (keep (λ row. not (is_held id lock row)) table ≡ table)
none_held id lock f [] h = (refl, refl, refl)
none_held id lock f (x ∷ xs) h =
    let (a, b, c) = none_held id lock f xs h.1 in
    let e = Past-held id lock x h.0 in (rw e a, rw (e, b) refl, rw (e, c) refl)

-- What a call of `begin` leaves for whoever holds a record under a given lock.
abbrev Fences : Text → ℕ → BeginResult × List IdempotencyRecord → Type 0
Fences id lock r =
    All (Reached id lock) r.1
    × ((new : Lease) → r.0 ≡ proceed new (some lock) → new.record_id ≡ id → All (Past id lock) r.1)

-- A takeover from a lock puts the records beyond that lock.
swapped-Past :
    (id : Text) (lock : ℕ) (other : Text) (seen next expires : ℕ) (table : List IdempotencyRecord)
    → other ≡ id
    → seen ≡ lock
    → seen < next
    → All (Reached id lock) table
    → All (Past id lock) (map_where (is_held other seen) (locked_until next expires) table)
swapped-Past id lock other seen next expires table o q l h =
    All-map_where (Reached id lock) (Past id lock) (is_held other seen) (locked_until next expires)
      (λ x r e k. inr (omega (arith, q, l)))
      (λ x r e k. elim (Bool-cases (is_in_flight x)) [
        | inl flying ↦
            let apart : is_held id lock x ≡ false = rw (sym o, sym q) e in
            inr (ground (arith, apart, k, flying, r k))
        | inr done ↦ inl done
      ])
      table h

module _ (w : World) (input : BeginInput) (tenant id : Text) (lock : ℕ)
    (others : (k : ℕ) (t : List IdempotencyRecord) → Statements id t (w.others k t))
    (fresh : (round : ℕ) → text_eq (w.new_id round) id ≡ false) where
  others-Reached :
      (k : ℕ) (table : List IdempotencyRecord)
      → All (Reached id lock) table
      → All (Reached id lock) (w.others k table)
  others-Reached k table h = Statements-Reached id lock (others k table) h

  take_over-Fences :
      (round : ℕ) (again : List IdempotencyRecord → BeginResult × List IdempotencyRecord)
      → ((t : List IdempotencyRecord) → All (Reached id lock) t → Fences id lock (again t))
      → (existing : IdempotencyRecord) (table : List IdempotencyRecord)
      → All (Reached id lock) table
      → Fences id lock (take_over w input round again existing table)
  take_over-Fences round again rec existing table h =
      let next = max_ℕ (w.clock round) (existing.locked_at + 1) in
      let expires = w.clock round + ttl_of input * 1000 in
      let later : existing.locked_at < next = ground arith in
      let reached =
        Statement-Reached id lock {table = table}
          (relocked existing.id existing.locked_at next expires later) h in
      if-cases (Fences id lock) (length (keep (is_held existing.id existing.locked_at) table) == 1)
        (λ e. (
          reached,
          λ new q named.
              swapped-Past id lock existing.id existing.locked_at next expires table (cc) (cc) later
                h,
        ))
        (λ e. rec _ reached)

  answer-Fences :
      (round : ℕ) (again : List IdempotencyRecord → BeginResult × List IdempotencyRecord)
      → ((t : List IdempotencyRecord) → All (Reached id lock) t → Fences id lock (again t))
      → (existing : IdempotencyRecord) (table : List IdempotencyRecord)
      → All (Reached id lock) table
      → Fences id lock (answer w input round again existing table)
  answer-Fences round again rec existing table h =
      if-cases (Fences id lock) (not (text_eq existing.request_hash input.request_hash))
        (λ e. (h, λ new q. absurd (cc)))
        (λ e.
          if-cases (Fences id lock) (not (is_in_flight existing)) (λ f. (h, λ new q. absurd (cc)))
            (λ f.
              if-cases (Fences id lock) (is_fresh (w.clock round) existing)
                (λ g. (h, λ new q. absurd (cc)))
                (λ g. take_over-Fences round again rec existing _ (others-Reached _ table h))))

  read_existing-Fences :
      (round : ℕ) (again : List IdempotencyRecord → BeginResult × List IdempotencyRecord)
      → ((t : List IdempotencyRecord) → All (Reached id lock) t → Fences id lock (again t))
      → (found : Option IdempotencyRecord) (table : List IdempotencyRecord)
      → All (Reached id lock) table
      → Fences id lock (read_existing w input round again found table)
  read_existing-Fences round again rec none table h = rec table h
  read_existing-Fences round again rec (some existing) table h =
      answer-Fences round again rec existing table h

  begin_round-Fences :
      (round : ℕ) (again : List IdempotencyRecord → BeginResult × List IdempotencyRecord)
      → ((t : List IdempotencyRecord) → All (Reached id lock) t → Fences id lock (again t))
      → (table : List IdempotencyRecord) → All (Reached id lock) table
      → Fences id lock (begin_round w input tenant round again table)
  begin_round-Fences round again rec table h =
      let before = w.others (3 * round) table in
      let row = new_key w input tenant round in
      let k = others-Reached (3 * round) table h in
      if-cases (λ o. Fences id lock (after_create w input tenant round again before o))
        (any (has_key row.tenant_id row.scope row.key) before)
        (λ e. read_existing-Fences round again rec _ _ (others-Reached _ before k))
        (λ e. (Statement-Reached id lock (inserted row (fresh round)) k, λ new q. absurd (cc)))

  begin_rounds-Fences :
      (left round : ℕ) (table : List IdempotencyRecord)
      → All (Reached id lock) table
      → Fences id lock (begin_rounds w input tenant left round table)
  unfolding begin_rounds
  begin_rounds-Fences zero round table h = (h, λ new q. absurd (cc))
  begin_rounds-Fences (suc left) round table h =
      begin_round-Fences round (begin_rounds w input tenant left (suc round))
        (begin_rounds-Fences left (suc round)) table h

-- Once another request has taken a record over from a lease's lock, whatever other requests commit
-- during that call and afterwards, the lease neither completes nor releases anything: both calls report
-- that it is gone and leave the table as it is. No record of that id has an earlier lock than the lease
-- to begin with, and new records are drawn under other ids.
pub begin_fences :
    (w : World) (input : BeginInput) (tenant : Text) (old new : Lease)
    (table after later : List IdempotencyRecord)
    → All (Reached old.record_id old.fenced_at) table
    → ((k : ℕ) (t : List IdempotencyRecord) → Statements old.record_id t (w.others k t))
    → ((round : ℕ) → text_eq (w.new_id round) old.record_id ≡ false)
    → begin w input tenant table ≡ (proceed new (some old.fenced_at), after)
    → new.record_id ≡ old.record_id
    → Statements old.record_id after later
    → (now : ℕ) (response : CompleteInput)
    → (complete now old response later ≡ (false, later)) × (release old later ≡ (false, later))
unfolding begin complete release
begin_fences w input tenant old new table after later h others fresh e named ss now response =
    let id = old.record_id in
    let lock = old.fenced_at in
    let fenced = begin_rounds-Fences w input tenant id lock others fresh 3 0 table h in
    let past : All (Past id lock) after =
      subst (λ t. All (Past id lock) t) (ap (λ (r : BeginResult × List IdempotencyRecord). r.1) e)
        (fenced.1 new (ap (λ (r : BeginResult × List IdempotencyRecord). r.0) e) named) in
    let (a, b, c) =
      none_held id lock (completed_row now response) later (Statements-Past id lock ss past) in
    (rw (a, b) refl, rw (a, c) refl)
