-- ===== src/Idempotency/Replay.antt =====
-- The answer of a request that is sent again (src/core/idempotency/idempotency.service.ts).
use telegram_mini_app.Prelude.{
  ℕ, zero, suc, ◌+◌, ◌*◌, Bool, true, not, List, [], ◌∷◌, Option, none, some, ◌==◌, ◌<◌, lt→ltb,
  ==_iff, if◌then◌else◌, any, find, find-any, keep, map_where, length, ◌≡◌, refl, sym, ap, subst,
  inl, inr, if-cases, Bool-cases, arith,
}
use telegram_mini_app.Prelude.Text.{Text, text_eq, text_eq_iff, text_eq_refl}
use telegram_mini_app.Idempotency.{
  IdempotencyRecord, BeginInput, Lease, BeginResult, proceed, replay, busy, mismatch,
  idempotency_stale_lock_ms, CompleteInput, World, is_in_flight, new_key, is_held, locked_until,
  max_ℕ, ttl_of, take_over, read_existing, after_create, begin_rounds, begin, completed_row,
  complete, is_fresh, has_key,
}

-- A call that no other request interrupts.
abbrev pub alone : (ℕ → ℕ) → (ℕ → Text) → World
alone clock new_id = record { clock = clock; new_id = new_id; others = λ k table. table }

find-map_where :
    (q p : IdempotencyRecord → Bool) (f : IdempotencyRecord → IdempotencyRecord)
    → ((x : IdempotencyRecord) → q (f x) ≡ q x)
    → (table : List IdempotencyRecord) (row : IdempotencyRecord) → find q table ≡ some row
    → p row ≡ true
    → find q (map_where p f table) ≡ some (f row)
find-map_where q p f k [] row h e = absurd (cc)
find-map_where q p f k (x ∷ xs) row h e = elim (Bool-cases (q x)) [
  | inl t ↦
      let same : ◌≡◌ {A = Option IdempotencyRecord} (some x) (some row) = ground (arith, h, t) in
      let here : x ≡ row = cc in rw (here, e, k row, sym here, t) refl
  | inr t ↦ elim (Bool-cases (p x)) [
    | inl u ↦ ground (arith, t, u, k x, find-map_where q p f k xs row (ground (arith, t, h)) e)
    | inr u ↦ ground (arith, t, u, find-map_where q p f k xs row (ground (arith, t, h)) e)
  ]
]

-- The request's record, which the lease holds.
abbrev Owned : BeginInput → Text → Lease → List IdempotencyRecord → Type 0
Owned input tenant lease table =
    (row : IdempotencyRecord) × (find (has_key tenant input.scope input.key) table ≡ some row)
    × (is_held lease.record_id lease.fenced_at row ≡ true)
    × (text_eq row.request_hash input.request_hash ≡ true)

abbrev Grants : BeginInput → Text → BeginResult × List IdempotencyRecord → Type 0
Grants input tenant r =
    (lease : Lease) (from : Option ℕ) → r.0 ≡ proceed lease from → Owned input tenant lease r.1

granted :
    {first : Lease} {recovered : Option ℕ} (lease : Lease) (from : Option ℕ)
    (row : IdempotencyRecord)
    → proceed first recovered ≡ proceed lease from
    → is_held first.record_id first.fenced_at row ≡ true
    → is_held lease.record_id lease.fenced_at row ≡ true
granted {first} lease from row q h =
    let same : first ≡ lease = cc in
    subst (λ (l : Lease). is_held l.record_id l.fenced_at row ≡ true) same h

module _ (clock : ℕ → ℕ) (new_id : ℕ → Text) (input : BeginInput) (tenant : Text) where
  take_over-Grants :
      (round : ℕ) (again : List IdempotencyRecord → BeginResult × List IdempotencyRecord)
      → ((t : List IdempotencyRecord) → Grants input tenant (again t))
      → (existing : IdempotencyRecord) (table : List IdempotencyRecord)
      → find (has_key tenant input.scope input.key) table ≡ some existing
      → text_eq existing.request_hash input.request_hash ≡ true
      → is_in_flight existing ≡ true
      → Grants input tenant (take_over (alone clock new_id) input round again existing table)
  take_over-Grants round again rec existing table found same flying =
      let next = max_ℕ (clock round) (existing.locked_at + 1) in
      let expires = clock round + ttl_of input * 1000 in
      let held = is_held existing.id existing.locked_at in
      let owner : held existing ≡ true =
        rw (text_eq_refl existing.id, flying)
          ((==_iff existing.locked_at existing.locked_at).1 refl) in
      let at_next : is_held existing.id next (locked_until next expires existing) ≡ true =
        rw (text_eq_refl existing.id, flying) ((==_iff next next).1 refl) in
      if-cases (Grants input tenant) (length (keep held table) == 1)
        (λ e lease from q. (
          locked_until next expires existing,
          find-map_where (has_key tenant input.scope input.key) held (locked_until next expires)
              (λ x. refl) table existing found owner,
          granted lease from (locked_until next expires existing) q at_next,
          same,
        ))
        (λ e. rec _)

  read_existing-Grants :
      (round : ℕ) (again : List IdempotencyRecord → BeginResult × List IdempotencyRecord)
      → ((t : List IdempotencyRecord) → Grants input tenant (again t))
      → (found : Option IdempotencyRecord) (table : List IdempotencyRecord)
      → find (has_key tenant input.scope input.key) table ≡ found
      → Grants input tenant (read_existing (alone clock new_id) input round again found table)
  read_existing-Grants round again rec none table h = rec table
  read_existing-Grants round again rec (some existing) table h =
      if-cases (Grants input tenant) (not (text_eq existing.request_hash input.request_hash))
        (λ e lease from q. absurd (cc))
        (λ e.
          if-cases (Grants input tenant) (not (is_in_flight existing))
            (λ f lease from q. absurd (cc))
            (λ f.
              if-cases (Grants input tenant) (is_fresh (clock round) existing)
                (λ g lease from q. absurd (cc))
                (λ g.
                  take_over-Grants round again rec existing table h (ground arith) (ground arith))))

  begin_rounds-Grants :
      (left round : ℕ) (table : List IdempotencyRecord)
      → Grants input tenant (begin_rounds (alone clock new_id) input tenant left round table)
  unfolding begin_rounds
  begin_rounds-Grants zero round table = λ lease from q. absurd (cc)
  begin_rounds-Grants (suc left) round table =
      let again = begin_rounds (alone clock new_id) input tenant left (suc round) in
      let row = new_key (alone clock new_id) input tenant round in
      let named = has_key tenant input.scope input.key in
      let inserted : named row ≡ true =
        rw (text_eq_refl tenant, text_eq_refl input.scope, text_eq_refl input.key) refl in
      let owned : is_held row.id row.locked_at row ≡ true =
        rw (text_eq_refl row.id) ((==_iff row.locked_at row.locked_at).1 refl) in
      if-cases
        (λ o.
          Grants input tenant (after_create (alone clock new_id) input tenant round again table o))
        (any named table)
        (λ e.
          read_existing-Grants round again (begin_rounds-Grants left (suc round)) (find named table)
            table refl)
        (λ e lease from q.
          (row, rw inserted refl, granted lease from row q owned, text_eq_refl input.request_hash))

-- A request that was let through and completes is answered from its record when it is sent again with
-- the same body, at any later or earlier reading of the clock: with the stored response, the reference
-- and the instant of completion, and nothing is written. No other request commits in between.
pub begin-complete :
    (clock clock_again : ℕ → ℕ) (new_id new_id_again : ℕ → Text) (input : BeginInput)
    (tenant : Text) (lease : Lease) (from : Option ℕ) (table after : List IdempotencyRecord)
    → begin (alone clock new_id) input tenant table ≡ (proceed lease from, after)
    → (now : ℕ) (response : CompleteInput)
    → begin (alone clock_again new_id_again) input tenant (complete now lease response after).1 ≡ (
      replay response.response response.result_ref (some now),
      (complete now lease response after).1,
    )
unfolding begin complete begin_rounds
begin-complete clock clock_again new_id new_id_again input tenant lease from table after e now
      response =
    let named = has_key tenant input.scope input.key in
    let owned : Owned input tenant lease after =
      subst (λ t. Owned input tenant lease t)
        (ap (λ (r : BeginResult × List IdempotencyRecord). r.1) e)
        (begin_rounds-Grants clock new_id input tenant 3 0 table lease from
          (ap (λ (r : BeginResult × List IdempotencyRecord). r.0) e)) in
    let (row, found, held, same) = owned in
    let done =
      find-map_where named (is_held lease.record_id lease.fenced_at) (completed_row now response)
        (λ x. refl) after row found held in
    rw (find-any named _ _ done, done, same) refl

-- After a request was let through, a second one for its key within sixty seconds of the lock is not: the
-- same body is told since when the first one runs, another body is refused, and neither writes anything.
-- No other request commits in between.
pub begin_twice :
    (clock clock_again : ℕ → ℕ) (new_id new_id_again : ℕ → Text) (input : BeginInput)
    (tenant hash : Text) (lease : Lease) (from : Option ℕ) (table after : List IdempotencyRecord)
    → begin (alone clock new_id) input tenant table ≡ (proceed lease from, after)
    → clock_again 0 < lease.fenced_at + idempotency_stale_lock_ms
    → begin (alone clock_again new_id_again) (record input { request_hash = hash }) tenant after
      ≡ (if text_eq input.request_hash hash then busy lease.fenced_at else mismatch, after)
unfolding begin begin_rounds
begin_twice clock clock_again new_id new_id_again input tenant hash lease from table after e soon =
    let named = has_key tenant input.scope input.key in
    let owned : Owned input tenant lease after =
      subst (λ t. Owned input tenant lease t)
        (ap (λ (r : BeginResult × List IdempotencyRecord). r.1) e)
        (begin_rounds-Grants clock new_id input tenant 3 0 table lease from
          (ap (λ (r : BeginResult × List IdempotencyRecord). r.0) e)) in
    let (row, found, held, same) = owned in
    let body : row.request_hash ≡ input.request_hash = (text_eq_iff _ _).0 same in
    let flying : is_in_flight row ≡ true = ground arith in
    let lock : row.locked_at ≡ lease.fenced_at = ground arith in
    let fresh : is_fresh (clock_again 0) row ≡ true = rw lock (lt→ltb _ _ soon) in
    elim (Bool-cases (text_eq input.request_hash hash)) [
      | inl t ↦ rw (find-any named _ _ found, found, body, t, flying, fresh, lock) refl
      | inr t ↦ rw (find-any named _ _ found, found, body, t) refl
    ]
