-- ===== src/Idempotency/Interceptor/Again.antt =====
-- A request that is sent again through the interceptor
-- (src/core/idempotency/idempotency.interceptor.ts).
use telegram_mini_app.Prelude.{
  ℕ, false, not, if◌then◌else◌, List, [], ◌∷◌, Option, none, some, any, keep, ==_iff, ◌≡◌, refl,
  sym, ap, subst, arith, ◌⊎◌, inl, inr, ◌∙◌,
}
use telegram_mini_app.Prelude.Text.{Text, text_eq, text_eq_refl}
use telegram_mini_app.Types.{Error}
use telegram_mini_app.Idempotency.{
  IdempotencyRecord, BeginInput, Lease, World, BeginResult, proceed, replay, busy, mismatch, begin,
  begin_rounds, complete, release, CompleteInput, is_held, has_key, new_key,
}
use telegram_mini_app.Idempotency.Replay.{alone, begin-complete}
use telegram_mini_app.Idempotency.Interceptor.{
  Json, Call, guarded, prepare, Handled, produced, threw, Answer, result, from_record, failed,
  Route, release_after, after_handler, after_begin, after_prepare, extract_result_ref, intercept,
}

-- The records are as the handler found them when it is done.
abbrev pub LeavesRecords : Route → Type 0
LeavesRecords route = (t : List IdempotencyRecord) → (route.handle t).1 ≡ t

-- Nothing but the route's own statements touches the records.
abbrev pub Undisturbed : Route → Type 0
Undisturbed route =
    LeavesRecords route × ((t : List IdempotencyRecord) → route.before_release t ≡ t)

abbrev first_lease : (ℕ → ℕ) → (ℕ → Text) → BeginInput → Lease
first_lease clock new_id input = record {
  record_id = new_id 0;
  scope = input.scope;
  key = input.key;
  fenced_at = clock 0;
}

abbrev stored : (Json → Option Text) → Json → CompleteInput
stored encode j = record { response = encode j; result_ref = extract_result_ref j }

-- A handler's own result stands in the record.
handled_result :
    (encode : Json → Option Text) (route : Route) (lease : Lease) (broken : Option Error)
    (h : Handled) (t : List IdempotencyRecord) {j : Json} {after : List IdempotencyRecord}
    → after_handler encode route lease broken (h, t) ≡ (result j, after)
    → after ≡ (complete route.now lease (stored encode j) t).1
unfolding release_after
handled_result encode route lease none (produced k) t {j} {after} e =
    let same : k ≡ j = cc in
    sym (ap (λ (r : Answer × List IdempotencyRecord). r.1) e)
    ∙ ap (λ x. (complete route.now lease (stored encode x) t).1) same
handled_result encode route lease (some b) (produced k) t e = absurd (cc)
handled_result encode route lease broken (threw b) t e = absurd (cc)

begun_result :
    (encode : Json → Option Text) (route : Route) (b : BeginResult) (t : List IdempotencyRecord)
    {j : Json} {after : List IdempotencyRecord}
    → LeavesRecords route
    → after_begin encode route (b, t) ≡ (result j, after)
    → (lease : Lease) × (from : Option ℕ) × (b ≡ proceed lease from)
      × (after ≡ (complete route.now lease (stored encode j) t).1)
begun_result encode route mismatch t quiet e = absurd (cc)
begun_result encode route (busy since) t quiet e = absurd (cc)
begun_result encode route (replay response reference completed) t quiet e = absurd (cc)
begun_result encode route (proceed lease from) t {j} quiet e = (
  lease,
  from,
  refl,
  handled_result encode route lease route.complete_error (route.handle t).0 (route.handle t).1 e
      ∙ ap (λ x. (complete route.now lease (stored encode j) x).1) (quiet t),
)

intercept_guarded :
    (hash : Text → Text → Json → Text) (encode : Json → Option Text) (w : World) (route : Route)
    (tenant : Text) (call : Call) (input : BeginInput) (table : List IdempotencyRecord)
    → prepare hash call ≡ guarded input
    → intercept hash encode w route tenant call table
      ≡ after_begin encode route (begin w input tenant table)
unfolding intercept
intercept_guarded hash encode w route tenant call input table ready =
    ap (λ p. after_prepare encode w route tenant p table) ready

-- Once a marked route has answered a request that carries a key, the request that is sent again is
-- answered with the stored response, whatever its handler would do: the handler does not run and nothing
-- is written. Neither the handler nor another request touches the records meanwhile.
pub intercept_again :
    (hash : Text → Text → Json → Text) (encode : Json → Option Text) (clock clock_again : ℕ → ℕ)
    (new_id new_id_again : ℕ → Text) (route route_again : Route) (tenant : Text) (call : Call)
    (input : BeginInput) (table after : List IdempotencyRecord) (j : Json)
    → prepare hash call ≡ guarded input
    → LeavesRecords route
    → intercept hash encode (alone clock new_id) route tenant call table ≡ (result j, after)
    → intercept hash encode (alone clock_again new_id_again) route_again tenant call after
      ≡ (from_record (encode j), after)
intercept_again hash encode clock clock_again new_id new_id_again route route_again tenant call
      input table after j ready quiet e =
    let begun = begin (alone clock new_id) input tenant table in
    let (lease, from, went, stands) = begun_result encode route begun.0 begun.1 quiet (
      sym (intercept_guarded hash encode (alone clock new_id) route tenant call input table ready)
      ∙ e) in
    let again =
      begin-complete clock clock_again new_id new_id_again input tenant lease from table begun.1
        (ap (λ b. (b, begun.1)) went) route.now (stored encode j) in
    let met : begin (alone clock_again new_id_again) input tenant after
        ≡ (replay (encode j) (extract_result_ref j) (some route.now), after) =
      subst
        (λ t.
          begin (alone clock_again new_id_again) input tenant t
          ≡ (replay (encode j) (extract_result_ref j) (some route.now), t))
        (sym stands) again in
    intercept_guarded hash encode (alone clock_again new_id_again) route_again tenant call input
      after ready
    ∙ ap (after_begin encode route_again) met

begin_first :
    (clock : ℕ → ℕ) (new_id : ℕ → Text) (input : BeginInput) (tenant : Text)
    (table : List IdempotencyRecord)
    → any (has_key tenant input.scope input.key) table ≡ false
    → begin (alone clock new_id) input tenant table ≡ (
      proceed (first_lease clock new_id input) none,
      new_key (alone clock new_id) input tenant 0 ∷ table,
    )
unfolding begin begin_rounds
begin_first clock new_id input tenant table e = rw e refl

not_held :
    (id : Text) (lock : ℕ) (table : List IdempotencyRecord)
    → any (λ (row : IdempotencyRecord). text_eq row.id id) table ≡ false
    → keep (λ row. not (is_held id lock row)) table ≡ table
not_held id lock [] e = refl
not_held id lock (x ∷ xs) e = ground (arith, not_held id lock xs)

release_first :
    (clock : ℕ → ℕ) (new_id : ℕ → Text) (input : BeginInput) (tenant : Text)
    (table : List IdempotencyRecord)
    → any (λ (row : IdempotencyRecord). text_eq row.id (new_id 0)) table ≡ false
    → (release
        (first_lease clock new_id input)
        (new_key (alone clock new_id) input tenant 0 ∷ table)).1
      ≡ table
unfolding release
release_first clock new_id input tenant table e =
    rw (text_eq_refl (new_id 0), (==_iff (clock 0) (clock 0)).1 refl)
      (not_held (new_id 0) (clock 0) table e)

released :
    (route : Route) (lease : Lease) (b e : Error) (t table : List IdempotencyRecord)
    {after : List IdempotencyRecord}
    → Undisturbed route
    → (release lease t).1 ≡ table
    → release_after route lease b t ≡ (failed e, after)
    → (b ≡ e) × (after ≡ (if route.release_fails then t else table))
unfolding release_after
released route lease b e t table (quiet, kept) gone h =
    (cc, sym (ap (λ (r : Answer × List IdempotencyRecord). r.1) h) ∙ rw (kept t, gone) refl)

-- What made the request fail.
abbrev pub Failure : Route → Option Error → Handled → Error → Type 0
Failure route broken h e = (h ≡ threw e) ⊎ ((j : Json) × (h ≡ produced j) × (broken ≡ some e))

handled_failed :
    (encode : Json → Option Text) (route : Route) (lease : Lease) (broken : Option Error)
    (h : Handled) (t table : List IdempotencyRecord) {e : Error} {after : List IdempotencyRecord}
    → Undisturbed route
    → (release lease t).1 ≡ table
    → after_handler encode route lease broken (h, t) ≡ (failed e, after)
    → Failure route broken h e × (after ≡ (if route.release_fails then t else table))
handled_failed encode route lease none (produced j) t table quiet gone k = absurd (cc)
handled_failed encode route lease (some b) (produced j) t table {e} quiet gone k =
    let (same, stands) = released route lease b e t table quiet gone k in
    (inr (j, refl, ap some same), stands)
handled_failed encode route lease none (threw b) t table {e} quiet gone k =
    let (same, stands) = released route lease b e t table quiet gone k in
    (inl (ap threw same), stands)
handled_failed encode route lease (some c) (threw b) t table {e} quiet gone k =
    let (same, stands) = released route lease b e t table quiet gone k in
    (inl (ap threw same), stands)

-- A first request under its key that fails, while nothing but its own statements touches the records,
-- leaves them as they were where its release goes through, so that the same request would begin anew;
-- where the release fails, the new record stays in flight beside them. The request failed as its handler
-- threw, or as the handler had produced its result and the statement that completes the record failed,
-- in which case what the handler did stays done.
pub intercept_failed :
    (hash : Text → Text → Json → Text) (encode : Json → Option Text) (clock : ℕ → ℕ)
    (new_id : ℕ → Text) (route : Route) (tenant : Text) (call : Call) (input : BeginInput)
    (table after : List IdempotencyRecord) (e : Error)
    → prepare hash call ≡ guarded input
    → Undisturbed route
    → any (has_key tenant input.scope input.key) table ≡ false
    → any (λ (row : IdempotencyRecord). text_eq row.id (new_id 0)) table ≡ false
    → intercept hash encode (alone clock new_id) route tenant call table ≡ (failed e, after)
    → Failure route route.complete_error
        (route.handle (new_key (alone clock new_id) input tenant 0 ∷ table)).0
        e
      × (after ≡ (
          if route.release_fails
          then new_key (alone clock new_id) input tenant 0 ∷ table
          else table))
intercept_failed hash encode clock new_id route tenant call input table after e ready quiet unused
      fresh h =
    let mid : List IdempotencyRecord = new_key (alone clock new_id) input tenant 0 ∷ table in
    let lease = first_lease clock new_id input in
    let gone =
      ap (λ t. (release lease t).1) (quiet.0 mid)
      ∙ release_first clock new_id input tenant table fresh in
    let (why, left) =
      handled_failed encode route lease route.complete_error (route.handle mid).0
        (route.handle mid).1 table quiet gone
        (ap (after_begin encode route) (sym (begin_first clock new_id input tenant table unused))
          ∙ sym (
              intercept_guarded hash encode (alone clock new_id) route tenant call input table
                ready)
          ∙ h) in
    (why, left ∙ ap (λ t. if route.release_fails then t else table) (quiet.0 mid))
