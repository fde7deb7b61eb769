-- ===== src/Examples/Requests.antt =====
-- The theorems on the idempotency records at one request.
use telegram_mini_app.Prelude.{
  ℕ, ◌+◌, ◌*◌, false, true, List, [], ◌∷◌, none, some, if◌then◌else◌, ◌≡◌, refl, arith,
}
use telegram_mini_app.Prelude.Text.{Text, text, text_eq}
use telegram_mini_app.Idempotency.{
  IdempotencyRecord, BeginInput, Lease, proceed, replay, busy, mismatch, CompleteInput, new_key,
  default_ttl_seconds, begin, begin_rounds, complete, release,
}
use telegram_mini_app.Idempotency.Fence.{idle, begin_fences}
use telegram_mini_app.Idempotency.Reaper.{tick_reaper, tick_reaper-Statements}
use telegram_mini_app.Idempotency.Replay.{alone, begin-complete, begin_twice}
use telegram_mini_app.Examples.{operator}

abbrev request : BeginInput
request = record {
  scope = text "deposit.create";
  key = text "phone-0001";
  request_hash = 7 ∷ [];
  ttl_seconds = none;
}

abbrev drawn : ℕ → Text
drawn round = (40 + round) ∷ []

abbrev created : IdempotencyRecord
created = new_key (alone (λ round. 1000) drawn) request operator 0

abbrev lease : Lease
lease = record { record_id = 40 ∷ []; scope = request.scope; key = request.key; fenced_at = 1000 }

abbrev response : CompleteInput
response = record { response = some (text "{}"); result_ref = none }

first_begins :
    begin (alone (λ round. 1000) drawn) request operator [] ≡ (proceed lease none, created ∷ [])
unfolding begin begin_rounds
first_begins = refl

begin-complete_example :
    begin
      (alone (λ round. 5000) drawn)
      request
      operator
      (complete 2000 lease response (created ∷ [])).1
    ≡ (replay (some (text "{}")) none (some 2000), (complete 2000 lease response (created ∷ [])).1)
begin-complete_example =
    begin-complete (λ round. 1000) (λ round. 5000) drawn drawn request operator lease none []
      (created ∷ []) first_begins 2000 response

begin_twice_example :
    begin
      (alone (λ round. 5000) drawn)
      (record request { request_hash = 8 ∷ [] })
      operator
      (created ∷ [])
    ≡ (if text_eq (7 ∷ []) (8 ∷ []) then busy 1000 else mismatch, created ∷ [])
begin_twice_example =
    begin_twice (λ round. 1000) (λ round. 5000) drawn drawn request operator (8 ∷ []) lease none []
      (created ∷ []) first_begins (omega arith)

abbrev later_ids : ℕ → Text
later_ids round = 9 ∷ []

abbrev second_lease : Lease
second_lease = record lease { fenced_at = 70000 }

abbrev taken_over : IdempotencyRecord
taken_over = record created { locked_at = 70000; expires_at = 70000 + default_ttl_seconds * 1000 }

second_begins :
    begin (alone (λ round. 70000) later_ids) request operator (created ∷ [])
    ≡ (proceed second_lease (some 1000), taken_over ∷ [])
unfolding begin begin_rounds text_eq text
second_begins = refl

later_ids-apart : (round : ℕ) → text_eq (later_ids round) (40 ∷ []) ≡ false
unfolding text_eq
later_ids-apart round = refl

abbrev reaped : List IdempotencyRecord
reaped = (tick_reaper true false 80000 (λ left row. false) (taken_over ∷ [])).1

begin_fences_example :
    (complete 80000 lease response reaped ≡ (false, reaped))
    × (release lease reaped ≡ (false, reaped))
begin_fences_example =
    begin_fences (alone (λ round. 70000) later_ids) request operator lease second_lease
      (created ∷ []) (taken_over ∷ []) reaped ((λ h. omega arith), tt) (λ k t. idle) later_ids-apart
      second_begins refl
      (tick_reaper-Statements (40 ∷ []) true false 80000 (λ left row. false) (taken_over ∷ []))
      80000 response
