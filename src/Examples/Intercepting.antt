-- ===== src/Examples/Intercepting.antt =====
-- The theorems on the interceptor of idempotent routes, at one request.
use telegram_mini_app.Prelude.{ℕ, ◌+◌, ◌∷◌, true, false, List, [], Option, some, none, ◌≡◌, refl}
use telegram_mini_app.Prelude.Text.{Text, text, text_eq}
use telegram_mini_app.Money.Scale.{is_space}
use telegram_mini_app.Types.{Error, record_not_found}
use telegram_mini_app.Idempotency.{IdempotencyRecord, BeginInput, begin, begin_rounds, release}
use telegram_mini_app.Idempotency.Replay.{alone}
use telegram_mini_app.Idempotency.Interceptor.{
  Json, string, object, no_fields, field, single, Call, guarded, prepare, produced, result,
  from_record, failed, Route, release_after, intercept,
}
use telegram_mini_app.Idempotency.Interceptor.Again.{Failure, intercept_again, intercept_failed}
use telegram_mini_app.Examples.{operator}

abbrev digest : Text → Text → Json → Text
digest method path body = 7 ∷ []

abbrev encoded : Json → Option Text
encoded j = some (text "{}")

abbrev sent_request : Call
sent_request = record {
  options = some (record { scope = text "deposit.create"; required = true; ttl_seconds = 60 });
  key_header = single (text " phone-0001");
  method = some (text "POST");
  original_url = some (text "/deposits");
  url = none;
  body = none;
}

abbrev prepared : BeginInput
prepared = record {
  scope = text "deposit.create";
  key = text "phone-0001";
  request_hash = 7 ∷ [];
  ttl_seconds = some 60;
}

ready : prepare digest sent_request ≡ guarded prepared
unfolding prepare text is_space
ready = refl

abbrev made : Json
made = object (field (text "id") (string (5 ∷ [])) no_fields)

abbrev creates : Option Error → Route
creates broken = record {
  handle = λ table. (produced made, table);
  now = 2000;
  complete_error = broken;
  before_release = λ table. table;
  release_fails = false;
}

abbrev row_ids : ℕ → Text
row_ids round = (40 + round) ∷ []

abbrev answered : List IdempotencyRecord
answered =
    (intercept digest encoded (alone (λ round. 1000) row_ids) (creates none) operator sent_request
      []).1

answered_run :
    intercept digest encoded (alone (λ round. 1000) row_ids) (creates none) operator sent_request []
    ≡ (result made, answered)
unfolding intercept prepare is_space begin begin_rounds text
answered_run = refl

intercept_again_example :
    intercept digest encoded
      (alone (λ round. 5000) row_ids)
      (creates (some record_not_found))
      operator
      sent_request
      answered
    ≡ (from_record (some (text "{}")), answered)
intercept_again_example =
    intercept_again digest encoded (λ round. 1000) (λ round. 5000) row_ids row_ids (creates none)
      (creates (some record_not_found)) operator sent_request prepared [] answered made ready
      (λ t. refl) answered_run

lost_run :
    intercept digest encoded
      (alone (λ round. 1000) row_ids)
      (creates (some record_not_found))
      operator
      sent_request
      []
    ≡ (failed record_not_found, [])
unfolding intercept prepare is_space begin begin_rounds release_after release text text_eq
lost_run = refl

-- The handler has made something, and its record is gone.
intercept_failed_example :
    Failure
      (creates (some record_not_found))
      (some record_not_found)
      (produced made)
      record_not_found
    × (◌≡◌ {A = List IdempotencyRecord} [] [])
intercept_failed_example =
    intercept_failed digest encoded (λ round. 1000) row_ids (creates (some record_not_found))
      operator sent_request prepared [] [] record_not_found ready ((λ t. refl), (λ t. refl)) refl
      refl lost_run
