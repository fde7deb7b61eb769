-- ===== src/Idempotency/Interceptor.antt =====
-- The interceptor of the routes that are marked idempotent: what it asks of the key, and what it does
-- around the handler (src/core/idempotency/idempotency.interceptor.ts, with its constants and options).
-- The digest of a request and the encoding of a response are parameters; a request that is not of HTTP
-- counts as one to a route that is not marked.
pub mod Again
use telegram_mini_app.Prelude.{
  ℕ, Bool, true, false, not, ◌||◌, ◌&&◌, List, [], ◌∷◌, Option, none, some, or_else, ltb, leb, ◌==◌,
  length, all, if◌then◌else◌,
}
use telegram_mini_app.Prelude.Text.{Text, text, text_eq}
use telegram_mini_app.Money.Scale.{trim}
use telegram_mini_app.Types.{Error}
use telegram_mini_app.Idempotency.{
  IdempotencyRecord, BeginInput, Lease, BeginResult, proceed, replay, busy, mismatch, World, begin,
  complete, release,
}

-- A number is its text, and `null` is also what is undefined.
mutual
  pub data Json : Type 0 where
    null : Json
    boolean : Bool → Json
    number : Text → Json
    string : Text → Json
    array : Items → Json
    object : Fields → Json

  pub data Items : Type 0 where
    no_items : Items
    item : Json → Items → Items

  pub data Fields : Type 0 where
    no_fields : Fields
    field : Text → Json → Fields → Fields

unfoldable pub get_field : Text → Fields → Option Json
get_field name no_fields = none
get_field name (field n v fs) =
    let rest = get_field name fs in if text_eq n name then some v else rest

abbrev pub string_of : Option Json → Option Text
string_of (some (string s)) = some s
string_of _ = none

abbrev pub id_of : Json → Option Text
id_of (object fs) = string_of (get_field (text "id") fs)
id_of _ = none

abbrev pub nested_id : Option Json → Option Text
nested_id (some inner) = id_of inner
nested_id none = none

-- The id of what was created, at the top of the result or under its `data`.
unfoldable pub extract_result_ref : Json → Option Text
extract_result_ref (object fs) = elim (id_of (object fs)) [
  | some id ↦ some id
  | none ↦ nested_id (get_field (text "data") fs)
]
extract_result_ref _ = none

pub data Header : Type 0 where
  absent : Header
  single : Text → Header
  several : List Text → Header

abbrev pub read_header : Header → Option Text
read_header absent = none
read_header (single s) = some s
read_header (several []) = none
read_header (several (s ∷ ss)) = some s

pub record IdempotentOptions : Type 0 where
  pub scope : Text
  pub required : Bool
  pub ttl_seconds : ℕ

-- The options are those of the route, where it is marked.
pub record Call : Type 0 where
  pub options : Option IdempotentOptions
  pub key_header : Header
  pub method : Option Text
  pub original_url : Option Text
  pub url : Option Text
  pub body : Option Json

pub data Refusal : Type 0 where
  key_required : Refusal
  key_invalid : Text → Refusal
  key_reused : Refusal
  still_in_flight : ℕ → Refusal

abbrev pub idempotency_key_min_length : ℕ
idempotency_key_min_length = 8

abbrev pub idempotency_key_max_length : ℕ
idempotency_key_max_length = 255

abbrev pub is_between : ℕ → ℕ → ℕ → Bool
is_between low high c = leb low c && leb c high

-- A letter, a digit or one of `_ . : -`.
abbrev pub is_key_character : ℕ → Bool
is_key_character c =
    is_between 65 90 c
    || (is_between 97 122 c
        || (is_between 48 57 c || (c == 95 || (c == 46 || (c == 58 || c == 45)))))

-- What comes before the record is asked for.
pub data Prepared : Type 0 where
  unprotected : Prepared
  turned_away : Refusal → Prepared
  guarded : BeginInput → Prepared

abbrev pub is_too_short_or_long : Text → Bool
is_too_short_or_long key =
    ltb (length key) idempotency_key_min_length || ltb idempotency_key_max_length (length key)

abbrev pub hash_of : (Text → Text → Json → Text) → Call → Text
hash_of hash call =
    hash (or_else call.method []) (or_else call.original_url (or_else call.url []))
      (or_else call.body null)

abbrev pub prepare_key : (Text → Text → Json → Text) → Call → IdempotentOptions → Text → Prepared
prepare_key hash call options key =
    if is_too_short_or_long key
    then turned_away (key_invalid (text "length must be between 8 and 255"))
    else if not (all is_key_character key)
    then turned_away (key_invalid (text "unsupported characters"))
    else guarded (record {
      scope = options.scope;
      key = key;
      request_hash = hash_of hash call;
      ttl_seconds = some options.ttl_seconds;
    })

abbrev pub prepare_header :
    (Text → Text → Json → Text) → Call → IdempotentOptions → Option Text → Prepared
prepare_header hash call options none =
    if not options.required then unprotected else turned_away key_required
prepare_header hash call options (some raw) = prepare_key hash call options (trim raw)

unfoldable pub prepare : (Text → Text → Json → Text) → Call → Prepared
prepare hash call = elim call.options [
  | none ↦ unprotected
  | some options ↦ prepare_header hash call options (read_header call.key_header)
]

pub data Handled : Type 0 where
  produced : Json → Handled
  threw : Error → Handled

-- What the client gets: the handler's own result, or a stored one, which is marked by a header.
pub data Answer : Type 0 where
  result : Json → Answer
  from_record : Option Text → Answer
  refused : Refusal → Answer
  failed : Error → Answer

-- The handler, with what it and other requests commit to the records while it runs; the clock when it is
-- done; and how the two statements that may follow it fare: the error of the one that completes the
-- record, if any, what others commit before the release, and whether the release fails.
pub record Route : Type 0 where
  pub handle : List IdempotencyRecord → Handled × List IdempotencyRecord
  pub now : ℕ
  pub complete_error : Option Error
  pub before_release : List IdempotencyRecord → List IdempotencyRecord
  pub release_fails : Bool

abbrev pub answer_plainly : Handled × List IdempotencyRecord → Answer × List IdempotencyRecord
answer_plainly (produced j, table) = (result j, table)
answer_plainly (threw e, table) = (failed e, table)

-- `catchError`: the release is an attempt, and the error goes to the client.
unfoldable pub release_after :
    Route → Lease → Error → List IdempotencyRecord → Answer × List IdempotencyRecord
release_after route lease e table = (
  failed e,
  if route.release_fails
      then route.before_release table
      else (release lease (route.before_release table)).1,
)

-- Around the handler: an error of the completion is caught as one of the handler.
abbrev pub after_handler :
    (Json → Option Text)
    → Route
    → Lease
    → Option Error
    → Handled × List IdempotencyRecord
    → Answer × List IdempotencyRecord
after_handler encode route lease none (produced j, table) = (
  result j,
  (complete route.now lease (record { response = encode j; result_ref = extract_result_ref j })
      table).1,
)
after_handler encode route lease (some e) (produced j, table) = release_after route lease e table
after_handler encode route lease broken (threw e, table) = release_after route lease e table

abbrev pub after_begin :
    (Json → Option Text)
    → Route
    → BeginResult × List IdempotencyRecord
    → Answer × List IdempotencyRecord
after_begin encode route (mismatch, table) = (refused key_reused, table)
after_begin encode route (busy since, table) = (refused (still_in_flight since), table)
after_begin encode route (replay response reference completed, table) =
    (from_record response, table)
after_begin encode route (proceed lease recovered, table) =
    after_handler encode route lease route.complete_error (route.handle table)

abbrev pub after_prepare :
    (Json → Option Text)
    → World
    → Route
    → Text
    → Prepared
    → List IdempotencyRecord
    → Answer × List IdempotencyRecord
after_prepare encode w route tenant unprotected table = answer_plainly (route.handle table)
after_prepare encode w route tenant (turned_away r) table = (refused r, table)
after_prepare encode w route tenant (guarded input) table =
    after_begin encode route (begin w input tenant table)

unfoldable pub intercept :
    (Text → Text → Json → Text)
    → (Json → Option Text)
    → World
    → Route
    → Text
    → Call
    → List IdempotencyRecord
    → Answer × List IdempotencyRecord
intercept hash encode w route tenant call table =
    after_prepare encode w route tenant (prepare hash call) table
