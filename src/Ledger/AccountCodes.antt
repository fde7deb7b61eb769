-- ===== src/Ledger/AccountCodes.antt =====
-- The codes that name ledger accounts: src/core/ledger/account-codes.ts. The human label of an
-- account (`label`, `name`) is left out.
pub mod RoundTrip
use telegram_mini_app.Prelude.{
  ℕ, zero, suc, Bool, true, false, ◌&&◌, List, [], ◌∷◌, ◌++◌, Option, none, some, find, leb, length,
  ◌==◌, if◌then◌else◌, ◌≡◌, refl,
}
use telegram_mini_app.Prelude.Integers.{ℤ, pos, leb_ℤ}
use telegram_mini_app.Prelude.Text.{Text, text, text_eq}
use telegram_mini_app.Types.{
  LedgerAccountKind, rail_clearing, house_cash, player_liability, ichancy_agent_float,
  casino_mirror, suspense_unidentified, house_rounding, ledger_error, invalid_account_code, Result,
  ok, err,
}
use telegram_mini_app.Uuid.{is_uuid}

pub data AccountScope : Type 0 where
  player_scope payment_method_scope no_scope : AccountScope

pub data SignPolicy : Type 0 where
  non_negative non_positive any_sign : SignPolicy

pub record AccountKindSpec : Type 0 where
  pub kind : LedgerAccountKind
  pub scope : AccountScope
  pub is_debit_normal : Bool
  pub sign_policy : SignPolicy

abbrev spec : LedgerAccountKind → AccountScope → Bool → SignPolicy → AccountKindSpec
spec kind scope debit policy = record {
  kind = kind;
  scope = scope;
  is_debit_normal = debit;
  sign_policy = policy;
}

-- `ACCOUNT_KIND_SPECS`.
abbrev pub account_kind_spec : LedgerAccountKind → AccountKindSpec
account_kind_spec rail_clearing = spec rail_clearing payment_method_scope true non_negative
account_kind_spec house_cash = spec house_cash payment_method_scope true non_negative
account_kind_spec player_liability = spec player_liability player_scope false non_positive
account_kind_spec ichancy_agent_float = spec ichancy_agent_float no_scope true non_negative
account_kind_spec casino_mirror = spec casino_mirror player_scope true non_negative
account_kind_spec suspense_unidentified =
    spec suspense_unidentified payment_method_scope false non_positive
account_kind_spec house_rounding = spec house_rounding no_scope true any_sign

-- The enum's value as it stands in a code.
unfoldable pub kind_name : LedgerAccountKind → Text
unfolding text
kind_name rail_clearing = text "RAIL_CLEARING"
kind_name house_cash = text "HOUSE_CASH"
kind_name player_liability = text "PLAYER_LIABILITY"
kind_name ichancy_agent_float = text "ICHANCY_AGENT_FLOAT"
kind_name casino_mirror = text "CASINO_MIRROR"
kind_name suspense_unidentified = text "SUSPENSE_UNIDENTIFIED"
kind_name house_rounding = text "HOUSE_ROUNDING"

abbrev pub account_kinds : List LedgerAccountKind
account_kinds =
    rail_clearing ∷ house_cash ∷ player_liability ∷ ichancy_agent_float ∷ casino_mirror
    ∷ suspense_unidentified ∷ house_rounding ∷ []

-- `isAccountKind`, with the kind that it found.
kind_of_name : Text → Option LedgerAccountKind
unfolding kind_name text_eq
kind_of_name name = find (λ kind. text_eq (kind_name kind) name) account_kinds

is_upper : ℕ → Bool
is_upper c = leb b'A' c && leb c b'Z'

-- `CURRENCY_RE`.
unfoldable pub is_currency : Text → Bool
unfolding is_upper
is_currency (a ∷ b ∷ c ∷ []) = is_upper a && (is_upper b && is_upper c)
is_currency _ = false

assert_currency : Text → Result Text
unfolding is_currency
assert_currency currency =
    if is_currency currency then ok currency else err (ledger_error invalid_account_code)

assert_scope_id : Text → Result Text
assert_scope_id id = if is_uuid id then ok id else err (ledger_error invalid_account_code)

infixl 5 ◌>>=◌
abbrev ◌>>=◌ {ℓ κ} : {A : Type ℓ} {B : Type κ} → Result A → (A → Result B) → Result B
m >>= f = elim m [ ok a ↦ f a | err e ↦ err e ]

-- Two parts with the separator between them.
abbrev joined : Text → Text → Text
joined a b = a ++ (b':' ∷ b)

unfoldable pub scoped_code : LedgerAccountKind → Text → Text → Result Text
unfolding assert_scope_id assert_currency
scoped_code kind scope_id currency = do
  scope ← assert_scope_id scope_id
  cur ← assert_currency currency
  ok (joined (kind_name kind) (joined scope cur))

unfoldable pub singleton_code : LedgerAccountKind → Text → Result Text
unfolding assert_currency
singleton_code kind currency = do cur ← assert_currency currency; ok (joined (kind_name kind) cur)

abbrev pub player_liability_code : Text → Text → Result Text
player_liability_code = scoped_code player_liability

abbrev pub casino_mirror_code : Text → Text → Result Text
casino_mirror_code = scoped_code casino_mirror

abbrev pub rail_clearing_code : Text → Text → Result Text
rail_clearing_code = scoped_code rail_clearing

abbrev pub house_cash_code : Text → Text → Result Text
house_cash_code = scoped_code house_cash

abbrev pub suspense_unidentified_code : Text → Text → Result Text
suspense_unidentified_code = scoped_code suspense_unidentified

abbrev pub ichancy_agent_float_code : Text → Result Text
ichancy_agent_float_code = singleton_code ichancy_agent_float

abbrev pub house_rounding_code : Text → Result Text
house_rounding_code = singleton_code house_rounding

abbrev push_head : ℕ → List Text → List Text
push_head c [] = (c ∷ []) ∷ []
push_head c (s ∷ rest) = (c ∷ s) ∷ rest

-- `code.split(':')`, which has at least one segment.
split_code : Text → List Text
split_code [] = [] ∷ []
split_code (c ∷ t) = let rest = split_code t in if c == b':' then [] ∷ rest else push_head c rest

pub record ParsedAccountCode : Type 0 where
  pub code : Text
  pub kind : LedgerAccountKind
  pub currency_code : Text
  pub player_id : Option Text
  pub payment_method_id : Option Text

-- `segments[i] ?? ''`.
abbrev segment : List Text → ℕ → Text
segment [] i = []
segment (s ∷ rest) zero = s
segment (s ∷ rest) (suc i) = segment rest i

abbrev expected_segments : AccountScope → ℕ
expected_segments no_scope = 2
expected_segments _ = 3

-- The row that a code of a known kind describes.
parse_segments : Text → LedgerAccountKind → AccountScope → List Text → Result ParsedAccountCode
unfolding assert_scope_id assert_currency
parse_segments code kind no_scope segments = do
  currency ← assert_currency (segment segments 1)
  ok (record {
    code = code;
    kind = kind;
    currency_code = currency;
    player_id = none;
    payment_method_id = none;
  })
parse_segments code kind player_scope segments = do
  scope_id ← assert_scope_id (segment segments 1)
  currency ← assert_currency (segment segments 2)
  ok (record {
    code = code;
    kind = kind;
    currency_code = currency;
    player_id = some scope_id;
    payment_method_id = none;
  })
parse_segments code kind payment_method_scope segments = do
  scope_id ← assert_scope_id (segment segments 1)
  currency ← assert_currency (segment segments 2)
  ok (record {
    code = code;
    kind = kind;
    currency_code = currency;
    player_id = none;
    payment_method_id = some scope_id;
  })

-- What follows the split, for the kind that the first segment names.
abbrev parse_kind : Text → List Text → Option LedgerAccountKind → Result ParsedAccountCode
parse_kind code segments none = err (ledger_error invalid_account_code)
parse_kind code segments (some kind) =
    let scope = (account_kind_spec kind).scope in
    if length segments == expected_segments scope
    then parse_segments code kind scope segments
    else err (ledger_error invalid_account_code)

unfoldable pub parse_account_code : Text → Result ParsedAccountCode
unfolding kind_of_name split_code parse_segments
parse_account_code code =
    let segments = split_code code in parse_kind code segments (kind_of_name (segment segments 0))

abbrev pub satisfies_sign_policy : ℤ → SignPolicy → Bool
satisfies_sign_policy balance non_negative = leb_ℤ (pos 0) balance
satisfies_sign_policy balance non_positive = leb_ℤ balance (pos 0)
satisfies_sign_policy balance any_sign = true

-- The two examples of the header.
parses_float_code :
    parse_account_code (text "ICHANCY_AGENT_FLOAT:NSP")
    ≡ ok (record {
      code = text "ICHANCY_AGENT_FLOAT:NSP";
      kind = ichancy_agent_float;
      currency_code = text "NSP";
      player_id = none;
      payment_method_id = none;
    })
unfolding parse_account_code text
parses_float_code = refl
