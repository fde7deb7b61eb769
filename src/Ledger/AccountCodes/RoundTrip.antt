-- ===== src/Ledger/AccountCodes/RoundTrip.antt =====
-- The codes that the builders make are the codes that the parser reads
-- (src/core/ledger/account-codes.ts).
use telegram_mini_app.Prelude.{Bool, true, false, [], ◌∷◌, none, some, ◌≡◌, refl, ap, ◌∙◌, arith}
use telegram_mini_app.Prelude.Text.{Text, text, text_eq}
use telegram_mini_app.Types.{LedgerAccountKind, rail_clearing, ok}
use telegram_mini_app.Uuid.{is_uuid, is_uuid-plain, is_plain}
use telegram_mini_app.Ledger.AccountCodes.{
  AccountScope, player_scope, payment_method_scope, no_scope, account_kind_spec, kind_name,
  kind_of_name, is_currency, is_upper, assert_currency, assert_scope_id, joined, scoped_code,
  singleton_code, split_code, parse_kind, segment, expected_segments, ParsedAccountCode,
  parse_segments, parse_account_code,
}

kind_name-plain : (kind : LedgerAccountKind) → is_plain (kind_name kind) ≡ true
unfolding kind_name text
kind_name-plain rail_clearing = refl
kind_name-plain _ = refl

kind_of_name-name : (kind : LedgerAccountKind) → kind_of_name (kind_name kind) ≡ some kind
unfolding kind_of_name kind_name text text_eq
kind_of_name-name rail_clearing = refl
kind_of_name-name _ = refl

currency-plain : (t : Text) → is_currency t ≡ true → is_plain t ≡ true
unfolding is_currency is_upper
currency-plain [] h = refl
currency-plain (a ∷ []) h = absurd (cc)
currency-plain (a ∷ b ∷ []) h = absurd (cc)
currency-plain (a ∷ b ∷ c ∷ []) h = ground arith
currency-plain (a ∷ b ∷ c ∷ d ∷ t) h = absurd (cc)

split_code-plain : (t : Text) → is_plain t ≡ true → split_code t ≡ t ∷ []
unfolding split_code
split_code-plain [] h = refl
split_code-plain (c ∷ t) h = ground (arith, split_code-plain t)

split_code-joined : (a b : Text) → is_plain a ≡ true → split_code (joined a b) ≡ a ∷ split_code b
unfolding split_code
split_code-joined [] b h = refl
split_code-joined (c ∷ a) b h = ground (arith, split_code-joined a b)

-- A kind of account that belongs to a player or a payment method.
abbrev pub is_scoped : AccountScope → Bool
is_scoped no_scope = false
is_scoped _ = true

-- What a code of that scope says.
abbrev pub described : Text → LedgerAccountKind → AccountScope → Text → Text → ParsedAccountCode
described code kind player_scope id currency = record {
  code = code;
  kind = kind;
  currency_code = currency;
  player_id = some id;
  payment_method_id = none;
}
described code kind payment_method_scope id currency = record {
  code = code;
  kind = kind;
  currency_code = currency;
  player_id = none;
  payment_method_id = some id;
}
described code kind no_scope id currency = record {
  code = code;
  kind = kind;
  currency_code = currency;
  player_id = none;
  payment_method_id = none;
}

parse_segments-scoped :
    (code : Text) (kind : LedgerAccountKind) (scope : AccountScope) (id currency : Text)
    → is_scoped scope ≡ true
    → is_uuid id ≡ true
    → is_currency currency ≡ true
    → parse_segments code kind scope (kind_name kind ∷ id ∷ currency ∷ [])
      ≡ ok (described code kind scope id currency)
unfolding parse_segments assert_scope_id assert_currency
parse_segments-scoped code kind player_scope id currency s h k = cc
parse_segments-scoped code kind payment_method_scope id currency s h k = cc
parse_segments-scoped code kind no_scope id currency s h k = absurd (cc)

scoped-segments :
    (kind : LedgerAccountKind) (id currency : Text)
    → is_uuid id ≡ true
    → is_currency currency ≡ true
    → split_code (joined (kind_name kind) (joined id currency))
      ≡ kind_name kind ∷ id ∷ currency ∷ []
scoped-segments kind id currency h k =
    split_code-joined (kind_name kind) (joined id currency) (kind_name-plain kind)
    ∙ ap (λ l. kind_name kind ∷ l)
        (split_code-joined id currency (is_uuid-plain id h)
          ∙ ap (λ l. id ∷ l) (split_code-plain currency (currency-plain currency k)))

expected-scoped : (scope : AccountScope) → is_scoped scope ≡ true → expected_segments scope ≡ 3
expected-scoped player_scope h = refl
expected-scoped payment_method_scope h = refl
expected-scoped no_scope h = absurd (cc)

scope-none : (scope : AccountScope) → is_scoped scope ≡ false → scope ≡ no_scope
scope-none player_scope h = absurd (cc)
scope-none payment_method_scope h = absurd (cc)
scope-none no_scope h = refl

singleton-segments :
    (kind : LedgerAccountKind) (currency : Text)
    → is_currency currency ≡ true
    → split_code (joined (kind_name kind) currency) ≡ kind_name kind ∷ currency ∷ []
singleton-segments kind currency k =
    split_code-joined (kind_name kind) currency (kind_name-plain kind)
    ∙ ap (λ l. kind_name kind ∷ l) (split_code-plain currency (currency-plain currency k))

parse_segments-none :
    (code : Text) (kind : LedgerAccountKind) (currency : Text)
    → is_currency currency ≡ true
    → parse_segments code kind no_scope (kind_name kind ∷ currency ∷ [])
      ≡ ok (described code kind no_scope [] currency)
unfolding parse_segments assert_currency
parse_segments-none code kind currency k = cc

-- The code of an account that belongs to a player or a payment method is built from a uuid and a
-- currency, and the parser reads the kind, the owner and the currency back from it.
pub parse-scoped_code :
    (kind : LedgerAccountKind) (id currency : Text)
    → is_scoped (account_kind_spec kind).scope ≡ true
    → is_uuid id ≡ true
    → is_currency currency ≡ true
    → (code : Text) × (scoped_code kind id currency ≡ ok code)
      × (parse_account_code code
          ≡ ok (described code kind (account_kind_spec kind).scope id currency))
unfolding scoped_code assert_scope_id assert_currency parse_account_code
parse-scoped_code kind id currency s h k =
    let code = joined (kind_name kind) (joined id currency) in
    (
      code,
      cc (h, k),
      ap (λ l. parse_kind code l (kind_of_name (segment l 0)))
            (scoped-segments kind id currency h k)
          ∙ ap (parse_kind code (kind_name kind ∷ id ∷ currency ∷ [])) (kind_of_name-name kind)
          ∙ rw (expected-scoped (account_kind_spec kind).scope s)
              (parse_segments-scoped code kind (account_kind_spec kind).scope id currency s h k),
    )

-- The code of an account that the operator has once is built from a currency, and the parser reads the
-- kind and the currency back from it.
pub parse-singleton_code :
    (kind : LedgerAccountKind) (currency : Text)
    → is_scoped (account_kind_spec kind).scope ≡ false
    → is_currency currency ≡ true
    → (code : Text) × (singleton_code kind currency ≡ ok code)
      × (parse_account_code code ≡ ok (described code kind no_scope [] currency))
unfolding singleton_code assert_currency parse_account_code
parse-singleton_code kind currency s k =
    let code = joined (kind_name kind) currency in
    (
      code,
      cc (k),
      ap (λ l. parse_kind code l (kind_of_name (segment l 0))) (singleton-segments kind currency k)
          ∙ ap (parse_kind code (kind_name kind ∷ currency ∷ [])) (kind_of_name-name kind)
          ∙ rw (scope-none (account_kind_spec kind).scope s)
              (parse_segments-none code kind currency k),
    )
