-- ===== src/Examples/Amounts.antt =====
-- The theorems on amounts, on the codes of accounts and on perceptual hashes at concrete inputs.
use telegram_mini_app.Prelude.{ℕ, ◌≤◌, true, some, arith, ◌≡◌, refl}
use telegram_mini_app.Prelude.Integers.{ℤ, pos, negsuc}
use telegram_mini_app.Prelude.Text.{Text, text}
use telegram_mini_app.Types.{player_liability, ok}
use telegram_mini_app.Money.Parse.{parse_decimal_to_minor}
use telegram_mini_app.Money.Format.{format_minor_to_decimal}
use telegram_mini_app.Money.RoundTrip.{parse-format}
use telegram_mini_app.Money.Divide.{half_even, half_up, divide_minor, apply_bps}
use telegram_mini_app.Money.Rounding.{IsRounded, divide_minor-IsRounded}
use telegram_mini_app.Money.Fees.{apply_bps_bounds}
use telegram_mini_app.Uuid.{is_uuid}
use telegram_mini_app.Ledger.AccountCodes.{
  scoped_code, parse_account_code, player_scope, is_currency,
}
use telegram_mini_app.Ledger.AccountCodes.RoundTrip.{described, parse-scoped_code}
use telegram_mini_app.Deposit.Proofs.{hamming_distance_hex, hash_bands, bands_from}
use telegram_mini_app.Deposit.Proofs.Bands.{shared_bands, hash_bands-shared}

-- -12.34 at the default scale.
parse-format_example :
    (printed : Text) × (format_minor_to_decimal (negsuc 1233) 2 ≡ ok printed)
    × (parse_decimal_to_minor printed 2 ≡ ok (negsuc 1233))
parse-format_example = parse-format (negsuc 1233) 2 (omega arith)

divide_minor-IsRounded_example :
    (q : ℤ) × (divide_minor (negsuc 24) (pos 10) half_even ≡ ok q)
    × IsRounded half_even (negsuc 24) 10 q
divide_minor-IsRounded_example = divide_minor-IsRounded (negsuc 24) 10 half_even (omega arith)

apply_bps_bounds_example :
    (fee : ℕ) × (apply_bps (pos 9999) (pos 250) half_up ≡ ok (pos fee)) × (fee ≤ 9999)
apply_bps_bounds_example = apply_bps_bounds 9999 250 half_up (omega arith)

abbrev player : Text
player = text "0f8fad5b-D9cb-469f-A165-70867728950e"

player_uuid : is_uuid player ≡ true
unfolding is_uuid text
player_uuid = refl

nsp_currency : is_currency (text "NSP") ≡ true
unfolding is_currency text
nsp_currency = refl

parse-scoped_code_example :
    (code : Text) × (scoped_code player_liability player (text "NSP") ≡ ok code)
    × (parse_account_code code
        ≡ ok (described code player_liability player_scope player (text "NSP")))
parse-scoped_code_example =
    parse-scoped_code player_liability player (text "NSP") refl player_uuid nsp_currency

abbrev hash : Text
hash = text "00ff00ff12345678"

abbrev near_hash : Text
near_hash = text "00fe00ff1234567b"

three_apart : hamming_distance_hex hash near_hash ≡ some 3
unfolding hamming_distance_hex text
three_apart = refl

hash_indexed : hash_bands hash ≡ some (bands_from 0 hash)
unfolding hash_bands text
hash_indexed = refl

near_indexed : hash_bands near_hash ≡ some (bands_from 0 near_hash)
unfolding hash_bands text
near_indexed = refl

hash_bands-shared_example : 2 ≤ shared_bands (bands_from 0 hash) (bands_from 0 near_hash)
hash_bands-shared_example =
    hash_bands-shared hash near_hash three_apart (omega arith) hash_indexed near_indexed
