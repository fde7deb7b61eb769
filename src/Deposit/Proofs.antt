-- ===== src/Deposit/Proofs.antt =====
-- The perceptual hashes of payment proofs (src/core/file/image.util.ts) as the duplicate check uses
-- them (src/modules/deposit/services/proof-duplicate.service.ts): the distance of two hashes, and the
-- bands under which a hash is indexed. How an image is hashed is not modelled.
pub mod Bits
pub mod Bands
use telegram_mini_app.Prelude.{
  ℕ, zero, suc, ◌+◌, ◌-◌, ◌*◌, ◌/◌, ◌%◌, Bool, true, false, ◌&&◌, ◌||◌, List, [], ◌∷◌, ◌++◌, Option,
  none, some, all, length, leb, ◌==◌, if◌then◌else◌,
}
use telegram_mini_app.Prelude.Text.{Text, text}
use telegram_mini_app.Prelude.Decimal.{decimal, is_digit}

abbrev pub perceptual_hash_hex_length : ℕ
perceptual_hash_hex_length = 16

abbrev pub proof_hash_band_count : ℕ
proof_hash_band_count = 8

abbrev pub proof_duplicate_max_distance : ℕ
proof_duplicate_max_distance = 6

-- `HEX64`: sixteen lowercase hexadecimal characters.
abbrev pub is_hex_digit : ℕ → Bool
is_hex_digit c = is_digit c || (leb b'a' c && leb c b'f')

abbrev pub is_perceptual_hash : Text → Bool
is_perceptual_hash hash = (length hash == perceptual_hash_hex_length) && all is_hex_digit hash

abbrev pub hex_digit : ℕ → ℕ
hex_digit c = if is_digit c then c - b'0' else (c - b'a' + 10)

-- `BigInt('0x…')` of the characters, after those that `acc` stands for.
abbrev pub hex_value : ℕ → Text → ℕ
hex_value acc [] = acc
hex_value acc (c ∷ s) = hex_value (acc * 16 + hex_digit c) s

-- `a ^ b` on numbers of `n` bits.
abbrev pub xor : ℕ → ℕ → ℕ → ℕ
xor zero a b = 0
xor (suc n) a b = let rest = xor n (a / 2) (b / 2) in (if a % 2 == b % 2 then 0 else 1) + 2 * rest

-- The loop that counts the ones of a number of at most `n` bits.
abbrev pub count_ones : ℕ → ℕ → ℕ
count_ones zero x = 0
count_ones (suc n) x = let rest = count_ones n (x / 2) in if x == 0 then 0 else (x % 2 + rest)

-- `none` where a text is no perceptual hash. A hash has 64 bits, so that 64 rounds are enough.
unfoldable pub hamming_distance_hex : Text → Text → Option ℕ
hamming_distance_hex a b =
    if is_perceptual_hash a && is_perceptual_hash b
    then some (count_ones 64 (xor 64 (hex_value 0 a) (hex_value 0 b)))
    else none

-- The slices of two characters, each behind its index.
abbrev pub bands_from : ℕ → Text → List Text
bands_from index [] = []
bands_from index (c ∷ []) = []
bands_from index (c ∷ (d ∷ s)) =
    (decimal index ++ (b':' ∷ (c ∷ (d ∷ [])))) ∷ bands_from (suc index) s

-- `hashBands` with eight bands.
unfoldable pub hash_bands : Text → Option (List Text)
hash_bands hash = if is_perceptual_hash hash then some (bands_from 0 hash) else none
