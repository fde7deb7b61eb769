-- ===== src/Deposit/Proofs/Bits.antt =====
-- The distance of two hashes is the sum of the distances of their characters
-- (src/core/file/image.util.ts, `hammingDistanceHex`).
use telegram_mini_app.Prelude.{
  ℕ, zero, suc, ◌+◌, ◌*◌, ◌/◌, ◌%◌, ◌≤◌, ◌<◌, true, false, ◌==◌, if◌then◌else◌, ◌≡◌, refl, ap, ◌∙◌,
  arith,
}
use telegram_mini_app.Deposit.Proofs.{is_hex_digit, hex_digit, xor, count_ones}

-- In how many of their lowest `n` bits two numbers differ.
abbrev pub differing : ℕ → ℕ → ℕ → ℕ
differing zero a b = 0
differing (suc n) a b =
    let rest = differing n (a / 2) (b / 2) in (if a % 2 == b % 2 then 0 else 1) + rest

count_ones-zero : (n : ℕ) → count_ones n 0 ≡ 0
count_ones-zero zero = refl
count_ones-zero (suc n) = refl

count_ones-of_zero : (n x : ℕ) → x ≡ 0 → count_ones n x ≡ 0
count_ones-of_zero n x h = ap (count_ones n) h ∙ count_ones-zero n

-- The bit in which two numbers differ last.
abbrev unequal : ℕ → ℕ → ℕ
unequal a b = if a % 2 == b % 2 then 0 else 1

unequal_bound : (a b : ℕ) → unequal a b ≤ 1
unequal_bound a b = ground arith

count_ones-double :
    (n x bit : ℕ) → bit ≤ 1 → count_ones (suc n) (bit + 2 * x) ≡ bit + count_ones n x
count_ones-double n x bit h =
    let half : (bit + 2 * x) / 2 ≡ x = omega arith in
    ground (arith, ap (count_ones n) half, count_ones-of_zero n x)

pub count_ones-xor : (n a b : ℕ) → count_ones n (xor n a b) ≡ differing n a b
count_ones-xor zero a b = refl
count_ones-xor (suc n) a b =
    count_ones-double n (xor n (a / 2) (b / 2)) (unequal a b) (unequal_bound a b)
    ∙ ap (λ x. unequal a b + x) (count_ones-xor n (a / 2) (b / 2))

low : (a d : ℕ) → d < 16 → (a * 16 + d) % 2 ≡ d % 2
low a d h = omega arith

low_half : (a d : ℕ) → d < 16 → (a * 16 + d) / 2 % 2 ≡ d / 2 % 2
low_half a d h = omega arith

low_quarter : (a d : ℕ) → d < 16 → (a * 16 + d) / 2 / 2 % 2 ≡ d / 2 / 2 % 2
low_quarter a d h = omega arith

low_eighth : (a d : ℕ) → d < 16 → (a * 16 + d) / 2 / 2 / 2 % 2 ≡ d / 2 / 2 / 2 % 2
low_eighth a d h = omega arith

high : (a d : ℕ) → d < 16 → (a * 16 + d) / 2 / 2 / 2 / 2 ≡ a
high a d h = omega arith

shuffle : (p q r s t : ℕ) → p + (q + (r + (s + t))) ≡ t + (p + (q + (r + (s + 0))))
shuffle p q r s t = omega arith

-- Two numbers written in base 16.
pub differing-digit :
    (n a b d e : ℕ)
    → d < 16
    → e < 16
    → differing (suc (suc (suc (suc n)))) (a * 16 + d) (b * 16 + e)
      ≡ differing n a b + differing 4 d e
differing-digit n a b d e h k =
    rw
      (
        low a d h,
        low b e k,
        low_half a d h,
        low_half b e k,
        low_quarter a d h,
        low_quarter b e k,
        low_eighth a d h,
        low_eighth b e k,
        high a d h,
        high b e k,
      )
      (shuffle (unequal d e) (unequal (d / 2) (e / 2)) (unequal (d / 2 / 2) (e / 2 / 2))
        (unequal (d / 2 / 2 / 2) (e / 2 / 2 / 2)) (differing n a b))

pub differing-distinct : (d e : ℕ) → d < 16 → e < 16 → (d == e) ≡ false → 1 ≤ differing 4 d e
differing-distinct d e h k f = ground arith

pub hex_digit_bound : (c : ℕ) → is_hex_digit c ≡ true → hex_digit c < 16
hex_digit_bound c h = ground arith

pub hex_digit_injective :
    (c d : ℕ)
    → is_hex_digit c ≡ true
    → is_hex_digit d ≡ true
    → (c == d) ≡ false
    → (hex_digit c == hex_digit d) ≡ false
hex_digit_injective c d h k f = ground arith
