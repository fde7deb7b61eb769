-- ===== src/Deposit/Proofs/Bands.antt =====
-- Two hashes within the tolerated distance share bands (src/core/file/image.util.ts and
-- src/modules/deposit/services/proof-duplicate.service.ts).
use telegram_mini_app.Prelude.{
  ℕ, zero, suc, ◌+◌, ◌*◌, ◌≤◌, Bool, true, false, ◌&&◌, List, [], ◌∷◌, ◌++◌, some, none, all,
  length, ◌==◌, if◌then◌else◌, ◌≡◌, refl, sym, ap, ◌∙◌, arith, ==_iff,
}
use mathlib.Core.Path.{subst₂}
use telegram_mini_app.Prelude.Text.{Text, text_eq}
use telegram_mini_app.Prelude.Decimal.{decimal}
use telegram_mini_app.Deposit.Proofs.{
  is_hex_digit, hex_digit, hex_value, xor, count_ones, is_perceptual_hash, hamming_distance_hex,
  bands_from, hash_bands, proof_duplicate_max_distance,
}
use telegram_mini_app.Deposit.Proofs.Bits.{
  differing, count_ones-xor, differing-digit, differing-distinct, hex_digit_bound,
  hex_digit_injective,
}

-- In how many bits two characters differ.
unfoldable char_apart : ℕ → ℕ → ℕ
char_apart c d = differing 4 (hex_digit c) (hex_digit d)

-- How far two texts of the same length are apart, character by character.
abbrev apart : Text → Text → ℕ
apart [] t = 0
apart (c ∷ s) [] = 0
apart (c ∷ s) (d ∷ t) = char_apart c d + apart s t

-- How many bands, place by place, two hashes share.
abbrev pub shared_bands : List Text → List Text → ℕ
shared_bands [] t = 0
shared_bands (x ∷ s) [] = 0
shared_bands (x ∷ s) (y ∷ t) = let rest = shared_bands s t in if text_eq x y then suc rest else rest

abbrev quads : ℕ → Text → ℕ
quads n [] = n
quads n (c ∷ s) = quads (suc (suc (suc (suc n)))) s

both : (p q : Bool) → p && q ≡ true → (p ≡ true) × (q ≡ true)
both true q h = (refl, h)
both false q h = absurd (cc)

zero_add : (x : ℕ) → 0 + x ≡ x
zero_add x = omega arith

+-assoc : (x y z : ℕ) → (x + y) + z ≡ x + (y + z)
+-assoc x y z = omega arith

differing-apart :
    (n a b : ℕ) (s t : Text)
    → length s ≡ length t
    → all is_hex_digit s ≡ true
    → all is_hex_digit t ≡ true
    → differing (quads n s) (hex_value a s) (hex_value b t) ≡ differing n a b + apart s t
unfolding char_apart
differing-apart n a b [] [] h k l = omega arith
differing-apart n a b [] (d ∷ t) h k l = absurd (omega arith)
differing-apart n a b (c ∷ s) [] h k l = absurd (omega arith)
differing-apart n a b (c ∷ s) (d ∷ t) h k l =
    let (hc, hs) = both (is_hex_digit c) (all is_hex_digit s) k in
    let (hd, ht) = both (is_hex_digit d) (all is_hex_digit t) l in
    let rest =
      differing-apart (suc (suc (suc (suc n)))) (a * 16 + hex_digit c) (b * 16 + hex_digit d) s t
        (omega (arith, h)) hs ht in
    rest
    ∙ ap (λ x. x + apart s t)
        (differing-digit n a b (hex_digit c) (hex_digit d) (hex_digit_bound c hc)
          (hex_digit_bound d hd))
    ∙ +-assoc (differing n a b) (char_apart c d) (apart s t)

-- A pair of characters is apart unless it is one pair.
pair_apart :
    (c d : ℕ)
    → is_hex_digit c ≡ true
    → is_hex_digit d ≡ true
    → (c == d) ≡ false
    → 1 ≤ char_apart c d
unfolding char_apart
pair_apart c d h k e =
    differing-distinct (hex_digit c) (hex_digit d) (hex_digit_bound c h) (hex_digit_bound d k)
      (hex_digit_injective c d h k e)

behind : (p x y : Text) → text_eq (p ++ x) (p ++ y) ≡ text_eq x y
unfolding text_eq
behind [] x y = refl
behind (c ∷ p) x y = ground (arith, behind p x y)

-- Every band is shared, or its characters are apart.
bands_or_apart :
    (i : ℕ) (s t : Text)
    → length s ≡ length t
    → all is_hex_digit s ≡ true
    → all is_hex_digit t ≡ true
    → length (bands_from i s) ≤ shared_bands (bands_from i s) (bands_from i t) + apart s t
unfolding text_eq
bands_or_apart i [] t h k l = omega arith
bands_or_apart i (c ∷ []) t h k l = omega arith
bands_or_apart i (c ∷ (d ∷ s)) [] h k l = absurd (omega arith)
bands_or_apart i (c ∷ (d ∷ s)) (e ∷ []) h k l = absurd (omega arith)
bands_or_apart i (c ∷ (d ∷ s)) (e ∷ (f ∷ t)) h k l =
    let (hc, k') = both (is_hex_digit c) (all is_hex_digit (d ∷ s)) k in
    let (hd, ks) = both (is_hex_digit d) (all is_hex_digit s) k' in
    let (he, l') = both (is_hex_digit e) (all is_hex_digit (f ∷ t)) l in
    let (hf, lt) = both (is_hex_digit f) (all is_hex_digit t) l' in
    let rest = bands_or_apart (suc i) s t (omega (arith, h)) ks lt in
    ground (
      arith,
      rest,
      behind (decimal i) (b':' ∷ (c ∷ (d ∷ []))) (b':' ∷ (e ∷ (f ∷ []))),
      pair_apart c e hc he,
      pair_apart d f hd hf,
    )

length-bands_from : (i n : ℕ) (s : Text) → length s ≡ n * 2 → length (bands_from i s) ≡ n
length-bands_from i zero [] h = refl
length-bands_from i (suc n) [] h = absurd (omega arith)
length-bands_from i n (c ∷ []) h = absurd (omega arith)
length-bands_from i zero (c ∷ (d ∷ s)) h = absurd (omega arith)
length-bands_from i (suc n) (c ∷ (d ∷ s)) h =
    ap suc (length-bands_from (suc i) n s (omega (arith, h)))

quads-length : (n : ℕ) (s : Text) → quads n s ≡ n + length s * 4
quads-length n [] = omega arith
quads-length n (c ∷ s) = omega (arith, quads-length (suc (suc (suc (suc n)))) s)

-- On as many bits as the texts have, the counted distance is theirs.
distance_apart :
    (n : ℕ) (a b : Text)
    → n ≡ quads 0 a
    → length a ≡ length b
    → all is_hex_digit a ≡ true
    → all is_hex_digit b ≡ true
    → count_ones n (xor n (hex_value 0 a) (hex_value 0 b)) ≡ apart a b
distance_apart n a b e l h k =
    count_ones-xor n (hex_value 0 a) (hex_value 0 b)
    ∙ ap (λ m. differing m (hex_value 0 a) (hex_value 0 b)) e
    ∙ differing-apart 0 0 0 a b l h k
    ∙ zero_add (apart a b)

valid : (a : Text) → is_perceptual_hash a ≡ true → (length a ≡ 16) × (all is_hex_digit a ≡ true)
valid a h =
    let (l, d) = both (length a == 16) (all is_hex_digit a) h in ((==_iff (length a) 16).0 l, d)

bands_of :
    (a : Text) {bands : List Text}
    → hash_bands a ≡ some bands
    → (is_perceptual_hash a ≡ true) × (bands_from 0 a ≡ bands)
unfolding hash_bands
bands_of a {bands} h = guarded (is_perceptual_hash a) h
  where
    guarded :
        (p : Bool)
        → (if p then some (bands_from 0 a) else none) ≡ some bands
        → (p ≡ true) × (bands_from 0 a ≡ bands)
    guarded true h = (refl, cc)
    guarded false h = absurd (cc)

distance_of :
    (a b : Text) {distance : ℕ}
    → is_perceptual_hash a ≡ true
    → is_perceptual_hash b ≡ true
    → hamming_distance_hex a b ≡ some distance
    → count_ones 64 (xor 64 (hex_value 0 a) (hex_value 0 b)) ≡ distance
unfolding hamming_distance_hex
distance_of a b {distance} va vb h =
    guarded (is_perceptual_hash a && is_perceptual_hash b) (cc (va, vb))
      (count_ones 64 (xor 64 (hex_value 0 a) (hex_value 0 b))) h
  where
    guarded :
        (p : Bool)
        → p ≡ true
        → (x : ℕ) → (if p then some x else none) ≡ some distance
        → x ≡ distance
    guarded true e x h = cc
    guarded false e x h = absurd (cc)

-- Two hashes that are no more than six bits apart are indexed under at least two common bands, so that
-- a lookup by bands misses no hash within the tolerated distance.
pub hash_bands-shared :
    (a b : Text) {distance : ℕ} {bands others : List Text}
    → hamming_distance_hex a b ≡ some distance
    → distance ≤ proof_duplicate_max_distance
    → hash_bands a ≡ some bands
    → hash_bands b ≡ some others
    → 2 ≤ shared_bands bands others
unfolding hamming_distance_hex hash_bands
hash_bands-shared a b {distance} {bands} {others} h l k m =
    let (va, ea) = bands_of a k in
    let (vb, eb) = bands_of b m in
    let (la, ha) = valid a va in
    let (lb, hb) = valid b vb in
    let same = la ∙ sym lb in
    let near : apart a b ≡ distance =
      sym (distance_apart 64 a b (omega (arith, quads-length 0 a, la)) same ha hb)
      ∙ distance_of a b va vb h in
    let all_bands = length-bands_from 0 8 a la in
    subst₂ (λ x y. 2 ≤ shared_bands x y) ea eb
      (omega (arith, bands_or_apart 0 a b same ha hb, all_bands, near))
