-- ===== src/Ledger/Validation.antt =====
-- The structural check of a posting: src/core/ledger/posting-validation.ts.
use telegram_mini_app.Prelude.{
  ℕ, Bool, true, false, not, ◌&&◌, List, [], ◌∷◌, Option, none, some, length, all, ltb, ◌==◌,
  if◌then◌else◌, ◌≡◌, refl, ◌≢◌, ◌≤◌, ap, arith,
}
use telegram_mini_app.Prelude.Integers.{pos, eqb_ℤ, eqb_ℤ_iff, sum_ℤ}
use telegram_mini_app.Prelude.Text.{Text, nonempty}
use telegram_mini_app.Types.{
  Error, ledger_error, empty_posting, single_sided, missing_account_ref, zero_amount_entry,
  unbalanced, Result, ok, err,
}
use telegram_mini_app.Ledger.Posting.{Posting, PostingEntry, amounts}

abbrev pub min_posting_entries : ℕ
min_posting_entries = 2

infixl 5 ◌>>=◌ ◌>>◌
abbrev ◌>>=◌ : {A B : Type 0} → Result A → (A → Result B) → Result B
m >>= f = elim m [ ok a ↦ f a | err e ↦ err e ]

abbrev ◌>>◌ : {B : Type 0} → Result (Unit {0}) → Result B → Result B
m >> k = m >>= λ _. k

abbrev throw_if : Bool → Error → Result (Unit {0})
throw_if b e = if b then err e else ok tt

abbrev is_named : Option Text → Bool
is_named none = false
is_named (some t) = nonempty t

abbrev same_bool : Bool → Bool → Bool
same_bool true b = b
same_bool false b = not b

unfoldable pub assert_zero_sum : List PostingEntry → Result (Unit {0})
assert_zero_sum entries =
    throw_if (not (eqb_ℤ (sum_ℤ (amounts entries)) (pos 0))) (ledger_error unbalanced)

unfoldable pub assert_entry_shape : PostingEntry → Result (Unit {0})
assert_entry_shape e = do
  throw_if (same_bool (is_named e.account_id) (is_named e.account_code))
      (ledger_error missing_account_ref)
  throw_if (eqb_ℤ e.amount_minor (pos 0)) (ledger_error zero_amount_entry)

-- `posting.entries.forEach(assertEntryShape)`.
unfoldable pub assert_shapes : List PostingEntry → Result (Unit {0})
unfolding assert_entry_shape
assert_shapes [] = ok tt
assert_shapes (e ∷ es) = let rest = assert_shapes es in assert_entry_shape e >> rest

unfoldable pub assert_valid_posting : Posting → Result (Unit {0})
unfolding assert_shapes assert_zero_sum
assert_valid_posting p = do
  throw_if (length p.entries == 0) (ledger_error empty_posting)
  throw_if (ltb (length p.entries) min_posting_entries) (ledger_error single_sided)
  throw_if (length p.idempotency_key == 0) (ledger_error missing_account_ref)
  assert_shapes p.entries
  assert_zero_sum p.entries

-- An entry that moves something on exactly one named account.
abbrev pub has_shape : PostingEntry → Bool
has_shape e =
    not (same_bool (is_named e.account_id) (is_named e.account_code))
    && not (eqb_ℤ e.amount_minor (pos 0))

-- What the validator accepts.
pub record IsPosting (p : Posting) : Type 0 where
  pub two_sides : 2 ≤ length p.entries
  pub keyed : p.idempotency_key ≢ []
  pub shaped : all has_shape p.entries ≡ true
  pub balanced : sum_ℤ (amounts p.entries) ≡ pos 0

assert_shapes_ok : (es : List PostingEntry) → all has_shape es ≡ true → assert_shapes es ≡ ok tt
unfolding assert_shapes
assert_shapes_ok [] h = refl
assert_shapes_ok (e ∷ es) h = ground (arith, assert_shapes_ok es)

assert_shapes-all : (es : List PostingEntry) → assert_shapes es ≡ ok tt → all has_shape es ≡ true
unfolding assert_shapes
assert_shapes-all [] h = refl
assert_shapes-all (e ∷ es) h = ground (arith, assert_shapes-all es)

pub assert_valid_posting_complete : (p : Posting) → IsPosting p → assert_valid_posting p ≡ ok tt
unfolding assert_valid_posting
assert_valid_posting_complete p v =
    ground
      (arith, assert_shapes_ok p.entries v.shaped, eqb_ℤ_iff (sum_ℤ (amounts p.entries)) (pos 0))

assert_valid_posting_sound : (p : Posting) → assert_valid_posting p ≡ ok tt → IsPosting p
unfolding assert_valid_posting
assert_valid_posting_sound p h = record {
  two_sides = ground arith;
  keyed = λ e. ground (arith, ap length e);
  shaped = ground (arith, assert_shapes-all p.entries);
  balanced = ground (arith, eqb_ℤ_iff (sum_ℤ (amounts p.entries)) (pos 0));
}

-- The validator accepts exactly the postings with a key and at least two entries, each of which
-- names one account, by id or by code, and moves something, and whose amounts add up to zero.
pub assert_valid_posting_lem :
    (p : Posting)
    → (assert_valid_posting p ≡ ok tt → IsPosting p)
      × (IsPosting p → assert_valid_posting p ≡ ok tt)
assert_valid_posting_lem p = (assert_valid_posting_sound p, assert_valid_posting_complete p)
