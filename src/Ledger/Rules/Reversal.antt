-- ===== src/Ledger/Rules/Reversal.antt =====
-- A reversal is the mirror image of what it reverses.
use telegram_mini_app.Prelude.{
  suc, ◌≤◌, Bool, true, not, ◌&&◌, List, [], ◌∷◌, map, length, all, leb, if◌then◌else◌, ◌≡◌, refl,
  ap, ◌∙◌, arith, Bool-cases, inl, inr,
}
use telegram_mini_app.Prelude.Integers.{
  ℤ, pos, ◌+ℤ◌, neg_ℤ, eqb_ℤ, sum_ℤ, int_laws, neg_ℤ_parts, parts_of_eq,
}
use telegram_mini_app.Prelude.Text.{Text, text, nonempty, text_eq, is_text}
use telegram_mini_app.Types.{ok}
use telegram_mini_app.Ledger.Posting.{Posting, PostingEntry, amounts}
use telegram_mini_app.Ledger.Validation.{
  has_shape, assert_valid_posting, assert_valid_posting_complete,
}
use telegram_mini_app.Ledger.Rules.{
  ReversibleEntry, ReversalInput, insert_by_sequence, sort_by_sequence, mirror, reversal,
  reversal_of, reversal_posting,
}

abbrev pub entry_sum : List ReversibleEntry → ℤ
entry_sum es = sum_ℤ (map (λ (e : ReversibleEntry). e.amount_minor) es)

-- A movement on a named account.
abbrev pub is_movement : ReversibleEntry → Bool
is_movement e = nonempty e.ledger_account_id && not (eqb_ℤ e.amount_minor (pos 0))

mirrored_sum-insert :
    (e : ReversibleEntry) (es : List ReversibleEntry)
    → sum_ℤ (amounts (map mirror (insert_by_sequence e es)))
      ≡ neg_ℤ e.amount_minor +ℤ sum_ℤ (amounts (map mirror es))
mirrored_sum-insert e [] = refl
mirrored_sum-insert e (f ∷ es) = elim (Bool-cases (leb e.sequence f.sequence)) [
  | inl le ↦ rw le
  | inr gt ↦ rw gt (rw (mirrored_sum-insert e es) (omega int_laws))
]

mirrored_sum-sort :
    (es : List ReversibleEntry)
    → sum_ℤ (amounts (map mirror (sort_by_sequence es))) ≡ neg_ℤ (entry_sum es)
mirrored_sum-sort [] = omega int_laws
mirrored_sum-sort (e ∷ es) =
    mirrored_sum-insert e (sort_by_sequence es) ∙ rw (mirrored_sum-sort es) (omega int_laws)

length-insert :
    (e : ReversibleEntry) (es : List ReversibleEntry)
    → length (map mirror (insert_by_sequence e es)) ≡ suc (length es)
length-insert e [] = refl
length-insert e (f ∷ es) = ground (arith, length-insert e es, length-map es)
  where
    length-map : (es : List ReversibleEntry) → length (map mirror es) ≡ length es
    length-map [] = refl
    length-map (e ∷ es) = ap suc (length-map es)

length-sort : (es : List ReversibleEntry) → length (map mirror (sort_by_sequence es)) ≡ length es
length-sort [] = refl
length-sort (e ∷ es) = length-insert e (sort_by_sequence es) ∙ ap suc (plain es)
  where
    insert_one :
        (e : ReversibleEntry) (es : List ReversibleEntry)
        → length (insert_by_sequence e es) ≡ suc (length es)
    insert_one e [] = refl
    insert_one e (f ∷ es) = ground (arith, insert_one e es)

    plain : (es : List ReversibleEntry) → length (sort_by_sequence es) ≡ length es
    plain [] = refl
    plain (e ∷ es) = insert_one e (sort_by_sequence es) ∙ ap suc (plain es)

shape-mirror : (e : ReversibleEntry) → is_movement e ≡ true → has_shape (mirror e) ≡ true
shape-mirror e h = ground (arith, neg_ℤ_parts e.amount_minor)

shapes-insert :
    (e : ReversibleEntry) (es : List ReversibleEntry)
    → is_movement e ≡ true
    → all has_shape (map mirror es) ≡ true
    → all has_shape (map mirror (insert_by_sequence e es)) ≡ true
shapes-insert e [] h k = rw (shape-mirror e h)
shapes-insert e (f ∷ es) h k = elim (Bool-cases (leb e.sequence f.sequence)) [
  | inl le ↦ rw le (rw (shape-mirror e h) k)
  | inr gt ↦ rw gt (ground (arith, shapes-insert e es h))
]

shapes-sort :
    (es : List ReversibleEntry)
    → all is_movement es ≡ true
    → all has_shape (map mirror (sort_by_sequence es)) ≡ true
shapes-sort [] h = refl
shapes-sort (e ∷ es) h =
    shapes-insert e (sort_by_sequence es) (ground arith) (shapes-sort es (ground arith))

-- What the original moved on one account, and what a posting by account ids moves on it.
abbrev pub net_on : Text → List ReversibleEntry → ℤ
net_on id [] = pos 0
net_on id (e ∷ es) =
    (if text_eq e.ledger_account_id id then e.amount_minor else pos 0) +ℤ net_on id es

abbrev pub posted_on : Text → List PostingEntry → ℤ
posted_on id [] = pos 0
posted_on id (e ∷ es) =
    (if is_text e.account_id id then e.amount_minor else pos 0) +ℤ posted_on id es

posted_on-insert :
    (id : Text) (e : ReversibleEntry) (es : List ReversibleEntry)
    → posted_on id (map mirror (insert_by_sequence e es)) ≡ posted_on id (mirror e ∷ map mirror es)
posted_on-insert id e [] = refl
posted_on-insert id e (f ∷ es) = elim (Bool-cases (leb e.sequence f.sequence)) [
  | inl le ↦ rw le
  | inr gt ↦ rw gt (rw (posted_on-insert id e es) (omega int_laws))
]

posted_on-sort :
    (id : Text) (es : List ReversibleEntry)
    → posted_on id (map mirror (sort_by_sequence es)) +ℤ net_on id es ≡ pos 0
posted_on-sort id [] = omega int_laws
posted_on-sort id (e ∷ es) =
    rw (posted_on-insert id e (sort_by_sequence es))
      (elim (Bool-cases (text_eq e.ledger_account_id id)) [
        | inl on ↦ rw on (omega (int_laws, parts_of_eq (posted_on-sort id es)))
        | inr off ↦ rw off (omega (int_laws, parts_of_eq (posted_on-sort id es)))
      ])

-- The reversal of a balanced transaction of two or more movements is built, the validator accepts
-- it, and on every account it takes back exactly what the transaction moved there.
pub reversal_cancels :
    (input : ReversalInput)
    → 2 ≤ length input.entries
    → all is_movement input.entries ≡ true
    → entry_sum input.entries ≡ pos 0
    → (p : Posting) × (reversal input ≡ ok p)
      × (assert_valid_posting p ≡ ok tt)
      × ((id : Text) → posted_on id p.entries +ℤ net_on id input.entries ≡ pos 0)
unfolding reversal text
reversal_cancels input two moved balanced = (
  reversal_posting input,
  reversal_of-ok input input.entries two,
  assert_valid_posting_complete (reversal_posting input) (record {
    two_sides = rw (length-sort input.entries) two;
    keyed = λ e. ground arith;
    shaped = shapes-sort input.entries moved;
    balanced = mirrored_sum-sort input.entries ∙ rw balanced (omega int_laws);
  }),
  λ id. posted_on-sort id input.entries,
)
  where
    reversal_of-ok :
        (input : ReversalInput) (es : List ReversibleEntry)
        → 2 ≤ length es
        → reversal_of input es ≡ ok (reversal_posting input)
    reversal_of-ok input [] h = absurd (omega arith)
    reversal_of-ok input (e ∷ es) h = refl
