-- ===== src/Ledger/Rules/Balance.antt =====
-- Every posting that a rule builds passes the validator.
use telegram_mini_app.Prelude.{true, false, [], ◌∷◌, ◌≡◌, refl, sym, ap, ◌∙◌, ◌≢◌, arith}
use telegram_mini_app.Prelude.Integers.{ℤ, pos, neg_ℤ, ◌<ℤ◌, leb_ℤ, int_laws, neg_ℤ_parts}
use telegram_mini_app.Prelude.Text.{Text, text, nonempty}
use telegram_mini_app.Types.{
  LedgerAccountKind, rail_clearing, player_liability, ichancy_agent_float, house_cash, Result, ok,
  chain_ok,
}
use telegram_mini_app.Ledger.AccountCodes.{scoped_code, singleton_code, kind_name}
use telegram_mini_app.Ledger.Posting.{Posting, by_code}
use telegram_mini_app.Ledger.Validation.{
  IsPosting, assert_valid_posting, assert_valid_posting_complete,
}
use telegram_mini_app.Ledger.Rules.{
  DepositApprovedInput, deposit_approved, IchancyCreditedInput, ichancy_credited, RailSettledInput,
  rail_settled, require_positive, rule,
}

scoped_code-nonempty :
    (kind : LedgerAccountKind) (scope currency : Text) {code : Text}
    → scoped_code kind scope currency ≡ ok code
    → nonempty code ≡ true
unfolding scoped_code kind_name
scoped_code-nonempty rail_clearing scope currency h = ground arith
scoped_code-nonempty kind scope currency h = ground arith

singleton_code-nonempty :
    (kind : LedgerAccountKind) (currency : Text) {code : Text}
    → singleton_code kind currency ≡ ok code
    → nonempty code ≡ true
unfolding singleton_code kind_name
singleton_code-nonempty rail_clearing currency h = ground arith
singleton_code-nonempty kind currency h = ground arith

-- Two sides of one amount.
two_sides-IsPosting :
    (p : Posting) (a b : Text) (amount : ℤ)
    → p.entries ≡ by_code a amount ∷ by_code b (neg_ℤ amount) ∷ []
    → nonempty a ≡ true
    → nonempty b ≡ true
    → leb_ℤ amount (pos 0) ≡ false
    → p.idempotency_key ≢ []
    → IsPosting p
two_sides-IsPosting p a b amount e na nb positive keyed = record {
  two_sides = rw e (omega arith);
  keyed = keyed;
  shaped = rw e (ground (arith, neg_ℤ_parts amount));
  balanced = rw e (omega int_laws);
}

-- A movement of `amount` from one coded account to another, accepted by the validator.
pub record Moves (p : Posting) (debited credited : Text) (amount : ℤ) : Type 0 where
  pub positive : pos 0 <ℤ amount
  pub sides : p.entries ≡ by_code debited amount ∷ by_code credited (neg_ℤ amount) ∷ []
  pub accepted : assert_valid_posting p ≡ ok tt

two_sided_move :
    (p : Posting) (a b : Text) (amount : ℤ)
    → p.entries ≡ by_code a amount ∷ by_code b (neg_ℤ amount) ∷ []
    → nonempty a ≡ true
    → nonempty b ≡ true
    → leb_ℤ amount (pos 0) ≡ false
    → p.idempotency_key ≢ []
    → Moves p a b amount
two_sided_move p a b amount e na nb positive keyed = record {
  positive = ground arith;
  sides = e;
  accepted =
      assert_valid_posting_complete p (two_sides-IsPosting p a b amount e na nb positive keyed);
}

-- A rule checks the amount, makes the two codes, and builds the posting from them.
rule-Moves :
    (amount : ℤ) (debit credit : Result Text) (build : ℤ → Text → Text → Posting) {p : Posting}
    → ((a : ℤ) (x y : Text) → (build a x y).entries ≡ by_code x a ∷ by_code y (neg_ℤ a) ∷ [])
    → ((a : ℤ) (x y : Text) → (build a x y).idempotency_key ≢ [])
    → ((x : Text) → debit ≡ ok x → nonempty x ≡ true)
    → ((y : Text) → credit ≡ ok y → nonempty y ≡ true)
    → rule amount debit credit build ≡ ok p
    → (x y : Text) × (debit ≡ ok x) × (credit ≡ ok y) × Moves p x y amount
unfolding rule require_positive
rule-Moves amount debit credit build {p} sides keyed named_x named_y h =
    let (a, checked, h₁) = chain_ok (require_positive amount) _ h in
    let (x, is_x, h₂) = chain_ok debit _ h₁ in
    let (y, is_y, h₃) = chain_ok credit _ h₂ in
    let same : a ≡ amount = ground arith in
    let built : build a x y ≡ p = cc in
    let entries : p.entries ≡ by_code x amount ∷ by_code y (neg_ℤ amount) ∷ [] =
      sym (ap (λ (q : Posting). q.entries) built)
      ∙ sides a x y
      ∙ ap (λ (b : ℤ). by_code x b ∷ by_code y (neg_ℤ b) ∷ []) same in
    (
      x,
      y,
      is_x,
      is_y,
      two_sided_move p x y amount entries (named_x x is_x) (named_y y is_y) (ground arith)
          (λ e. keyed a x y (ap (λ (q : Posting). q.idempotency_key) built ∙ e)),
    )

-- The claim posting (T1): whenever it is built it moves the amount, which is positive, from what we
-- owe the player to the rail's clearing account, and the validator accepts it.
pub deposit_approved-Moves :
    (input : DepositApprovedInput) {p : Posting}
    → deposit_approved input ≡ ok p
    → (clearing liability : Text) × (scoped_code rail_clearing input.payment_method_id
          input.currency
        ≡ ok clearing)
      × (scoped_code player_liability input.player_id input.currency ≡ ok liability)
      × Moves p clearing liability input.amount_minor
unfolding deposit_approved text rule
deposit_approved-Moves input h =
    rule-Moves input.amount_minor _ _ _ (λ a x y. refl) (λ a x y e. ground arith)
      (λ x. scoped_code-nonempty _ _ _) (λ y. scoped_code-nonempty _ _ _) h

-- The credit posting (T2): whenever it is built it moves the amount, which is positive, from the
-- agent float to the player's liability account, and the validator accepts it.
pub ichancy_credited-Moves :
    (input : IchancyCreditedInput) {p : Posting}
    → ichancy_credited input ≡ ok p
    → (liability float : Text) × (scoped_code player_liability input.player_id input.currency
        ≡ ok liability)
      × (singleton_code ichancy_agent_float input.currency ≡ ok float)
      × Moves p liability float input.amount_minor
unfolding ichancy_credited text rule
ichancy_credited-Moves input h =
    rule-Moves input.amount_minor _ _ _ (λ a x y. refl) (λ a x y e. ground arith)
      (λ x. scoped_code-nonempty _ _ _) (λ y. singleton_code-nonempty _ _) h

-- The settlement posting: whenever it is built it moves the amount, which is positive, from the
-- rail's clearing account to confirmed cash, and the validator accepts it.
pub rail_settled-Moves :
    (input : RailSettledInput) {p : Posting}
    → rail_settled input ≡ ok p
    → (cash clearing : Text) × (scoped_code house_cash input.payment_method_id input.currency
        ≡ ok cash)
      × (scoped_code rail_clearing input.payment_method_id input.currency ≡ ok clearing)
      × Moves p cash clearing input.amount_minor
unfolding rail_settled text rule
rail_settled-Moves input h =
    rule-Moves input.amount_minor _ _ _ (λ a x y. refl) (λ a x y e. ground arith)
      (λ x. scoped_code-nonempty _ _ _) (λ y. scoped_code-nonempty _ _ _) h
