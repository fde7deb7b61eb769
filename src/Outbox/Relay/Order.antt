-- ===== src/Outbox/Relay/Order.antt =====
-- A claim that may take one row takes one, if there is any to take (src/core/outbox/outbox.sql.ts,
-- `ORDER BY id LIMIT`): the first of them in the order of ids.
use telegram_mini_app.Prelude.{
  ℕ, zero, suc, ◌≤◌, ◌<◌, Bool, true, false, ◌&&◌, List, [], ◌∷◌, any, All, leb, ◌≡◌, refl, arith,
  Bool-cases, inl, inr, length,
}
use telegram_mini_app.Prelude.Text.{Text, text_lt, text_lt_trans}
use telegram_mini_app.Outbox.Table.{OutboxRow, row_id}
use telegram_mini_app.Outbox.Relay.Keys.{All-imply, any-none}
use telegram_mini_app.Outbox.Relay.{count_before, is_claimable, is_picked}

text_lt_irrefl : (s : Text) → text_lt s s ≡ false
unfolding text_lt
text_lt_irrefl [] = refl
text_lt_irrefl (c ∷ s) = ground (arith, text_lt_irrefl s)

module _ (p : OutboxRow → Bool) where
  count_before_mono :
      (a b : Text) (s : List OutboxRow)
      → text_lt a b ≡ true
      → count_before p a s ≤ count_before p b s
  count_before_mono a b [] h = omega arith
  count_before_mono a b (row ∷ s) h =
      ground (arith, count_before_mono a b s h, text_lt_trans (row_id row) a b)

  -- A row that comes before an id has fewer rows before it.
  count_before-lt :
      (b : Text) (s : List OutboxRow)
      → All
          (λ y.
            p y && text_lt (row_id y) b ≡ true → count_before p (row_id y) s < count_before p b s)
          s
  count_before-lt b [] = tt
  count_before-lt b (row ∷ s) = (
    λ e. ground (
      arith,
      text_lt_irrefl (row_id row),
      count_before_mono (row_id row) b s (ground (arith, e)),
    ),
    All-imply (λ y g e. ground (arith, g e, text_lt_trans (row_id row) (row_id y) b)) s
        (count_before-lt b s),
  )

  count_before-any :
      (b : Text) (s : List OutboxRow)
      → 1 ≤ count_before p b s
      → any (λ y. p y && text_lt (row_id y) b) s ≡ true
  count_before-any b [] h = absurd (omega arith)
  count_before-any b (row ∷ s) h = ground (arith, count_before-any b s)

  any-imply :
      (q r : OutboxRow → Bool) (s : List OutboxRow)
      → All (λ y. q y ≡ true → r y ≡ true) s
      → any q s ≡ true
      → any r s ≡ true
  any-imply q r [] h e = e
  any-imply q r (row ∷ s) h e = ground (arith, h.0, any-imply q r s h.1)

  any-witness :
      {R : OutboxRow → Type 0} (q : OutboxRow → Bool) (s : List OutboxRow)
      → any q s ≡ true
      → All R s
      → (y : OutboxRow) × (q y ≡ true) × R y
  any-witness q [] h k = absurd (cc)
  any-witness q (row ∷ s) h k = elim (Bool-cases (q row)) [
    | inl e ↦ (row, e, k.0)
    | inr e ↦ any-witness q s (ground arith) k.1
  ]

  -- Some row of the table that passes the test has at most `n` others before it.
  abbrev has_early : ℕ → List OutboxRow → Bool
  has_early n table = any (λ y. p y && leb (count_before p (row_id y) table) n) table

  earlier :
      (n : ℕ) (table : List OutboxRow) → has_early (suc n) table ≡ true → has_early n table ≡ true
  earlier n table h = elim (Bool-cases (has_early n table)) [
    | inl e ↦ e
    | inr e ↦
        let (y, q, late) =
          any-witness (λ y. p y && leb (count_before p (row_id y) table) (suc n)) table h
            (any-none (λ y. p y && leb (count_before p (row_id y) table) n) table e) in
        any-imply (λ z. p z && text_lt (row_id z) (row_id y))
          (λ z. p z && leb (count_before p (row_id z) table) n) table
          (All-imply (λ z g e. ground (arith, g e)) table (count_before-lt (row_id y) table))
          (count_before-any (row_id y) table (ground arith))
  ]

  earliest : (n : ℕ) (table : List OutboxRow) → has_early n table ≡ true → has_early 0 table ≡ true
  earliest zero table h = h
  earliest (suc n) table h = earliest n table (earlier n table h)

count_before-length :
    (p : OutboxRow → Bool) (b : Text) (s : List OutboxRow) → count_before p b s ≤ length s
count_before-length p b [] = omega arith
count_before-length p b (row ∷ s) = ground (arith, count_before-length p b s)

each : {R : OutboxRow → Type 0} → ((y : OutboxRow) → R y) → (s : List OutboxRow) → All R s
each f [] = tt
each f (y ∷ s) = (f y, each f s)

-- The claim takes a row whenever one is due.
pub claimable-picked :
    (now limit : ℕ) (locked : Text → Bool) (table : List OutboxRow)
    → 1 ≤ limit
    → any (is_claimable now locked) table ≡ true
    → any (is_picked now limit locked table) table ≡ true
claimable-picked now limit locked table h k =
    let p = is_claimable now locked in
    let early = earliest p (length table) table (
      any-imply p p (λ y. p y && leb (count_before p (row_id y) table) (length table)) table
        (each (λ y e. ground (arith, count_before-length p (row_id y) table)) table) k) in
    any-imply p (λ y. p y && leb (count_before p (row_id y) table) 0)
      (is_picked now limit locked table) table (each (λ y e. ground arith) table) early
