-- ===== src/Outbox/Relay/Keys.antt =====
-- Statements that name rows by their ids, on a table with a primary key: they touch the rows that were
-- chosen, and no other (src/core/outbox/outbox-relay.service.ts, src/core/outbox/outbox.sql.ts).
use telegram_mini_app.Prelude.{
  Bool, true, false, List, [], ◌∷◌, map, map_where, keep, any, All, ◌≡◌, refl, sym, arith, if-cases,
  Bool-cases, inl, inr,
}
use telegram_mini_app.Prelude.Text.{text_eq_iff, text_eq_refl}
use telegram_mini_app.Outbox.Table.{OutboxRow, row_id, same_id, IsKeyed}
use telegram_mini_app.Outbox.Relay.{has_id}

module _ {ℓ κ μ} {A : Type ℓ} {P : A → Type κ} {Q : A → Type μ} where
  pub All-imply : ((a : A) → P a → Q a) → (xs : List A) → All P xs → All Q xs
  All-imply f [] h = tt
  All-imply f (x ∷ xs) h = (f x h.0, All-imply f xs h.1)

pub All-both {ℓ κ μ ν} :
    {A : Type ℓ} {P : A → Type κ} {Q : A → Type μ} {R : A → Type ν}
    → ((a : A) → P a → Q a → R a)
    → (xs : List A) → All P xs
    → All Q xs
    → All R xs
All-both f [] h k = tt
All-both f (x ∷ xs) h k = (f x h.0 k.0, All-both f xs h.1 k.1)

module _ {ℓ} {A : Type ℓ} where
  pub All-keep {κ} : (P : A → Type κ) (p : A → Bool) (xs : List A) → All P xs → All P (keep p xs)
  All-keep P p [] h = tt
  All-keep P p (x ∷ xs) h =
      if-cases (All P) (p x) (λ e. (h.0, All-keep P p xs h.1)) (λ e. All-keep P p xs h.1)

  pub any-none : (p : A → Bool) (xs : List A) → any p xs ≡ false → All (λ x. p x ≡ false) xs
  any-none p [] h = tt
  any-none p (x ∷ xs) h = (ground arith, any-none p xs (ground arith))

  pub map_where-cong :
      (p q : A → Bool) (f : A → A) (xs : List A)
      → All (λ x. p x ≡ q x) xs
      → map_where p f xs ≡ map_where q f xs
  map_where-cong p q f [] h = refl
  map_where-cong p q f (x ∷ xs) h = cc (h.0, map_where-cong p q f xs h.1)

  -- Two updates in a row, the second of which reaches what the first has changed.
  pub map_where-map_where :
      (p q : A → Bool) (f g : A → A)
      → ((x : A) → q (f x) ≡ q x)
      → (xs : List A) → All (λ x. q x ≡ p x) xs
      → map_where q g (map_where p f xs) ≡ map_where p (λ x. g (f x)) xs
  map_where-map_where p q f g k [] h = refl
  map_where-map_where p q f g k (x ∷ xs) h =
      ground (arith, h.0, k x, map_where-map_where p q f g k xs h.1)

-- A row of the table is named by an id only if it is that row.
abbrev pub IsSole : List OutboxRow → OutboxRow → Type 0
IsSole table row = All (λ y. same_id row y ≡ true → row ≡ y) table

same_id_sym : (x y : OutboxRow) → same_id x y ≡ true → same_id y x ≡ true
same_id_sym x y h =
    (text_eq_iff (row_id y) (row_id x)).1 (sym ((text_eq_iff (row_id x) (row_id y)).0 h))

-- No row of the rest has the id of the first.
apart :
    (x : OutboxRow) (xs : List OutboxRow)
    → any (same_id x) xs ≡ false
    → All (λ y. same_id y x ≡ false) xs
apart x xs h = All-imply (λ y e. not-same x y e) xs (any-none (same_id x) xs h)
  where
    not-same : (x y : OutboxRow) → same_id x y ≡ false → same_id y x ≡ false
    not-same x y e = elim (Bool-cases (same_id y x)) [
      | inl t ↦ absurd (cc (same_id_sym y x t))
      | inr f ↦ f
    ]

pub IsKeyed-IsSole : (table : List OutboxRow) → IsKeyed table → All (IsSole table) table
IsKeyed-IsSole [] h = tt
IsKeyed-IsSole (x ∷ xs) h = (
  (λ e. refl, All-imply (λ y e f. absurd (cc)) xs (any-none (same_id x) xs h.0)),
  All-both (λ y d rest. (λ e. absurd (cc), rest)) xs (apart x xs h.0) (IsKeyed-IsSole xs h.1),
)

has_id-none :
    (x : OutboxRow) (ys : List OutboxRow)
    → All (λ y. same_id x y ≡ false) ys
    → has_id (map row_id ys) x ≡ false
has_id-none x [] h = refl
has_id-none x (y ∷ ys) h = ground (arith, h.0, has_id-none x ys h.1)

-- The ids of the rows that pass a test name the rows that pass it.
pub has_id-keep :
    (p : OutboxRow → Bool) (table : List OutboxRow)
    → IsKeyed table
    → All (λ row. has_id (map row_id (keep p table)) row ≡ p row) table
has_id-keep p [] h = tt
has_id-keep p (x ∷ xs) h = (
  ground (
    arith,
    has_id-none x (keep p xs)
        (All-keep (λ y. same_id x y ≡ false) p xs (any-none (same_id x) xs h.0)),
    text_eq_refl (row_id x),
  ),
  All-both (λ y d e. ground (arith, d, e)) xs (apart x xs h.0) (has_id-keep p xs h.1),
)
