-- ===== src/Uuid.antt =====
-- The pattern of a uuid, which `UUID_PATTERN` (src/modules/deposit/deposit-state.machine.ts) and
-- `SCOPE_ID_RE` (src/core/ledger/account-codes.ts) share.
use telegram_mini_app.Prelude.{
  ℕ, zero, suc, Bool, true, false, not, ◌&&◌, ◌||◌, List, [], ◌∷◌, Option, none, some, leb, all,
  Option-cases, Bool-cases, inl, inr, arith, ◌==◌, if◌then◌else◌, ◌≡◌, refl,
}
use telegram_mini_app.Prelude.Text.{Text, text, nonempty}

is_hex : ℕ → Bool
is_hex c = (leb b'0' c && leb c b'9') || (leb b'a' c && leb c b'f') || (leb b'A' c && leb c b'F')

-- What follows `n` hexadecimal digits.
hex_run : ℕ → Text → Option Text
hex_run zero t = some t
hex_run (suc n) [] = none
hex_run (suc n) (c ∷ t) = if is_hex c then hex_run n t else none

after_dash : Text → Option Text
after_dash [] = none
after_dash (c ∷ t) = if c == b'-' then some t else none

-- Groups of hexadecimal digits, of the lengths given, with a dash between two groups.
uuid_groups : List ℕ → Text → Bool
uuid_groups [] t = not (nonempty t)
uuid_groups (n ∷ []) t = elim (hex_run n t) [ none ↦ false | some rest ↦ not (nonempty rest) ]
uuid_groups (n ∷ m ∷ ns) t = elim (hex_run n t) [
  | none ↦ false
  | some rest ↦ elim (after_dash rest) [ none ↦ false | some group ↦ uuid_groups (m ∷ ns) group ]
]

unfoldable pub is_uuid : Text → Bool
unfolding uuid_groups hex_run after_dash is_hex text
is_uuid t = uuid_groups (8 ∷ 4 ∷ 4 ∷ 4 ∷ 12 ∷ []) t

-- No `:` stands in the text.
abbrev pub is_plain : Text → Bool
is_plain = all (λ c. not (c == b':'))

hex_run-plain :
    (n : ℕ) (t : Text) {rest : Text}
    → hex_run n t ≡ some rest
    → is_plain rest ≡ true
    → is_plain t ≡ true
unfolding hex_run is_hex
hex_run-plain zero t h k = ground (arith, h, k)
hex_run-plain (suc n) [] h k = refl
hex_run-plain (suc n) (c ∷ t) {rest} h k = elim (Bool-cases (is_hex c)) [
  | inl e ↦ ground (arith, hex_run-plain n t {rest = rest} (ground (arith, e)) k)
  | inr e ↦ absurd (cc)
]

after_dash-plain :
    (t : Text) {rest : Text} → after_dash t ≡ some rest → is_plain rest ≡ true → is_plain t ≡ true
unfolding after_dash
after_dash-plain [] h k = refl
after_dash-plain (c ∷ t) {rest} h k = elim (Bool-cases (c == b'-')) [
  | inl e ↦
      let same : t ≡ rest = cc in
      let plain : is_plain t ≡ true = rw (same) k in ground (arith, e, plain)
  | inr e ↦ absurd (cc)
]

empty-plain : (t : Text) → not (nonempty t) ≡ true → is_plain t ≡ true
empty-plain [] h = refl
empty-plain (c ∷ t) h = absurd (cc)

uuid_groups-plain : (ns : List ℕ) (t : Text) → uuid_groups ns t ≡ true → is_plain t ≡ true
unfolding uuid_groups
uuid_groups-plain [] t h = empty-plain t h
uuid_groups-plain (n ∷ []) t h = elim (Option-cases (hex_run n t)) [
  | inl e ↦ absurd (cc)
  | inr (rest, e) ↦ hex_run-plain n t e (empty-plain rest (cc))
]
uuid_groups-plain (n ∷ m ∷ ns) t h = elim (Option-cases (hex_run n t)) [
  | inl e ↦ absurd (cc)
  | inr (rest, e) ↦ elim (Option-cases (after_dash rest)) [
    | inl f ↦ absurd (cc)
    | inr (group, f) ↦
        hex_run-plain n t e (after_dash-plain rest f (uuid_groups-plain (m ∷ ns) group (cc)))
  ]
]

pub is_uuid-plain : (t : Text) → is_uuid t ≡ true → is_plain t ≡ true
unfolding is_uuid
is_uuid-plain t h = uuid_groups-plain (8 ∷ 4 ∷ 4 ∷ 4 ∷ 12 ∷ []) t h

accepts_mixed_case : is_uuid (text "0f8fad5b-D9cb-469f-A165-70867728950e") ≡ true
unfolding is_uuid
accepts_mixed_case = refl

refuses_short_group : is_uuid (text "0f8fad5b-D9cb-469-A165-70867728950e") ≡ false
unfolding is_uuid
refuses_short_group = refl
