-- ===== src/Ledger/Repository/Accounts.antt =====
-- Accounts by code, created on demand (src/core/ledger/account-registry.service.ts), and the maps and
-- sorted sets of references that src/core/ledger/ledger.repository.ts keeps.
use telegram_mini_app.Prelude.{
  Bool, true, ◌&&◌, List, [], ◌∷◌, Option, none, some, find, if◌then◌else◌,
}
use telegram_mini_app.Prelude.Integers.{pos}
use telegram_mini_app.Prelude.Text.{Text, text_eq, text_lt}
use telegram_mini_app.Types.{Result, ok, err}
use telegram_mini_app.Db.{Env, Tx, pure, ◌>>=◌, generate_id, require_effective_tenant_id}
use telegram_mini_app.Db.Rows.{LedgerAccount}
use telegram_mini_app.Ledger.AccountCodes.{ParsedAccountCode, parse_account_code, account_kind_spec}

-- A JavaScript `Map` from texts, in insertion order.
abbrev pub Dict {ℓ} : Type ℓ → Type ℓ
Dict V = List (Text × V)

module _ {ℓ} {V : Type ℓ} where
  abbrev pub lookup : Text → Dict V → Option V
  lookup k [] = none
  lookup k ((j, v) ∷ d) = if text_eq j k then some v else lookup k d

  abbrev pub set : Text → V → Dict V → Dict V
  set k v [] = (k, v) ∷ []
  set k v ((j, w) ∷ d) = if text_eq j k then (j, v) ∷ d else (j, w) ∷ set k v d

-- A computation without the database, inside a transaction.
abbrev pub lift : {A : Type 0} → Result A → Tx A
lift r db = elim r [ ok a ↦ ok (a, db) | err e ↦ err e ]

-- `[...new Set(texts)].sort()`.
abbrev pub insert_unique : Text → List Text → List Text
insert_unique t [] = t ∷ []
insert_unique t (s ∷ rest) =
    if text_eq t s
    then s ∷ rest
    else if text_lt t s
    then t ∷ (s ∷ rest)
    else s ∷ insert_unique t rest

unfoldable pub sorted_unique : List Text → List Text
sorted_unique [] = []
sorted_unique (t ∷ rest) = insert_unique t (sorted_unique rest)

abbrev pub is_account_id : Text → LedgerAccount → Bool
is_account_id id a = text_eq a.id id

abbrev pub is_account_code : Text → Text → LedgerAccount → Bool
is_account_code tenant code a = text_eq a.code code && text_eq a.tenant_id tenant

-- The row that a code describes, with a balance of zero.
new_account : Text → Text → ParsedAccountCode → LedgerAccount
new_account id tenant parsed = record {
  id = id;
  tenant_id = tenant;
  code = parsed.code;
  kind = parsed.kind;
  currency_code = parsed.currency_code;
  is_debit_normal = (account_kind_spec parsed.kind).is_debit_normal;
  is_active = true;
  cached_balance_minor = pos 0;
}

-- `resolveOrCreate`: INSERT … ON CONFLICT (tenant_id, code), which returns the row either way.
unfoldable pub resolve_or_create : Env → Text → Tx LedgerAccount
unfolding new_account generate_id
resolve_or_create env code = do
  parsed ← lift (parse_account_code code)
  tenant ← require_effective_tenant_id env
  λ db. elim (find (is_account_code tenant parsed.code) db.accounts) [
    | some row ↦ ok (row, db)
    | none ↦
        (do
          id ← generate_id
          λ db'.
              let row = new_account id tenant parsed in
              ok (row, record db' { accounts = row ∷ db'.accounts }))
          db
  ]

-- `resolveManyOrCreate` over the sorted codes: the id of each code.
unfoldable pub resolve_many_or_create : Env → List Text → Dict Text → Tx (Dict Text)
unfolding resolve_or_create
resolve_many_or_create env [] resolved = pure resolved
resolve_many_or_create env (code ∷ codes) resolved = do
  row ← resolve_or_create env code
  resolve_many_or_create env codes (set code row.id resolved)

-- `findByCode`.
unfoldable pub find_by_code : Env → Text → Tx (Option LedgerAccount)
find_by_code env code = do
  tenant ← require_effective_tenant_id env
  λ db. ok (find (is_account_code tenant code) db.accounts, db)
