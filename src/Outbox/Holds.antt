-- ===== src/Outbox/Holds.antt =====
-- A message that is recorded stands in the table afterwards (src/core/outbox/outbox.service.ts).
use telegram_mini_app.Prelude.{
  suc, or_else, true, false, ◌&&◌, ◌||◌, List, some, none, any, ◌≡◌, refl, sym, ap, ◌∙◌, Bool-cases,
  inl, inr, subst,
}
use telegram_mini_app.Prelude.Text.{Text, text_eq, text_eq_refl, is_text}
use telegram_mini_app.Types.{ok}
use telegram_mini_app.Db.{Db, Env, returned, generate_id, require_effective_tenant_id}
use telegram_mini_app.Db.Rows.{OutboxInput, OutboxMessage}
use telegram_mini_app.Outbox.{
  same_key, insert_row, is_taken, outbox_rows, store_rows, enqueue_many, enqueue,
}

taken_eq :
    (tenant key : Text) (m : OutboxMessage) (stored : List OutboxMessage)
    → m.tenant_id ≡ tenant
    → m.input.dedupe_key ≡ some key
    → is_taken m stored ≡ any (same_key tenant key) stored
taken_eq tenant key m stored t k =
    ap (λ o. elim o [ none ↦ false | some x ↦ any (same_key m.tenant_id x) stored ]) k
    ∙ ap (λ s. any (same_key s key) stored) t

own_key :
    (tenant key : Text) (m : OutboxMessage)
    → m.tenant_id ≡ tenant
    → m.input.dedupe_key ≡ some key
    → same_key tenant key m ≡ true
own_key tenant key m t k =
    ap (λ o. is_text o key && text_eq m.tenant_id tenant) k
    ∙ ap (λ b. b && text_eq m.tenant_id tenant) (text_eq_refl key)
    ∙ ap (λ s. text_eq s tenant) t
    ∙ text_eq_refl tenant

insert_row_holds :
    (tenant key : Text) (m : OutboxMessage) (stored : List OutboxMessage)
    → m.tenant_id ≡ tenant
    → m.input.dedupe_key ≡ some key
    → any (same_key tenant key) (insert_row m stored) ≡ true
insert_row_holds tenant key m stored t k = elim (Bool-cases (any (same_key tenant key) stored)) [
  | inl e ↦ rw (taken_eq tenant key m stored t k ∙ e) e
  | inr e ↦
      rw (taken_eq tenant key m stored t k ∙ e)
        (ap (λ b. b || any (same_key tenant key) stored) (own_key tenant key m t k))
]

-- After `enqueue`, a message of the operator in context stands under the key, this one or an earlier one.
pub enqueue_holds :
    (env : Env) (input : OutboxInput) (tenant key : Text) (db : Db) {u : Unit {0}} {db' : Db}
    → env.tenant ≡ some tenant
    → input.dedupe_key ≡ some key
    → enqueue env input db ≡ ok (u, db')
    → any (same_key tenant key) db'.outbox ≡ true
unfolding enqueue enqueue_many outbox_rows store_rows generate_id require_effective_tenant_id
enqueue_holds env input tenant key db {u} {db'} e k h =
    let message : OutboxMessage = record {
      id = db.ids db.generated;
      tenant_id = tenant;
      input = input;
      available_at = or_else input.available_at env.now;
    } in
    let run : enqueue env input db
        ≡ ok (
          tt,
          record db { outbox = insert_row message db.outbox; generated = suc db.generated },
        ) =
      rw e refl in
    subst (λ (x : Db). any (same_key tenant key) x.outbox ≡ true) (returned (sym run ∙ h)).1
      (insert_row_holds tenant key message db.outbox refl k)
