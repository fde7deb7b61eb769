-- ===== src/Outbox/Dispatch.antt =====
-- The consumer of the outbox queue (src/core/outbox/outbox-dispatch.processor.ts): the job that the
-- relay makes of a row, the handlers that a topic finds, and their run inside the row's operator. What
-- a handler does to the rest of the system is a parameter. The correlation id is left out.
use telegram_mini_app.Prelude.{
  ℕ, Bool, true, false, ◌&&◌, ◌||◌, map, ap, ◌∙◌, List, [], ◌∷◌, Option, none, some, keep,
  if◌then◌else◌, ◌==◌, All, ◌≡◌, refl, arith, Bool-cases, inl, inr, if-cases,
}
use telegram_mini_app.Prelude.Text.{Text, text_eq, text_eq_refl, nonempty}
use telegram_mini_app.Db.Rows.{Payload}
use telegram_mini_app.Outbox.Table.{OutboxRow, row_id}
use telegram_mini_app.Outbox.Relay.Keys.{All-both}

pub record OutboxDispatchTask : Type 0 where
  pub outbox_id : Text
  pub tenant_id : Text
  pub topic : Text
  pub aggregate_id : Text
  pub payload : Payload
  pub attempt : ℕ

-- `toJob` of the relay (outbox-relay.service.ts).
abbrev pub to_job : OutboxRow → OutboxDispatchTask
to_job row = record {
  outbox_id = row_id row;
  tenant_id = row.message.tenant_id;
  topic = row.message.input.topic;
  aggregate_id = row.message.input.aggregate_id;
  payload = row.message.input.payload;
  attempt = row.attempts;
}

pub record OutboxMessageView : Type 0 where
  pub view_id : Text
  pub view_topic : Text
  pub view_aggregate_id : Text
  pub view_payload : Payload
  pub view_attempt : ℕ

pub data DispatchError : Type 0 where
  no_handler missing_tenant : DispatchError
  handler_failed : DispatchError

-- `s.endsWith('*')`, and `s.slice(0, -1)`.
abbrev pub ends_with_star : Text → Bool
ends_with_star [] = false
ends_with_star (c ∷ []) = c == b'*'
ends_with_star (c ∷ (d ∷ s)) = ends_with_star (d ∷ s)

abbrev pub without_last : Text → Text
without_last [] = []
without_last (c ∷ []) = []
without_last (c ∷ (d ∷ s)) = c ∷ without_last (d ∷ s)

abbrev pub starts_with : Text → Text → Bool
starts_with s [] = true
starts_with [] (d ∷ t) = false
starts_with (c ∷ s) (d ∷ t) = (c == d) && starts_with s t

-- What processing a job comes to, in a world `S`.
pub data Dispatched (S : Type 0) : Type 0 where
  rejected : DispatchError → Dispatched S
  handled : S → Dispatched S

-- The world `S` that the handlers act on; `none` is a handler that threw.
pub record OutboxTopicHandler (S : Type 0) : Type 0 where
  pub topic : Text
  pub handle : Text → OutboxMessageView → S → Option S

abbrev pub view : OutboxDispatchTask → OutboxMessageView
view job = record {
  view_id = job.outbox_id;
  view_topic = job.topic;
  view_aggregate_id = job.aggregate_id;
  view_payload = job.payload;
  view_attempt = job.attempt;
}

module _ {S : Type 0} where
  abbrev pub is_exact : Text → OutboxTopicHandler S → Bool
  is_exact t h = text_eq h.topic t

  abbrev pub is_prefix : Text → OutboxTopicHandler S → Bool
  is_prefix t h = ends_with_star h.topic && starts_with t (without_last h.topic)

  abbrev pub choose :
      List (OutboxTopicHandler S) → List (OutboxTopicHandler S) → List (OutboxTopicHandler S)
  choose [] others = others
  choose (h ∷ exact) others = h ∷ exact

  unfoldable pub resolve : List (OutboxTopicHandler S) → Text → List (OutboxTopicHandler S)
  resolve handlers t = choose (keep (is_exact t) handlers) (keep (is_prefix t) handlers)

  -- What follows a handler's run, if it did not throw.
  abbrev pub continue : Option S → (S → Dispatched S) → Dispatched S
  continue none k = rejected handler_failed
  continue (some next) k = k next

  abbrev pub dispatch : Text → OutboxMessageView → List (OutboxTopicHandler S) → S → Dispatched S
  dispatch tenant message [] s = handled s
  dispatch tenant message (h ∷ handlers) s =
      continue (h.handle tenant message s) (dispatch tenant message handlers)

  -- `process` from the resolved handlers on.
  abbrev pub process_with : List (OutboxTopicHandler S) → OutboxDispatchTask → S → Dispatched S
  process_with [] job s = rejected no_handler
  process_with (h ∷ handlers) job s =
      if nonempty job.tenant_id
      then dispatch job.tenant_id (view job) (h ∷ handlers) s
      else rejected missing_tenant

  unfoldable pub process : List (OutboxTopicHandler S) → OutboxDispatchTask → S → Dispatched S
  process handlers job s = process_with (resolve handlers job.topic) job s

  -- A handler subscribes to a topic by name or by prefix.
  abbrev pub subscribes : Text → OutboxTopicHandler S → Bool
  subscribes t h = is_exact t h || is_prefix t h

  resolve_among :
      (t : Text) (exact others : List (OutboxTopicHandler S))
      → All (λ h. subscribes t h ≡ true) exact
      → All (λ h. subscribes t h ≡ true) others
      → All (λ h. subscribes t h ≡ true) (choose exact others)
  resolve_among t [] others h k = k
  resolve_among t (x ∷ exact) others h k = h

  kept :
      (p q : OutboxTopicHandler S → Bool)
      → ((h : OutboxTopicHandler S) → p h ≡ true → q h ≡ true)
      → (hs : List (OutboxTopicHandler S)) → All (λ h. q h ≡ true) (keep p hs)
  kept p q f [] = tt
  kept p q f (h ∷ hs) =
      if-cases (All (λ x. q x ≡ true)) (p h) (λ e. (f h e, kept p q f hs)) (λ e. kept p q f hs)

  keep_none :
      (p : OutboxTopicHandler S → Bool) (hs : List (OutboxTopicHandler S))
      → keep p hs ≡ []
      → All (λ h. p h ≡ false) hs
  keep_none p [] e = tt
  keep_none p (h ∷ hs) e = elim (Bool-cases (p h)) [
    | inl t ↦ absurd (nonempty_kept h (keep p hs) (cc (t, e)))
    | inr t ↦ (t, keep_none p hs (cc (t, e)))
  ]
    where
      nonempty_kept :
          (h : OutboxTopicHandler S) (hs : List (OutboxTopicHandler S)) → (h ∷ hs) ≡ [] → ⊥
      nonempty_kept h hs e = cc

  -- Every handler that a topic finds subscribes to it, by name or by prefix.
  pub resolve-subscribes :
      (handlers : List (OutboxTopicHandler S)) (t : Text)
      → All (λ h. subscribes t h ≡ true) (resolve handlers t)
  unfolding resolve
  resolve-subscribes handlers t =
      resolve_among t (keep (is_exact t) handlers) (keep (is_prefix t) handlers)
        (kept (is_exact t) (subscribes t) (λ h e. ground (arith, e)) handlers)
        (kept (is_prefix t) (subscribes t) (λ h e. ground (arith, e)) handlers)

  unclaimed :
      (t : Text) (exact others : List (OutboxTopicHandler S))
      → choose exact others ≡ []
      → (exact ≡ []) × (others ≡ [])
  unclaimed t [] others e = (refl, e)
  unclaimed t (x ∷ exact) others e = absurd (cc)

  -- A topic finds no handler only when none subscribes to it.
  pub resolve-none :
      (handlers : List (OutboxTopicHandler S)) (t : Text)
      → resolve handlers t ≡ []
      → All (λ h. subscribes t h ≡ false) handlers
  unfolding resolve
  resolve-none handlers t e =
      let (f, g) = unclaimed t (keep (is_exact t) handlers) (keep (is_prefix t) handlers) e in
      All-both (λ h x y. ground (arith, x, y)) handlers (keep_none (is_exact t) handlers f)
        (keep_none (is_prefix t) handlers g)

  -- A handler that acts in one operator and throws in every other.
  abbrev pub only_in : Text → OutboxTopicHandler S → OutboxTopicHandler S
  only_in tenant h = record {
    topic = h.topic;
    handle = λ other message s. if text_eq other tenant then h.handle other message s else none;
  }

  keep-map :
      (p : OutboxTopicHandler S → Bool) (f : OutboxTopicHandler S → OutboxTopicHandler S)
      → ((h : OutboxTopicHandler S) → p (f h) ≡ p h)
      → (hs : List (OutboxTopicHandler S)) → keep p (map f hs) ≡ map f (keep p hs)
  keep-map p f k [] = refl
  keep-map p f k (h ∷ hs) = ground (arith, k h, keep-map p f k hs)

  choose-map :
      (f : OutboxTopicHandler S → OutboxTopicHandler S) (xs ys : List (OutboxTopicHandler S))
      → choose (map f xs) (map f ys) ≡ map f (choose xs ys)
  choose-map f [] ys = refl
  choose-map f (x ∷ xs) ys = refl

  continue-same :
      (o : Option S) (f g : S → Dispatched S) → ((s : S) → f s ≡ g s) → continue o f ≡ continue o g
  continue-same none f g k = refl
  continue-same (some next) f g k = k next

  dispatch-only_in :
      (tenant : Text) (message : OutboxMessageView) (hs : List (OutboxTopicHandler S)) (s : S)
      → dispatch tenant message (map (only_in tenant) hs) s ≡ dispatch tenant message hs s
  dispatch-only_in tenant message [] s = refl
  dispatch-only_in tenant message (h ∷ hs) s =
      let rest = dispatch tenant message (map (only_in tenant) hs) in
      ap (λ b. continue (if b then h.handle tenant message s else none) rest) (text_eq_refl tenant)
      ∙ continue-same (h.handle tenant message s) rest (dispatch tenant message hs)
          (dispatch-only_in tenant message hs)

  process_with-only_in :
      (hs : List (OutboxTopicHandler S)) (job : OutboxDispatchTask) (s : S)
      → process_with (map (only_in job.tenant_id) hs) job s ≡ process_with hs job s
  process_with-only_in [] job s = refl
  process_with-only_in (h ∷ hs) job s =
      ap (λ d. if nonempty job.tenant_id then d else rejected missing_tenant)
        (dispatch-only_in job.tenant_id (view job) (h ∷ hs) s)

  -- A row's message is handled in the row's own operator: handlers that throw anywhere else do as well.
  pub process_in_tenant :
      (handlers : List (OutboxTopicHandler S)) (row : OutboxRow) (s : S)
      → process (map (only_in row.message.tenant_id) handlers) (to_job row) s
        ≡ process handlers (to_job row) s
  unfolding process resolve
  process_in_tenant handlers row s =
      let t = (to_job row).topic in
      let f = only_in row.message.tenant_id in
      rw
        (
          keep-map (is_exact t) f (λ h. refl) handlers,
          keep-map (is_prefix t) f (λ h. refl) handlers,
          choose-map f (keep (is_exact t) handlers) (keep (is_prefix t) handlers),
        )
        (process_with-only_in (resolve handlers t) (to_job row) s)
