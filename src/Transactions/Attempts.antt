-- ===== src/Transactions/Attempts.antt =====
-- How often a transaction runs (src/core/prisma/retry.util.ts).
use telegram_mini_app.Prelude.{
  ℕ, zero, suc, ◌+◌, ◌≤◌, ◌<◌, Bool, true, false, All, length, ◌≡◌, refl, sym, ap, ◌∙◌, ◌⊎◌, inl,
  inr, arith, Bool-cases, subst, ◌==◌, ==_iff,
}
use telegram_mini_app.Transactions.{
  Attempt, returned, failed, Outcome, returns, throws, invalid_attempts, Trace, Backoff, slept,
  stopped, follow_run, last_run, attempts_from, with_serialization_retry, is_serialization_error,
  window_after,
}

-- What the caller gets of the last run.
abbrev pub outcome_of : {A : Type 0} → Attempt A → Outcome A
outcome_of (returned a) = returns a
outcome_of (failed e) = throws e

-- A run that lost a race, and one that ended the call.
abbrev pub is_conflict : {A : Type 0} → Attempt A → Bool
is_conflict (returned a) = false
is_conflict (failed e) = is_serialization_error e

-- The runs of a call from an attempt on: every one but the last lost a race, the outcome is that of the
-- last, which lost a race too only if it was the last that is allowed, and there is a delay after each of
-- the others, which the bounds of the draws bound.
pub record Runs {A : Type 0} (b : Backoff) (work : ℕ → Attempt A) (first most : ℕ) (t : Trace A)
    : Type 0 where
  pub at_least : first ≤ t.runs
  pub at_most : t.runs ≤ most
  pub lost : (n : ℕ) → first ≤ n → n < t.runs → is_conflict (work n) ≡ true
  pub outcome : t.outcome ≡ outcome_of (work t.runs)
  pub ended : (is_conflict (work t.runs) ≡ false) ⊎ (t.runs ≡ most)
  pub waits : length t.delays + first ≡ t.runs
  pub bounded : All (λ ms. ms ≤ b.max_delay_ms) t.delays

window_bound : (b : Backoff) (n : ℕ) → window_after b n ≤ b.max_delay_ms
window_bound b n = ground arith

module _ {A : Type 0} (b : Backoff) (work : ℕ → Attempt A) where
  -- A run that ends the call.
  stopped-Runs :
      (first most : ℕ)
      → first ≤ most
      → (is_conflict (work first) ≡ false) ⊎ (first ≡ most)
      → Runs b work first most (stopped first (outcome_of (work first)))
  stopped-Runs first most h e = record {
    at_least = omega arith;
    at_most = h;
    lost = λ n l k. absurd (omega (arith, l, k));
    outcome = refl;
    ended = e;
    waits = omega arith;
    bounded = tt;
  }

  -- A run that lost a race, before the others.
  slept-Runs :
      (first most ms : ℕ) (t : Trace A)
      → is_conflict (work first) ≡ true
      → ms ≤ b.max_delay_ms
      → Runs b work (suc first) most t
      → Runs b work first most (slept ms t)
  slept-Runs first most ms t c d r = record {
    at_least = omega (arith, r.at_least);
    at_most = r.at_most;
    lost = λ n l k. elim (Bool-cases (n == first)) [
      | inl same ↦ subst (λ m. is_conflict (work m) ≡ true) (sym ((==_iff n first).0 same)) c
      | inr other ↦ r.lost n (ground arith) k
    ];
    outcome = r.outcome;
    ended = r.ended;
    waits = omega (arith, r.waits);
    bounded = (d, r.bounded);
  }

  follow-Runs :
      (first most : ℕ) (r : Attempt A) (t : Trace A)
      → work first ≡ r
      → first ≤ most
      → b.jittered first (window_after b first) ≤ b.max_delay_ms
      → Runs b work (suc first) most t
      → Runs b work first most (follow_run is_serialization_error b first r t)
  follow-Runs first most (returned a) t e h d rest =
      subst (λ (x : Attempt A). Runs b work first most (stopped first (outcome_of x))) e
        (stopped-Runs first most h (inl (ap is_conflict e)))
  follow-Runs first most (failed x) t e h d rest = elim (Bool-cases (is_serialization_error x)) [
    | inl c ↦ rw c (slept-Runs first most _ t (ap is_conflict e ∙ c) d rest)
    | inr c ↦ rw c (
        subst (λ (y : Attempt A). Runs b work first most (stopped first (outcome_of y))) e
          (stopped-Runs first most h (inl (ap is_conflict e ∙ c))))
  ]

  last_run_lem :
      (first : ℕ) (r : Attempt A)
      → work first ≡ r
      → last_run throws first (work first) ≡ stopped first (outcome_of (work first))
  last_run_lem first (returned a) e = rw e refl
  last_run_lem first (failed x) e = rw e refl

  attempts_from-Runs :
      (more first : ℕ)
      → ((n window : ℕ) → b.jittered n window ≤ window)
      → Runs b work first
          (first + more)
          (attempts_from is_serialization_error throws b work more first)
  unfolding attempts_from
  attempts_from-Runs zero first j =
      rw (last_run_lem first (work first) refl)
        (stopped-Runs first (first + zero) (omega arith) (inr (omega arith)))
  attempts_from-Runs (suc more) first j =
      let rest = attempts_from-Runs more (suc first) j in
      follow-Runs first (first + suc more) (work first) _ refl (omega arith)
        (omega (arith, j first (window_after b first), window_bound b first))
        (subst
          (λ m.
            Runs b work (suc first) m
              (attempts_from is_serialization_error throws b work more (suc first)))
          (omega arith) rest)

-- The work runs at least once and at most as often as is allowed; every run but the last lost a race
-- against another transaction, and the last one's outcome is the caller's, so that it lost one only when
-- no attempt was left. There is one delay between two runs, of at most the configured ceiling. Where no
-- attempt is allowed, the call is refused and nothing runs. (No draw exceeds the window it is made in.)
pub with_serialization_retry-Runs :
    {A : Type 0} (more : ℕ) (b : Backoff) (work : ℕ → Attempt A)
    → ((n window : ℕ) → b.jittered n window ≤ window)
    → Runs b work 1 (suc more) (with_serialization_retry (suc more) b work)
      × (with_serialization_retry zero b work ≡ stopped 0 invalid_attempts)
unfolding with_serialization_retry
with_serialization_retry-Runs more b work j = (
  subst (λ m. Runs b work 1 m (attempts_from is_serialization_error throws b work more 1))
      (omega arith) (attempts_from-Runs b work more 1 j),
  refl,
)
