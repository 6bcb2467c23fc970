-- ===== src/Engine/Interleaving.antt =====
-- Concurrent deliveries: threads that validate, claim and run in any interleaving. A step of a thread is
-- one of the calls that `execute` makes: the check (which only reads the log), the claim and the append of
-- the outcome (each under the log's lock).
use governed_autonomy_substr.Base.{
  All, Bool, Dict, List, String, [], arith, eq_text, err, false, if◌then◌else◌, ok, refl, suc, true,
  zero, ℕ, ◌&&◌, ◌+◌, ◌∷◌, ◌≡◌, ◌≤◌,
}
use governed_autonomy_substr.Base.Int.{ℤ}
use governed_autonomy_substr.Engine.Execute.{ActionEnd, run_action}
use governed_autonomy_substr.Engine.Validate.{ExecutionBoundary, validate}
use governed_autonomy_substr.Models.{Artifact}
use governed_autonomy_substr.Platform.{Platform}
use governed_autonomy_substr.Replay.{ReplayLog, append, claim_nonce, nonce_used}
use governed_autonomy_substr.Value.{Value}

pub data Phase : Type 0 where
  waiting checked holding finished refused : Phase

pub record Thread : Type 0 where
  pub artifact : Artifact
  pub action : Dict Value → ActionEnd
  pub phase : Phase

-- The thread has claimed its nonce, so its action runs or has run.
abbrev pub has_claimed : Phase → Bool
has_claimed holding = true
has_claimed finished = true
has_claimed _ = false

-- How many of the threads have claimed the nonce.
unfoldable pub holders : String → List Thread → ℕ
holders nonce [] = 0
holders nonce (t ∷ ts) =
    (if has_claimed t.phase && eq_text nonce t.artifact.nonce then 1 else 0) + holders nonce ts

abbrev pub use_count : String → ReplayLog → ℕ
use_count nonce log = if nonce_used nonce log then 1 else 0

module _ ⦃p : Platform⦄ (b : ExecutionBoundary) where
  -- The next step of a thread, by its phase.
  advance : ℤ → Phase → Thread → ReplayLog → Thread × ReplayLog
  advance now waiting t log = elim (validate b now t.artifact log) [
    | ok _ ↦ (record t { phase = checked }, log)
    | err _ ↦ (record t { phase = refused }, log)
  ]
  advance now checked t log = elim (claim_nonce t.artifact.nonce log) [
    | ok log' ↦ (record t { phase = holding }, log')
    | err _ ↦ (record t { phase = refused }, log)
  ]
  advance now holding t log =
      (record t { phase = finished }, (run_action t.artifact t.action log).1)
  advance now finished t log = (t, log)
  advance now refused t log = (t, log)

  -- The step of the thread at a position.
  unfoldable pub step_at : ℕ → ℤ → List Thread → ReplayLog → List Thread × ReplayLog
  unfolding advance
  step_at i now [] log = ([], log)
  step_at zero now (t ∷ ts) log = let (t', log') = advance now t.phase t log in (t' ∷ ts, log')
  step_at (suc i) now (t ∷ ts) log = let (ts', log') = step_at i now ts log in (t ∷ ts', log')

  -- A schedule: which thread steps, and the clock at that step.
  unfoldable pub interleave : List (ℕ × ℤ) → List Thread → ReplayLog → List Thread × ReplayLog
  unfolding step_at
  interleave [] ts log = (ts, log)
  interleave ((i, now) ∷ rest) ts log =
      let (ts', log') = step_at i now ts log in interleave rest ts' log'

  -- A step of a thread that is in the phase claims a nonce exactly where it becomes used.
  advance-count :
      (nonce : String) (now : ℤ) (phase : Phase) (t : Thread) (log : ReplayLog)
      → t.phase ≡ phase
      → let (t', log') = advance now phase t log in
        holders nonce (t' ∷ []) + use_count nonce log
        ≡ holders nonce (t ∷ []) + use_count nonce log'
  unfolding advance holders nonce_used claim_nonce run_action append
  advance-count nonce now waiting t log e = ground arith
  advance-count nonce now checked t log e = ground arith
  advance-count nonce now holding t log e = ground arith
  advance-count nonce now finished t log e = ground arith
  advance-count nonce now refused t log e = ground arith

  step_at-count :
      (nonce : String) (i : ℕ) (now : ℤ) (ts : List Thread) (log : ReplayLog)
      → let (ts', log') = step_at i now ts log in
        holders nonce ts' + use_count nonce log ≡ holders nonce ts + use_count nonce log'
  unfolding step_at holders
  step_at-count nonce i now [] log = refl
  step_at-count nonce zero now (t ∷ ts) log =
      omega (arith, advance-count nonce now t.phase t log refl)
  step_at-count nonce (suc i) now (t ∷ ts) log = omega (arith, step_at-count nonce i now ts log)

  interleave-count :
      (nonce : String) (schedule : List (ℕ × ℤ)) (ts : List Thread) (log : ReplayLog)
      → let (ts', log') = interleave schedule ts log in
        holders nonce ts' + use_count nonce log ≡ holders nonce ts + use_count nonce log'
  unfolding interleave
  interleave-count nonce [] ts log = refl
  interleave-count nonce ((i, now) ∷ rest) ts log =
      let (ts', log') = step_at i now ts log in
      omega (arith, step_at-count nonce i now ts log, interleave-count nonce rest ts' log')

  holders-waiting :
      (nonce : String) (ts : List Thread)
      → All (λ (t : Thread). t.phase ≡ waiting) ts
      → holders nonce ts ≡ 0
  unfolding holders
  holders-waiting nonce [] idle = refl
  holders-waiting nonce (t ∷ ts) (first, others) = rw (first, holders-waiting nonce ts others) refl

  -- If no thread has begun, then after any schedule at most one thread has claimed a given nonce, so at most
  -- one action runs for it, and none if the nonce was used before; and a nonce that is used at the end was
  -- used at the start or is claimed by exactly one thread.
  pub at_most_once :
      (nonce : String) (schedule : List (ℕ × ℤ)) (ts : List Thread) (log : ReplayLog)
      → All (λ (t : Thread). t.phase ≡ waiting) ts
      → let (ts', log') = interleave schedule ts log in
        (holders nonce ts' ≤ 1)
        × (nonce_used nonce log ≡ true → holders nonce ts' ≡ 0)
        × (nonce_used nonce log ≡ false → nonce_used nonce log' ≡ true → holders nonce ts' ≡ 1)
  at_most_once nonce schedule ts log idle =
      let none_yet : holders nonce ts ≡ 0 = holders-waiting nonce ts idle in
      let count = interleave-count nonce schedule ts log in
      (ground arith, (λ used. ground arith), (λ fresh used. ground arith))
