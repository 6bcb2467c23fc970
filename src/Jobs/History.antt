-- ===== src/Jobs/History.antt =====
-- Any history of calls on a queue keeps the retry bound.
use governed_autonomy_substr.Base.{
  List, Outcome, Outcome-cases, String, [], err, inl, inr, ok, ℕ, ◌∷◌,
}
use governed_autonomy_substr.Base.Int.{ℤ}
use governed_autonomy_substr.Jobs.{Handled, Job, JobStore, claim, complete, enqueue, fail, run_once}
use governed_autonomy_substr.Jobs.Retries.{IsValid}
use governed_autonomy_substr.Jobs.Steps.{
  claim-IsValid, complete-IsValid, enqueue-IsValid, fail-IsValid, run_once-IsValid,
}
use governed_autonomy_substr.Value.{Value}

-- The calls on a queue; one that raises changes nothing more than it had.
pub data QueueCall : Type 0 where
  enqueues : String → Value → String → ℤ → ℕ → ℕ → QueueCall
  claims : ℕ → QueueCall
  completes : String → QueueCall
  fails : String → String → ℕ → ℕ → QueueCall
  runs : (Value → Handled) → ℕ → ℕ → ℕ → QueueCall

abbrev pub enqueued : Outcome (Job × JobStore) → JobStore → JobStore
enqueued (ok r) store = r.1
enqueued (err e) store = store

abbrev pub or_same : Outcome JobStore → JobStore → JobStore
or_same (ok store') store = store'
or_same (err e) store = store

unfoldable pub call : QueueCall → JobStore → JobStore
call (enqueues job_id payload key max_attempts delay now) store =
    enqueued (enqueue job_id payload key max_attempts delay now store) store
call (claims now) store = (claim now store).1
call (completes job_id) store = complete job_id store
call (fails job_id error retry_delay now) store =
    or_same (fail job_id error retry_delay now store) store
call (runs handler retry_delay now later) store = (run_once handler retry_delay now later store).1

unfoldable pub calls : List QueueCall → JobStore → JobStore
unfolding call
calls [] store = store
calls (c ∷ cs) store = calls cs (call c store)

call-IsValid : (c : QueueCall) (store : JobStore) → IsValid store → IsValid (call c store)
unfolding call
call-IsValid (enqueues job_id payload key max_attempts delay now) store valid =
    elim (Outcome-cases (enqueue job_id payload key max_attempts delay now store)) [
      | inr (failure, no_job) ↦ rw (no_job, call) valid
      | inl ((j, store'), made) ↦
          rw (made, call)
            (enqueue-IsValid job_id payload key max_attempts delay now store store' j made valid)
    ]
call-IsValid (claims now) store valid = claim-IsValid now store valid
call-IsValid (completes job_id) store valid = complete-IsValid job_id store valid
call-IsValid (fails job_id error retry_delay now) store valid =
    elim (Outcome-cases (fail job_id error retry_delay now store)) [
      | inr (failure, unknown) ↦ rw (unknown, call) valid
      | inl (store', written) ↦
          rw (written, call) (fail-IsValid job_id error retry_delay now store store' written valid)
    ]
call-IsValid (runs handler retry_delay now later) store valid =
    run_once-IsValid handler retry_delay now later store valid

-- After any history of enqueues, claims, completions, failures and runs on a valid queue, such as an empty
-- one, no job has more attempts than its maximum, every queued job has one left, and ids are distinct.
pub calls-IsValid :
    (cs : List QueueCall) (store : JobStore) → IsValid store → IsValid (calls cs store)
unfolding calls
calls-IsValid [] store valid = valid
calls-IsValid (c ∷ cs) store valid = calls-IsValid cs (call c store) (call-IsValid c store valid)
