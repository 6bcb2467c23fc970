-- ===== src/Jobs.antt =====
-- jobs.py: the durable job queue with bounded retries. The table is a list of rows, oldest first, and
-- a time is a number of ticks that the caller reads from the clock.
pub mod Retries
pub mod Steps
pub mod History
pub mod Idempotent
use governed_autonomy_substr.Base.{
  Bool, List, Option, Outcome, String, [], action_raised, eq_text, err, false, if◌then◌else◌,
  is_blank, is_some, key_error, le_text, leb, ltb, none, ok, or_raise, raise_if, some, take_text,
  true, value_error, ℕ, ◌&&◌, ◌++◌, ◌+◌, ◌==◌, ◌>>=◌, ◌>>◌, ◌||◌, ◌∷◌,
}
use governed_autonomy_substr.Base.Int.{leb_ℤ, pos, pos_part, ℤ}
use governed_autonomy_substr.Engine.Execution.{claimed}
use governed_autonomy_substr.KeyLifecycle.History.{after}
use governed_autonomy_substr.Value.{Value}

pub data JobStatus : Type 0 where
  queued running succeeded dead_letter : JobStatus

pub record Job : Type 0 where
  pub job_id : String
  pub idempotency_key : String
  pub payload : Value
  pub status : JobStatus
  pub attempts : ℕ
  pub max_attempts : ℕ
  pub available_at : ℕ
  pub last_error : Option String

abbrev pub JobStore : Type 0
JobStore = List Job

abbrev pub is_queued : JobStatus → Bool
is_queued queued = true
is_queued _ = false

abbrev pub is_running : JobStatus → Bool
is_running running = true
is_running _ = false

abbrev pub is_dead : JobStatus → Bool
is_dead dead_letter = true
is_dead _ = false

-- `SELECT * FROM jobs WHERE job_id=?`, and the same by idempotency key.
unfoldable pub find_job : String → JobStore → Option Job
find_job job_id [] = none
find_job job_id (j ∷ js) = if eq_text j.job_id job_id then some j else find_job job_id js

unfoldable pub find_key : String → JobStore → Option Job
find_key key [] = none
find_key key (j ∷ js) = if eq_text j.idempotency_key key then some j else find_key key js

unfoldable pub get_job : String → JobStore → Outcome Job
get_job job_id store = or_raise (find_job job_id store) (key_error "unknown job")

-- `UPDATE jobs SET ... WHERE job_id=?`.
unfoldable pub update_job : String → (Job → Job) → JobStore → JobStore
update_job job_id f [] = []
update_job job_id f (j ∷ js) = (if eq_text j.job_id job_id then f j else j) ∷ update_job job_id f js

-- A payload is kept as the value that its JSON stands for. The new row's id is the `uuid4` that the call draws; an id that is taken breaks the primary key.
unfoldable pub enqueue : String → Value → String → ℤ → ℕ → ℕ → JobStore → Outcome (Job × JobStore)
enqueue job_id payload idempotency_key max_attempts delay now store = do
  raise_if (is_blank idempotency_key || leb_ℤ max_attempts (pos 0))
      (value_error "idempotency_key and positive max_attempts are required")
  elim (find_key idempotency_key store) [
    | some existing ↦ ok (existing, store)
    | none ↦
        let job : Job = record {
          job_id = job_id;
          idempotency_key = idempotency_key;
          payload = payload;
          status = queued;
          attempts = 0;
          max_attempts = pos_part max_attempts;
          available_at = now + delay;
          last_error = none;
        } in
        if is_some (find_job job_id store)
        then err (value_error "UNIQUE constraint failed: jobs.job_id")
        else ok (job, store ++ job ∷ [])
  ]

abbrev pub is_due : ℕ → Job → Bool
is_due now j = is_queued j.status && leb j.available_at now

-- `ORDER BY available_at, job_id`.
abbrev pub before : Job → Job → Bool
before a b =
    ltb a.available_at b.available_at
    || (a.available_at == b.available_at && le_text a.job_id b.job_id)

-- The first due row in that order.
unfoldable pub next_due : ℕ → JobStore → Option Job
next_due now [] = none
next_due now (j ∷ js) = elim (next_due now js) [
  | none ↦ if is_due now j then some j else none
  | some k ↦ if is_due now j && before j k then some j else some k
]

abbrev pub start : Job → Job
start j = if is_queued j.status then record j { status = running; attempts = j.attempts + 1 } else j

unfoldable pub claim : ℕ → JobStore → Option Job × JobStore
claim now store = elim (next_due now store) [
  | none ↦ (none, store)
  | some j ↦ let store' = update_job j.job_id start store in (find_job j.job_id store', store')
]

unfoldable pub complete : String → JobStore → JobStore
complete job_id =
    update_job job_id
      (λ (j : Job). if is_running j.status then record j { status = succeeded } else j)

-- The row that `fail` writes.
abbrev pub failed : String → ℕ → Job → Job
failed error available_at j = record j {
  status = if ltb j.attempts j.max_attempts then queued else dead_letter;
  last_error = some (take_text 512 error);
  available_at = available_at;
}

unfoldable pub fail : String → String → ℕ → ℕ → JobStore → Outcome JobStore
fail job_id error retry_delay now store = do
  job ← get_job job_id store
  let written = failed error (now + retry_delay) job
  ok (
      update_job job_id
        (λ (j : Job). record j {
          status = written.status;
          last_error = written.last_error;
          available_at = written.available_at;
        })
        store)

-- How the handler ends: it returns, raises one of the exceptions that `run_once` catches, by its type
-- name, or raises another, which `run_once` lets through.
pub data Handled : Type 0 where
  returned : Handled
  caught : String → Handled
  escaped : String → String → Handled

-- The job after the run, and whether the compensation was called for it.
pub record Run : Type 0 where
  pub job : Option Job
  pub compensated : Bool

-- What `run_once` does after the handler has ended, with the table that it leaves.
unfoldable pub finish : Handled → ℕ → ℕ → Job → JobStore → Outcome Run × JobStore
unfolding complete fail
finish returned retry_delay later job store =
    let done = complete job.job_id store in
    (ok (record { job = find_job job.job_id done; compensated = false }), done)
finish (caught type_name) retry_delay later job store =
    elim (fail job.job_id type_name retry_delay later store) [
      | err e ↦ (err e, store)
      | ok done ↦ elim (get_job job.job_id done) [
        | err e ↦ (err e, done)
        | ok after ↦ (ok (record { job = some after; compensated = is_dead after.status }), done)
      ]
    ]
finish (escaped type_name message) retry_delay later job store =
    (err (action_raised type_name message), store)

-- What the call returns or raises, and the table that it leaves.
unfoldable pub run_once : (Value → Handled) → ℕ → ℕ → ℕ → JobStore → Outcome Run × JobStore
unfolding claim finish
run_once handler retry_delay now later store =
    let claimed = claim now store in
    elim claimed.0 [
      | none ↦ (ok (record { job = none; compensated = false }), claimed.1)
      | some job ↦ finish (handler job.payload) retry_delay later job claimed.1
    ]
