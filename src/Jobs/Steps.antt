-- ===== src/Jobs/Steps.antt =====
-- Every call of the queue keeps the retry bound.
use governed_autonomy_substr.Base.{
  inl, refl, Outcome-cases, ok, All, Bool-cases, Option-cases, String, [], arith, eq_text, false,
  if_intro, inr, none, some, subst, ℕ, ◌++◌, ◌+◌, ◌∷◌, ◌≡◌, ◌≤◌,
}
use governed_autonomy_substr.Base.Int.{pos_part, ℤ}
use governed_autonomy_substr.Jobs.{
  Handled, run_once, finish, returned, caught, escaped, Job, JobStore, claim, complete, enqueue,
  fail, failed, find_job, find_key, next_due, get_job, queued, start, update_job,
}
use governed_autonomy_substr.Jobs.Retries.{
  update_job-IsBounded, IsBounded, IsValid, update_job-HasDistinctIds,
}
use governed_autonomy_substr.Value.{Value}

find_job-All :
    (P : Job → Type 0) (job_id : String) (store : JobStore) (j : Job)
    → find_job job_id store ≡ some j
    → All P store
    → P j
unfolding find_job
find_job-All P job_id [] j found h = absurd (ground arith)
find_job-All P job_id (k ∷ ks) j found (first, rest) = elim (Bool-cases (eq_text k.job_id job_id)) [
  | inl same ↦ let is_it : k ≡ j = ground arith in subst P is_it first
  | inr other ↦ find_job-All P job_id ks j (ground arith) rest
]

update_job-All :
    (job_id : String) (f : Job → Job) (store : JobStore)
    → ((j : Job) → IsBounded j → IsBounded (f j))
    → All IsBounded store
    → All IsBounded (update_job job_id f store)
unfolding update_job
update_job-All job_id f [] keeps h = tt
update_job-All job_id f (j ∷ js) keeps (first, rest) = (
  if_intro IsBounded (eq_text j.job_id job_id) (keeps j first) first,
  update_job-All job_id f js keeps rest,
)

find_job-none :
    (job_id : String) (store : JobStore)
    → find_job job_id store ≡ none
    → All (λ (k : Job). eq_text k.job_id job_id ≡ false) store
unfolding find_job
find_job-none job_id [] h = tt
find_job-none job_id (k ∷ ks) h = (ground arith, find_job-none job_id ks (ground arith))

other_id-append :
    (id : String) (ks : JobStore) (j : Job)
    → All (λ (k : Job). eq_text k.job_id id ≡ false) ks
    → eq_text j.job_id id ≡ false
    → All (λ (k : Job). eq_text k.job_id id ≡ false) (ks ++ j ∷ [])
other_id-append id [] j h new = (new, tt)
other_id-append id (k ∷ ks) j (first, rest) new = (first, other_id-append id ks j rest new)

append-IsValid :
    (store : JobStore) (j : Job)
    → All (λ (k : Job). eq_text k.job_id j.job_id ≡ false) store
    → IsBounded j
    → IsValid store
    → IsValid (store ++ j ∷ [])
append-IsValid [] j new h valid = ((h, tt), (tt, tt))
append-IsValid (k ∷ ks) j (new, news) h ((first, rest), (first_id, ids)) =
    let (bounded, other_ids) = append-IsValid ks j news h (rest, ids) in
    ((first, bounded), (other_id-append k.job_id ks j first_id (ground arith), other_ids))

start-IsBounded : (j : Job) → IsBounded j → IsBounded (start j)
start-IsBounded j (within, left) = (ground arith, (λ q. ground arith))

pub claim-IsValid : (now : ℕ) (store : JobStore) → IsValid store → IsValid (claim now store).1
unfolding claim
claim-IsValid now store (bounded, ids) = elim (Option-cases (next_due now store)) [
  | inl idle ↦ rw (idle, claim) (bounded, ids)
  | inr (j, due) ↦
      rw (due, claim)
        (
          update_job-All j.job_id start store start-IsBounded bounded,
          update_job-HasDistinctIds j.job_id start store (λ k. ground arith) ids,
        )
]

pub complete-IsValid :
    (job_id : String) (store : JobStore) → IsValid store → IsValid (complete job_id store)
unfolding complete
complete-IsValid job_id store (bounded, ids) = (
  update_job-All job_id _ store (λ j h. (ground (arith, h.0, h.1), (λ q. ground (arith, h.0, h.1))))
      bounded,
  update_job-HasDistinctIds job_id _ store (λ k. ground arith) ids,
)

pub fail-IsValid :
    (job_id error : String) (retry_delay now : ℕ) (store store' : JobStore)
    → fail job_id error retry_delay now store ≡ ok store'
    → IsValid store
    → IsValid store'
unfolding fail get_job
fail-IsValid job_id error retry_delay now store store' e (bounded, ids) =
    elim (Option-cases (find_job job_id store)) [
      | inl unknown ↦ absurd (ground arith)
      | inr (j, found) ↦
          let written = failed error (now + retry_delay) j in
          let (within, left) = find_job-All IsBounded job_id store j found bounded in
          let write : Job → Job = λ (k : Job). record k {
            status = written.status;
            last_error = written.last_error;
            available_at = written.available_at;
          } in
          let same : update_job job_id write store ≡ store' = ground arith in
          subst IsValid same (
            update_job-IsBounded job_id write store j found ids bounded
                (within, (λ q. ground arith)),
            update_job-HasDistinctIds job_id write store (λ k. refl) ids,
          )
    ]

pub enqueue-IsValid :
    (job_id : String) (payload : Value) (key : String) (max_attempts : ℤ) (delay now : ℕ)
    (store store' : JobStore) (j : Job)
    → enqueue job_id payload key max_attempts delay now store ≡ ok (j, store')
    → IsValid store
    → IsValid store'
unfolding enqueue
enqueue-IsValid job_id payload key max_attempts delay now store store' j e valid =
    elim (Option-cases (find_key key store)) [
      | inr (existing, known) ↦ subst IsValid (ground arith) valid
      | inl unknown ↦ elim (Option-cases (find_job job_id store)) [
        | inr (other, taken) ↦ absurd (ground arith)
        | inl new ↦
            let job : Job = record {
              job_id = job_id;
              idempotency_key = key;
              payload = payload;
              status = queued;
              attempts = 0;
              max_attempts = pos_part max_attempts;
              available_at = now + delay;
              last_error = none;
            } in
            let positive : 1 ≤ pos_part max_attempts = ground arith in
            let same : store ++ job ∷ [] ≡ store' = ground arith in
            subst IsValid same (
              append-IsValid store job (find_job-none job_id store new)
                (omega arith, (λ q. omega arith)) valid)
      ]
    ]

finish-IsValid :
    (end : Handled) (retry_delay later : ℕ) (job : Job) (store : JobStore)
    → IsValid store
    → IsValid (finish end retry_delay later job store).1
unfolding finish
finish-IsValid returned retry_delay later job store valid = complete-IsValid job.job_id store valid
finish-IsValid (caught type_name) retry_delay later job store valid =
    elim (Outcome-cases (fail job.job_id type_name retry_delay later store)) [
      | inr (failure, unknown) ↦ rw (unknown, finish) valid
      | inl (done, written) ↦
          let still : IsValid done =
            fail-IsValid job.job_id type_name retry_delay later store done written valid in
          elim (Outcome-cases (get_job job.job_id done)) [
            | inr (failure, unknown) ↦ rw (written, finish, unknown) still
            | inl (after, found) ↦ rw (written, finish, found) still
          ]
    ]
finish-IsValid (escaped type_name message) retry_delay later job store valid = valid

pub run_once-IsValid :
    (handler : Value → Handled) (retry_delay now later : ℕ) (store : JobStore)
    → IsValid store
    → IsValid (run_once handler retry_delay now later store).1
unfolding run_once
run_once-IsValid handler retry_delay now later store valid =
    let valid' = claim-IsValid now store valid in
    elim (Option-cases (claim now store).0) [
      | inl idle ↦ rw (idle, run_once) valid'
      | inr (job, started) ↦
          rw (started, run_once)
            (finish-IsValid (handler job.payload) retry_delay later job (claim now store).1 valid')
    ]
