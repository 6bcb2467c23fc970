-- ===== src/Jobs/Idempotent.antt =====
-- Enqueueing under a key that is known returns the job that has it.
use governed_autonomy_substr.Base.{
  Option-cases, String, [], arith, eq_text, eq_text_self, false, inl, inr, is_blank, none, ok, refl,
  some, subst, true, ℕ, ◌++◌, ◌∷◌, ◌≡◌,
}
use governed_autonomy_substr.Base.Int.{leb_ℤ, pos, ℤ}
use governed_autonomy_substr.Jobs.{Job, JobStore, enqueue, find_job, find_key}
use governed_autonomy_substr.Value.{Value}

find_key-append :
    (key : String) (store : JobStore) (j : Job)
    → find_key key store ≡ none
    → eq_text j.idempotency_key key ≡ true
    → find_key key (store ++ j ∷ []) ≡ some j
unfolding find_key
find_key-append key [] j h same = ground arith
find_key-append key (k ∷ ks) j h same = ground (arith, find_key-append key ks j)

enqueue-find_key :
    (job_id : String) (payload : Value) (key : String) (max_attempts : ℤ) (delay now : ℕ)
    (store store' : JobStore) (j : Job)
    → enqueue job_id payload key max_attempts delay now store ≡ ok (j, store')
    → (is_blank key ≡ false) × (leb_ℤ max_attempts (pos 0) ≡ false) × (find_key key store' ≡ some j)
unfolding enqueue
enqueue-find_key job_id payload key max_attempts delay now store store' j e =
    elim (Option-cases (find_key key store)) [
      | inr (existing, known) ↦ (ground arith, ground arith, ground arith)
      | inl unknown ↦ elim (Option-cases (find_job job_id store)) [
        | inr (other, taken) ↦ absurd (ground arith)
        | inl new ↦
            let has_key : j.idempotency_key ≡ key = ground arith in
            let same : store ++ j ∷ [] ≡ store' = ground arith in
            let named : eq_text j.idempotency_key key ≡ true = rw has_key (eq_text_self key) in
            (
              ground arith,
              ground arith,
              subst (λ (s : JobStore). find_key key s ≡ some j) same
                  (find_key-append key store j unknown named),
            )
      ]
    ]

-- Enqueueing is idempotent: after a call that returned a job, another with the same key and the same maximum
-- returns the same job and leaves the queue as it is, whatever its id, payload, delay and time are.
pub enqueue_again :
    (job_id job_id' : String) (payload payload' : Value) (key : String) (max_attempts : ℤ)
    (delay delay' now now' : ℕ) (store store' : JobStore) (j : Job)
    → enqueue job_id payload key max_attempts delay now store ≡ ok (j, store')
    → enqueue job_id' payload' key max_attempts delay' now' store' ≡ ok (j, store')
unfolding enqueue
enqueue_again job_id job_id' payload payload' key max_attempts delay delay' now now' store store' j
      e =
    let (filled_key, positive, known) =
      enqueue-find_key job_id payload key max_attempts delay now store store' j e in
    rw (filled_key, positive, known, enqueue) refl
