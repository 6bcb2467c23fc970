-- ===== src/Jobs/Retries.antt =====
-- The retry bound of the queue: no job is ever started more often than it may be.
use governed_autonomy_substr.Base.{
  All, Bool-cases, String, [], arith, eq_text, eq_text-true, false, if_intro, inl, inr, refl, some,
  subst, ◌<◌, ◌∷◌, ◌≡◌, ◌≤◌,
}
use governed_autonomy_substr.Jobs.{Job, JobStore, find_job, queued, update_job}

-- A row: attempts within the bound, and a queued job has one left.
abbrev pub IsBounded : Job → Type 0
IsBounded j = (j.attempts ≤ j.max_attempts) × (j.status ≡ queued → j.attempts < j.max_attempts)

-- The id is the primary key: no row has another's.
abbrev pub HasDistinctIds : JobStore → Type 0
HasDistinctIds [] = Unit
HasDistinctIds (j ∷ js) =
    All (λ (k : Job). eq_text k.job_id j.job_id ≡ false) js × HasDistinctIds js

abbrev pub IsValid : JobStore → Type 0
IsValid store = All IsBounded store × HasDistinctIds store

-- A change of a row that keeps its id.
abbrev KeepsId : (Job → Job) → Type 0
KeepsId f = (j : Job) → (f j).job_id ≡ j.job_id

update_job-others :
    (job_id other : String) (f : Job → Job) (store : JobStore)
    → KeepsId f
    → All (λ (k : Job). eq_text k.job_id other ≡ false) store
    → All (λ (k : Job). eq_text k.job_id other ≡ false) (update_job job_id f store)
unfolding update_job
update_job-others job_id other f [] keeps h = tt
update_job-others job_id other f (j ∷ js) keeps (first, rest) = (
  if_intro (λ (k : Job). eq_text k.job_id other ≡ false) (eq_text j.job_id job_id)
      (rw (keeps j) first) first,
  update_job-others job_id other f js keeps rest,
)

pub update_job-HasDistinctIds :
    (job_id : String) (f : Job → Job) (store : JobStore)
    → KeepsId f
    → HasDistinctIds store
    → HasDistinctIds (update_job job_id f store)
unfolding update_job
update_job-HasDistinctIds job_id f [] keeps h = tt
update_job-HasDistinctIds job_id f (j ∷ js) keeps (first, rest) = (
  if_intro
      (λ (k : Job). All (λ (l : Job). eq_text l.job_id k.job_id ≡ false) (update_job job_id f js))
      (eq_text j.job_id job_id) (rw (keeps j) (update_job-others job_id j.job_id f js keeps first))
      (update_job-others job_id j.job_id f js keeps first),
  update_job-HasDistinctIds job_id f js keeps rest,
)

update_job-absent :
    (job_id : String) (f : Job → Job) (store : JobStore)
    → All (λ (k : Job). eq_text k.job_id job_id ≡ false) store
    → update_job job_id f store ≡ store
unfolding update_job
update_job-absent job_id f [] h = refl
update_job-absent job_id f (j ∷ js) (first, rest) =
    rw (first, update_job-absent job_id f js rest) refl

-- Only the row that the id finds changes.
pub update_job-IsBounded :
    (job_id : String) (f : Job → Job) (store : JobStore) (j : Job)
    → find_job job_id store ≡ some j
    → HasDistinctIds store
    → All IsBounded store
    → IsBounded (f j)
    → All IsBounded (update_job job_id f store)
unfolding update_job find_job
update_job-IsBounded job_id f [] j found ids bounded h = tt
update_job-IsBounded job_id f (k ∷ ks) j found (first_id, ids) (first, rest) h =
    elim (Bool-cases (eq_text k.job_id job_id)) [
      | inl same ↦
          let is_it : k ≡ j = ground arith in
          let named : k.job_id ≡ job_id = eq_text-true k.job_id job_id same in
          let absent : All (λ (l : Job). eq_text l.job_id job_id ≡ false) ks =
            subst (λ (s : String). All (λ (l : Job). eq_text l.job_id s ≡ false) ks) named
              first_id in
          rw (same, update_job-absent job_id f ks absent, is_it) (h, rest)
      | inr other ↦ rw other (first, update_job-IsBounded job_id f ks j (ground arith) ids rest h)
    ]
