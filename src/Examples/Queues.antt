-- ===== src/Examples/Queues.antt =====
-- The theorems of the job queue and of the mesh at concrete inputs.
use governed_autonomy_substr.Base.{
  List, String-discrete, [], false, none, ok, refl, some, take_text, true, ◌∷◌, ◌≡◌,
}
use governed_autonomy_substr.Base.Int.{pos}
use governed_autonomy_substr.Examples.World.{toy}
use governed_autonomy_substr.Jobs.{
  Handled, Job, caught, claim, complete, dead_letter, enqueue, fail, find_job, find_key, finish,
  get_job, next_due, queued, run_once, update_job,
}
use governed_autonomy_substr.Jobs.History.{QueueCall, call, calls, calls-IsValid}
use governed_autonomy_substr.Jobs.Idempotent.{enqueue_again}
use governed_autonomy_substr.Jobs.Retries.{IsValid}
use governed_autonomy_substr.Mesh.{GovernanceInput, Mesh, PreflightDecision, allowed}
use governed_autonomy_substr.Value.{Value, boolean, null, text}

abbrev crashing : Value → Handled
crashing _ = caught "TimeoutError"

-- One job of at most two attempts: both runs fail, and it is dead.
abbrev attempts : List QueueCall
attempts =
    QueueCall.enqueues "j1" null "key" (pos 2) 0 100
    ∷ QueueCall.runs crashing 5 100 101
    ∷ QueueCall.claims 103
    ∷ QueueCall.runs crashing 5 106 107
    ∷ []

calls-IsValid_example : IsValid (calls attempts [])
calls-IsValid_example = calls-IsValid attempts [] (tt, tt)

abbrev dead : Job
dead = record {
  job_id = "j1";
  idempotency_key = "key";
  payload = null;
  status = dead_letter;
  attempts = 2;
  max_attempts = 2;
  available_at = 112;
  last_error = some "TimeoutError";
}

dies : calls attempts [] ≡ dead ∷ []
unfolding calls call enqueue claim run_once finish fail complete get_job find_job find_key
    update_job next_due String-discrete take_text
dies = refl

abbrev job : Job
job = record {
  job_id = "j1";
  idempotency_key = "key";
  payload = null;
  status = queued;
  attempts = 0;
  max_attempts = 2;
  available_at = 100;
  last_error = none;
}

enqueued_one : enqueue "j1" null "key" (pos 2) 0 100 [] ≡ ok (job, job ∷ [])
unfolding enqueue find_job find_key String-discrete
enqueued_one = refl

enqueue_again_example :
    enqueue "j2" (text "other") "key" (pos 2) 7 200 (job ∷ []) ≡ ok (job, job ∷ [])
enqueue_again_example =
    enqueue_again "j1" "j2" null (text "other") "key" (pos 2) 0 7 100 200 [] (job ∷ []) job
      enqueued_one

abbrev safety : GovernanceInput
safety = record {
  source_id = "safety";
  decision = ("allow", boolean true) ∷ [];
  weight = pos 1;
  priority = pos 2;
  metadata = [];
  source_signature = some "signed";
}

abbrev audit : GovernanceInput
audit = record safety { source_id = "audit"; priority = pos 1 }

abbrev mesh : Mesh
mesh = record {
  trusted_sources = ("safety", "key") ∷ ("audit", "key") ∷ [];
  trust_store = none;
  source_registry = none;
  records = false;
}

abbrev verdict : PreflightDecision
verdict = record {
  allow = true;
  status = allowed;
  selected_digest = some "#";
  selected_source_ids = "audit" ∷ "safety" ∷ [];
  input_digests = ("audit", "#") ∷ ("safety", "#") ∷ [];
  conflicts = [];
  reasons = [];
  digest = "#";
  replay_frame_ref = none;
}
