-- ===== src/Lib.antt =====
-- Governed Autonomy Substrate: the control path of the Python package src/governed_autonomy.
--
-- An issuer (issuer.py) arbitrates a request under a policy (policy.py), asks a mesh of governance sources
-- (mesh.py), appends an authorization frame to a hash-chained replay log (replay.py) and signs an artifact,
-- the GAA (models.py). A barrier (engine.py) checks the artifact against the log, the trusted keys (trust.py,
-- key_lifecycle.py) and the policy registry, claims its nonce, runs the action and appends the outcome.
-- Anchors (audit.py) sign the state of a log, and a queue (jobs.py) retries deliveries.
--
-- Files and the code that they are about:
--   Platform: canonical.py, crypto.py and signing.py over json, hashlib, base64 and Ed25519, which are the
--     fields of a record that every definition takes as an instance. `Signs` is what Ed25519 promises, and
--     `FrameJson` what json.dumps keeps of a frame; both are hypotheses where they are used.
--   Value: JSON values, in Python's equality. A float is a dyadic rational, an infinity or no number.
--   Replay: ReplayFrame and the in-memory ReplayLog. Frame, Log, Audit, Integrity and Anchor are its methods
--     and AuditAnchor; Chain, Tamper, Nonces, Evidence and Anchors are about them. Sqlite is SQLiteReplayLog, whose
--     tables are lists of rows; Durable and Writers are about one instance of it and about two. KeyOrder has the
--     values up to the order of keys: `SortsKeys` and `ReadsBack` are what is asked of json there.
--   Trust, KeyLifecycle: TrustStore and KeyLifecycleManager, whose table is a list of rows.
--   Models: SignedApproval and GovernanceAuthorizationArtifact; Wire is about their dicts.
--   Policy: Policy, DeterministicArbiter, SignedPolicyManifest and PolicyRegistry. Rules, Validate, Approvals,
--     Decide, Registry and Wire are the code; Verdict, Quorum, Immutable and Loaded are about it.
--   Mesh: GovernanceInput, GovernanceSourceRegistry and GovernanceMesh.preflight; Winner and Ranking are about
--     its aggregation, Attested about its decision.
--   Issuer: AuthorizationIssuer. Request and Authorize are its two methods; Granted, Accepted, Recorded and
--     Compensation are about them.
--   Engine: ExecutionBoundary. Validate, Evidence and Execute are its methods; Barrier and Execution are about
--     one call and many, Interleaving about threads.
--   Rbac: rbac.py, with Reasons and Granted about the roles of an identity.
--   Rollout: policy_registry.py. Content is the record and its verification, Registry the calls of
--     VersionedPolicyRegistry, Versions the order of versions; Effects and Calls say what a call does and what
--     any history does, and Selected, Permanent, Revisions and Revoked are about histories.
--   Federation: federation.py. Reconcile is GovernanceReconciler; Imports, Accepted and Snapshot are about it.
--   Agents: a2a.py, with Delegated about the guard.
--   Admin: platform_admin.py. Admin is PolicyChangeManager and Quorum about its histories; Payloads is what a
--     signer outside the process is shown; TrustChange is TrustChangeManager and Locked about its histories.
--   Service: service.py, platform.py and the counters of observability.py. Identity, Guardrails and Governed
--     are the code; Context and Bound are about the context that an artifact carries.
--   Jobs: SQLiteJobStore and run_once; Retries, Steps, History and Idempotent are about them.
--   Examples: a small platform and the theorems at concrete inputs.
--
-- State is passed explicitly: a method that changes an object returns the new one, and a call that raises
-- returns an error beside the log that it leaves. Exceptions are values, with the source's messages up to
-- interpolated values. The clock, new nonces and ids, and the action are arguments. A time is a whole number
-- of seconds for artifacts and of ticks for rows. All recursion is structural, so no fuel is needed. In an
-- interleaving a step of a thread is one call of the log: the check, the claim, or the append.
--
-- Two records stand for what the versioned policy registry and the roles call and do not implement:
-- `PolicyTools` (jsonschema, datetime.fromisoformat, the regular expression of versions) and `Unicode` (the
-- character classes of Python's str). No theorem assumes anything of them.
--
-- Not modelled: files, SQLite and PostgreSQL and their locks, deep copies, the HTTP service, command line,
-- workers, token validation, compliance reports, adapters to agent frameworks, and the file storage of the
-- versioned policy registry. An action ends by a return or by an Exception: interrupts and exits of the process
-- are left out, as is the mesh evidence in what an admissible artifact satisfies. A frame, an anchor, a policy
-- or a snapshot whose fields have other types than the writer's is refused when it is loaded, where the code
-- would fail on it later or keep it.
pub mod Base
pub mod Value
pub mod Platform
pub mod Rbac
pub mod Rollout
pub mod Federation
pub mod Replay
pub mod Trust
pub mod KeyLifecycle
pub mod Jobs
pub mod Models
pub mod Policy
pub mod Mesh
pub mod Issuer
pub mod Engine
pub mod Admin
pub mod Agents
pub mod Service
pub mod Examples
