-- ===== src/Rollout/Versions.antt =====
-- Versions in the order of SemVer 2.0.0: Python compares the keys as tuples.
use governed_autonomy_substr.Base.{
  Bool, Dict, List, Option, Outcome, PairDict, String, [], eq_text, false, if◌then◌else◌, le_text,
  ltb, map, none, not, not_found_error, ok, or_raise, some, sort_by, true, value_error, ℕ, ◌&&◌,
  ◌==◌, ◌>>=◌, ◌∷◌, ◌⧺◌,
}
use governed_autonomy_substr.Platform.{Platform}
use governed_autonomy_substr.Rollout.{PolicyLifecycle, PolicyTools, StoredPolicy}
use governed_autonomy_substr.Rollout.Registry.{VersionedRegistry, get_version, lifecycle}
use governed_autonomy_substr.Value.{entries, text}

-- A part of the pre-release: `(0, int(p), "")` of a number, and else `(1, 0, p)`.
pub record SemverPart : Type 0 where
  pub kind : ℕ
  pub number : ℕ
  pub word : String

-- `(int(major), int(minor), int(patch), pre_key)`, where the pre-key `(1,)` is `none`.
pub record SemverKey : Type 0 where
  pub major : ℕ
  pub minor : ℕ
  pub patch : ℕ
  pub pre_key : Option (List SemverPart)

abbrev pub le_part : SemverPart → SemverPart → Bool
le_part a b =
    if a.kind == b.kind
    then (if a.number == b.number then le_text a.word b.word else ltb a.number b.number)
    else ltb a.kind b.kind

abbrev pub eq_part : SemverPart → SemverPart → Bool
eq_part a b = (a.kind == b.kind) && (a.number == b.number) && eq_text a.word b.word

abbrev pub le_parts : List SemverPart → List SemverPart → Bool
le_parts [] bs = true
le_parts (a ∷ rest_a) [] = false
le_parts (a ∷ rest_a) (b ∷ rest_b) =
    let rest = le_parts rest_a rest_b in if eq_part a b then rest else le_part a b

-- `(0, parts)` stands before `(1,)`.
abbrev pub le_pre : Option (List SemverPart) → Option (List SemverPart) → Bool
le_pre none none = true
le_pre none (some parts) = false
le_pre (some parts) none = true
le_pre (some parts) (some parts') = le_parts parts parts'

abbrev pub le_key : SemverKey → SemverKey → Bool
le_key a b =
    if not (a.major == b.major)
    then ltb a.major b.major
    else (if not (a.minor == b.minor)
        then ltb a.minor b.minor
        else (if not (a.patch == b.patch) then ltb a.patch b.patch else le_pre a.pre_key b.pre_key))

module _ ⦃p : Platform⦄ ⦃t : PolicyTools⦄ where
  abbrev pub semver_part : String → SemverPart
  semver_part part =
      if t.isdigit part
      then record { kind = 0; number = t.int part; word = "" }
      else record { kind = 1; number = 0; word = part }

  abbrev pub pre_key_of : Option String → Option (List SemverPart)
  pre_key_of none = none
  pre_key_of (some pre) = some (map semver_part (t.split_dots pre))

  unfoldable pub semver_key : String → Outcome SemverKey
  semver_key version = do
    groups ←
        or_raise (t.semver_groups version)
          (value_error ("invalid semantic version: " ⧺ p.repr (text version)))
    ok (record {
      major = t.int groups.0;
      minor = t.int groups.1;
      patch = t.int groups.2;
      pre_key = pre_key_of groups.3;
    })

  -- The keys of the versions, by which `sorted` orders them.
  unfoldable pub keyed : List String → Outcome (List (SemverKey × String))
  keyed [] = ok []
  keyed (version ∷ versions) = do
    key ← semver_key version
    rest ← keyed versions
    ok ((key, version) ∷ rest)

  -- `InMemoryPolicyStorage.versions`.
  abbrev pub versions_in : String → PairDict StoredPolicy → List String
  versions_in policy_id [] = []
  versions_in policy_id ((stored_id, version, s) ∷ d) =
      let rest = versions_in policy_id d in
      if eq_text stored_id policy_id then version ∷ rest else rest

  unfoldable pub list_versions : String → VersionedRegistry → Outcome (List String)
  unfolding keyed
  list_versions policy_id r = do
    entries ← keyed (versions_in policy_id r.storage)
    ok (
        map (λ (e : SemverKey × String). e.1)
          (sort_by (λ (a : SemverKey × String) (b : SemverKey × String). le_key a.0 b.0) entries))

  abbrev pub last_text : List String → Option String
  last_text [] = none
  last_text (x ∷ []) = some x
  last_text (x ∷ y ∷ ys) = last_text (y ∷ ys)

  unfoldable pub latest : String → VersionedRegistry → Outcome StoredPolicy
  unfolding list_versions
  latest policy_id r = do
    versions ← list_versions policy_id r
    version ← or_raise (last_text versions) (not_found_error policy_id)
    get_version policy_id version r

  abbrev pub lifecycles : String → VersionedRegistry → List String → Outcome (Dict PolicyLifecycle)
  lifecycles policy_id r [] = ok []
  lifecycles policy_id r (version ∷ versions) = do
    s ← lifecycle policy_id version r
    rest ← lifecycles policy_id r versions
    ok ((version, s) ∷ rest)

  unfoldable pub list_lifecycle : String → VersionedRegistry → Outcome (Dict PolicyLifecycle)
  unfolding list_versions
  list_lifecycle policy_id r = do
    versions ← list_versions policy_id r
    lifecycles policy_id r versions
