-- ===== src/Mesh/Conflict.antt =====
-- The aggregation of `GovernanceMesh.preflight`: the highest priority, the groups of equal decisions,
-- their ranking, and the conflicts among the inputs of the highest priority.
use governed_autonomy_substr.Base.{
  Bool, Dict, List, String, [], any, eq_text, false, get_or, if◌then◌else◌, insert, keep, le_text,
  not, sort_by, ◌&&◌, ◌++◌, ◌||◌, ◌∷◌,
}
use governed_autonomy_substr.Base.Int.{eq_ℤ, ltb_ℤ, pos, ℤ, ◌+ℤ◌}
use governed_autonomy_substr.Mesh.Input.{GovernanceInput, input_digest}
use governed_autonomy_substr.Platform.{Platform}
use governed_autonomy_substr.Value.{Value, dict, get, integer, text, texts}

abbrev pub Group : Type 0
Group = String × List GovernanceInput

-- `max(item.priority for item in items)`, over the items after the first.
unfoldable pub top_priority : ℤ → List GovernanceInput → ℤ
top_priority best [] = best
top_priority best (i ∷ is) = top_priority (if ltb_ℤ best i.priority then i.priority else best) is

unfoldable pub total_weight : List GovernanceInput → ℤ
total_weight [] = pos 0
total_weight (i ∷ is) = i.weight +ℤ total_weight is

abbrev pub by_source : List GovernanceInput → List GovernanceInput
by_source = sort_by (λ (a : GovernanceInput) (b : GovernanceInput). le_text a.source_id b.source_id)

-- The inputs of the highest priority.
unfoldable pub top_inputs : List GovernanceInput → List GovernanceInput
unfolding top_priority
top_inputs [] = []
top_inputs (i ∷ is) =
    keep (λ (item : GovernanceInput). eq_ℤ item.priority (top_priority i.priority is)) (i ∷ is)

abbrev pub group_priority : Group → ℤ
group_priority (d, []) = pos 0
group_priority (d, i ∷ is) = top_priority i.priority is

-- The sort key `(-max priority, -sum of weights, digest)`.
unfoldable pub ranks_before : Group → Group → Bool
ranks_before g h =
    ltb_ℤ (group_priority h) (group_priority g)
    || (eq_ℤ (group_priority g) (group_priority h)
        && (ltb_ℤ (total_weight h.1) (total_weight g.1)
            || (eq_ℤ (total_weight g.1) (total_weight h.1) && le_text g.0 h.0)))

module _ ⦃p : Platform⦄ where
  -- `groups.setdefault(item.digest(), []).append(item)`.
  unfoldable pub group_inputs : List GovernanceInput → Dict (List GovernanceInput) → List Group
  group_inputs [] groups = groups
  group_inputs (i ∷ is) groups =
      group_inputs is (insert (input_digest i) (get_or (input_digest i) [] groups ++ i ∷ []) groups)

  -- `len({item.digest() for item in items}) > 1`: two of them differ.
  unfoldable pub unresolved : List GovernanceInput → Bool
  unresolved [] = false
  unresolved (i ∷ is) =
      any (λ (item : GovernanceInput). not (eq_text (input_digest item) (input_digest i))) is

  abbrev pub conflict : ℤ → GovernanceInput → GovernanceInput → Value
  conflict priority source other = dict (
      ("source_ids", texts (source.source_id ∷ other.source_id ∷ []))
      ∷ ("left_digest", text (input_digest source))
      ∷ ("right_digest", text (input_digest other))
      ∷ ("left_allow", get "allow" source.decision)
      ∷ ("right_allow", get "allow" other.decision)
      ∷ ("priority", integer priority)
      ∷ [])

  -- The inner loop: the sources behind this one that disagree with it.
  unfoldable pub conflicts_with : ℤ → GovernanceInput → List GovernanceInput → List Value
  conflicts_with priority source [] = []
  conflicts_with priority source (other ∷ rest) =
      let found = conflicts_with priority source rest in
      if not (le_text other.source_id source.source_id)
        && not (eq_text (input_digest source) (input_digest other))
      then conflict priority source other ∷ found
      else found

  unfoldable pub conflicts_among : ℤ → List GovernanceInput → List GovernanceInput → List Value
  unfolding conflicts_with
  conflicts_among priority all_top [] = []
  conflicts_among priority all_top (source ∷ rest) =
      conflicts_with priority source all_top ++ conflicts_among priority all_top rest
