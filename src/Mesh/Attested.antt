-- ===== src/Mesh/Attested.antt =====
-- What a preflight decision rests on: attested inputs of different sources that agree where it matters.
use governed_autonomy_substr.Base.{All, Among, List, String, some, true, ◌↔◌, ◌≡◌, ◌≢◌}
use governed_autonomy_substr.Mesh.Input.{GovernanceInput, input_digest}
use governed_autonomy_substr.Mesh.Preflight.{Mesh, PreflightDecision, allowed, conflicted}
use governed_autonomy_substr.Mesh.Winner.{IsTop}
use governed_autonomy_substr.Platform.{Platform}
use governed_autonomy_substr.Value.{get, truthy}

module _ ⦃p : Platform⦄ where
  -- Inputs with one digest.
  abbrev pub Agree : List GovernanceInput → Type 0
  Agree inputs = (shared : String) × All (λ (i : GovernanceInput). input_digest i ≡ shared) inputs

  -- Two inputs of the highest priority have different decisions.
  abbrev pub Disagree : List GovernanceInput → Type 0
  Disagree inputs =
      (i : GovernanceInput) × (j : GovernanceInput) × IsTop inputs i
      × IsTop inputs j
      × (input_digest i ≢ input_digest j)

  -- What decides: an input that has the decision of an input of the highest priority, up to its digest.
  abbrev pub Decides : List GovernanceInput → PreflightDecision → Type 0
  Decides inputs d =
      (t : GovernanceInput) × (w : GovernanceInput) × IsTop inputs t
      × Among w inputs
      × (input_digest w ≡ input_digest t)
      × (d.selected_digest ≡ some (input_digest t))
      × (d.allow ≡ truthy (get "allow" w.decision))

  -- The decision of the aggregation, before it is recorded.
  abbrev pub Settles : List GovernanceInput → PreflightDecision → Type 0
  Settles inputs d =
      ((d.status ≡ conflicted) ↔ Disagree inputs)
      × ((d.allow ≡ true) ↔ (d.status ≡ allowed))
      × (d.status ≢ conflicted → Decides inputs d)
