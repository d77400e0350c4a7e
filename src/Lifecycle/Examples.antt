-- ===== src/Lifecycle/Examples.antt =====
-- Concrete lifecycles of a request and of a piece of evidence.
use trust_map_prototype.Common.{◌≡◌, refl, true, List, [], ◌∷◌}
use trust_map_prototype.Lifecycle.Requests.{
  observed, evidence_ready, planned, proof_ready, RequestState, Milestones, IsHistory-Milestones,
}
use trust_map_prototype.Lifecycle.Requests
use trust_map_prototype.Lifecycle.Evidence.{
  candidate, verified, confirmed, EvidenceState, expected_past, IsHistory-expected_past,
}
use trust_map_prototype.Lifecycle.Evidence

abbrev passed : List RequestState
passed = planned ∷ evidence_ready ∷ observed ∷ []

proven : Requests.IsHistory proof_ready passed
unfolding Requests.validate_transition
proven =
    Requests.moved planned proof_ready _ true
      (Requests.moved evidence_ready planned _ true
        (Requests.moved observed evidence_ready _ true Requests.begun refl) refl)
      refl

IsHistory-Milestones_example : Milestones proof_ready passed
IsHistory-Milestones_example = IsHistory-Milestones proof_ready passed proven

accepted : Evidence.IsHistory confirmed (verified ∷ candidate ∷ [])
unfolding Evidence.validate_transition
accepted =
    Evidence.moved verified confirmed [] _
      (Evidence.moved candidate verified [] _ Evidence.begun refl) refl

IsHistory-expected_past_example : verified ∷ candidate ∷ [] ≡ expected_past confirmed
IsHistory-expected_past_example =
    IsHistory-expected_past confirmed (verified ∷ candidate ∷ []) accepted
