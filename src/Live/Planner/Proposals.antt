-- ===== src/Live/Planner/Proposals.antt =====
-- Mapnode/planner/planner.go: what Planner.Plan proposes, by its outcomes, and the costs of paths.
use native.Mathlib.Nat.{suc-mul}
use mathlib.Core.List.{Memᴰ}
use trust_map_prototype.Common.{
  ℕ, ◌≢◌, ◌*◌, ◌≤◌, ◌<◌, ◌≡◌, ◌∙◌, inl, inr, true, false, ◌==◌, ==_iff, some, List, [], ◌∷◌, map,
  All, All-imp, length, ok, err, Result, Bool-cases, arith,
}
use trust_map_prototype.Common.Maps.{is_some}
use trust_map_prototype.Replay.Text.{Text}
use trust_map_prototype.Replay.Cost.{max_uint64}
use trust_map_prototype.Live.View.{TrustEdge, TrustViewSnapshot}
use trust_map_prototype.Live.Planner.{
  PlannerError, inconsistent_path_step_cost, path_cost_overflow, uncalibrated_profile, no_path,
  path_cost_exceeds_direct, proof_material_missing, path_plan, direct_plan, Plan,
  ValidatedDirectProfile,
}
use trust_map_prototype.Live.Planner.Proposal.{same_costs, trusted_path_step_cost, lacks_witness}
use trust_map_prototype.Live.Planner.Graph.{IsWalk, stay, move, IsReachable, All-Mem}

same_costs-All :
    (cost : ℕ) (es : List TrustEdge)
    → same_costs cost es ≡ true
    → All (λ e. e.path_step_cost ≡ cost) es
unfolding same_costs
same_costs-All cost [] h = tt
same_costs-All cost (e ∷ es) h =
    (ground (arith, ==_iff e.path_step_cost cost), same_costs-All cost es (ground arith))

-- The step cost that is trusted is positive and that of every edge; there is none without edges.
pub trusted-All :
    (es : List TrustEdge) (step : ℕ)
    → trusted_path_step_cost es ≡ ok step
    → All (λ e. (e.path_step_cost ≡ step) × (0 < step)) es
unfolding trusted_path_step_cost
trusted-All [] step h = tt
trusted-All (e ∷ es) step h = elim (Bool-cases (e.path_step_cost == 0)) [
  | inl zero_ ↦ absurd (cc (rw (trusted_path_step_cost, zero_) at h))
  | inr some_ ↦ elim (Bool-cases (same_costs e.path_step_cost es)) [
    | inr mixed ↦ absurd (cc (rw (trusted_path_step_cost, some_, mixed) at h))
    | inl one ↦
        let same : e.path_step_cost ≡ step = cc (rw (trusted_path_step_cost, some_, one) at h) in
        let positive : 0 < step = ground (arith, same, ==_iff e.path_step_cost 0) in
        (
          (same, positive),
          All-imp es (λ x at. (at ∙ same, positive)) (same_costs-All e.path_step_cost es one),
        )
  ]
]

-- The cost of a walk over edges of one step cost.
pub IsWalk-cost :
    {edges : List TrustEdge} (step : ℕ) {from to : Text} {path : List TrustEdge} {w : ℕ}
    → All (λ e. (e.path_step_cost ≡ step) × (0 < step)) edges
    → IsWalk edges from to path w
    → w ≡ length path * step
IsWalk-cost step h (stay k) = omega arith
IsWalk-cost {edges} step h (move e to path w m walk) =
    let at = (All-Mem (λ e. (e.path_step_cost ≡ step) × (0 < step)) edges h m).0 in
    let rest = IsWalk-cost step h walk in
    let more = suc-mul (length path) step in omega (arith, at, rest, more)

-- The witnesses are all there.
pub lacks_witness-All :
    (es : List TrustEdge) → lacks_witness es ≡ false → All (λ e. is_some e.witness_id ≡ true) es
unfolding lacks_witness
lacks_witness-All [] h = tt
lacks_witness-All (e ∷ es) h = (ground arith, lacks_witness-All es (ground arith))

-- A walk from the start node to the target node, and no walk between them costs less.
pub record IsShortest (snapshot : TrustViewSnapshot) (path : List TrustEdge) (step w : ℕ)
    : Type 0 where
  pub walk : IsWalk snapshot.edges snapshot.start_node_id snapshot.target_node_id path w
  pub cost : w ≡ length path * step
  pub shortest :
      (other : List TrustEdge) (v : ℕ)
      → IsWalk snapshot.edges snapshot.start_node_id snapshot.target_node_id other v
      → w ≤ v

-- The plan has the hops of the path, and its cost.
pub record HasPath (p : Plan) (path : List TrustEdge) (step w : ℕ) : Type 0 where
  pub hops : p.hops ≡ map (λ e. e.id) path
  pub step_cost : p.path_step_cost ≡ step
  pub path_cost : p.path_cost ≡ some w

-- Every edge has the same positive cost.
abbrev pub IsUniform : ℕ → List TrustEdge → Type 0
IsUniform step edges = All (λ e. (e.path_step_cost ≡ step) × (0 < step)) edges

-- An edge without a cost, or two edges of different costs.
pub data HasMixedCosts (edges : List TrustEdge) : Type 0 where
  free : (e : TrustEdge) → Memᴰ e edges → e.path_step_cost ≡ 0 → HasMixedCosts edges
  unequal :
      (e e' : TrustEdge)
      → Memᴰ e edges
      → Memᴰ e' edges
      → e.path_step_cost ≢ e'.path_step_cost
      → HasMixedCosts edges

pub data IsProposed (snapshot : TrustViewSnapshot) (profile : ValidatedDirectProfile)
    (r : Result PlannerError Plan) : Type 0 where
  uncalibrated :
      (p : Plan)
      → r ≡ ok p
      → profile.calibrated ≡ false
      → p.plan_type ≡ direct_plan
      → p.fallback_reason ≡ uncalibrated_profile
      → IsProposed snapshot profile r
  no_walk :
      (p : Plan) (step : ℕ)
      → r ≡ ok p
      → profile.calibrated ≡ true
      → IsUniform step snapshot.edges
      → (IsReachable snapshot.edges snapshot.start_node_id snapshot.target_node_id → ⊥)
      → p.plan_type ≡ direct_plan
      → p.fallback_reason ≡ no_path
      → IsProposed snapshot profile r
  dear :
      (p : Plan) (path : List TrustEdge) (step w : ℕ)
      → r ≡ ok p
      → profile.calibrated ≡ true
      → IsUniform step snapshot.edges
      → HasPath p path step w
      → IsShortest snapshot path step w
      → profile.direct_cost < w
      → p.plan_type ≡ direct_plan
      → p.fallback_reason ≡ path_cost_exceeds_direct
      → IsProposed snapshot profile r
  unproven :
      (p : Plan) (path : List TrustEdge) (step w : ℕ)
      → r ≡ ok p
      → profile.calibrated ≡ true
      → IsUniform step snapshot.edges
      → HasPath p path step w
      → IsShortest snapshot path step w
      → w ≤ profile.direct_cost
      → lacks_witness path ≡ true
      → p.plan_type ≡ direct_plan
      → p.fallback_reason ≡ proof_material_missing
      → IsProposed snapshot profile r
  by_path :
      (p : Plan) (path : List TrustEdge) (step w : ℕ)
      → r ≡ ok p
      → profile.calibrated ≡ true
      → IsUniform step snapshot.edges
      → HasPath p path step w
      → IsShortest snapshot path step w
      → w ≤ profile.direct_cost
      → All (λ e. is_some e.witness_id ≡ true) path
      → p.plan_type ≡ path_plan
      → IsProposed snapshot profile r
  mixed_costs :
      r ≡ err inconsistent_path_step_cost
      → profile.calibrated ≡ true
      → HasMixedCosts snapshot.edges
      → IsProposed snapshot profile r
  overflowing :
      (step : ℕ)
      → r ≡ err path_cost_overflow
      → profile.calibrated ≡ true
      → IsUniform step snapshot.edges
      → ((path : List TrustEdge) (w : ℕ)
          → IsWalk snapshot.edges snapshot.start_node_id snapshot.target_node_id path w
          → max_uint64 < w)
      → IsProposed snapshot profile r
