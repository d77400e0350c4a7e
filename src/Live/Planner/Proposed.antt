-- ===== src/Live/Planner/Proposed.antt =====
-- Mapnode/planner/planner.go: what Planner.Plan makes of a snapshot that passed its checks.
use native.Mathlib.Nat.{div-lt_iff_lt-mul}
use mathlib.Core.List.{Memᴰ}
use mathlib.Core.List.Memᴰ.{head, tail}
use trust_map_prototype.Common.{
  ℕ, ◌≢◌, ==_iff, ◌*◌, ◌/◌, ◌≤◌, ◌<◌, ◌≡◌, refl, sym, ap, subst, ◌∙◌, inl, inr, true, false, ◌==◌,
  some, List, [], ◌∷◌, map, All, length, err, ltb, ltb→lt, Bool-cases, Result-cases, arith,
}
use trust_map_prototype.Replay.Text.{Text}
use trust_map_prototype.Replay.Cost.{max_uint64}
use trust_map_prototype.Live.View.{TrustEdge, TrustViewSnapshot}
use trust_map_prototype.Live.Planner.{
  PlannerError, inconsistent_path_step_cost, FallbackReason, uncalibrated_profile, no_path,
  PlanType, direct_plan, Plan, ValidatedDirectProfile, adjacency_of, directed_reachability,
}
use trust_map_prototype.Live.Planner.Proposal.{
  same_costs, trusted_path_step_cost, lacks_witness, propose_path, propose,
}
use trust_map_prototype.Live.Planner.Graph.{IsWalk, stay, move, All-Mem}
use trust_map_prototype.Live.Planner.Reach.{directed_reachability-exact}
use trust_map_prototype.Live.Planner.Answers.{found, too_dear, unreachable}
use trust_map_prototype.Live.Planner.Shortest.{shortest_path-IsFound}
use trust_map_prototype.Live.Planner.Proposals.{
  trusted-All, IsWalk-cost, lacks_witness-All, IsShortest, HasPath, IsProposed, HasMixedCosts, free,
  unequal, uncalibrated, no_walk, dear, unproven, by_path, mixed_costs, overflowing,
}

unequal_costs :
    (cost : ℕ) (es : List TrustEdge)
    → same_costs cost es ≡ false
    → (e : TrustEdge) × Memᴰ e es × (cost ≢ e.path_step_cost)
unfolding same_costs
unequal_costs cost [] h = absurd (cc)
unequal_costs cost (e ∷ es) h = elim (Bool-cases (e.path_step_cost == cost)) [
  | inr other ↦ (e, head refl, λ same. absurd (ground (arith, ==_iff e.path_step_cost cost)))
  | inl same ↦
      let (e', m, other) = unequal_costs cost es (rw (same_costs, same) at h) in (e', tail m, other)
]

trusted-error :
    (es : List TrustEdge) {e : PlannerError}
    → trusted_path_step_cost es ≡ err e
    → (inconsistent_path_step_cost ≡ e) × HasMixedCosts es
unfolding trusted_path_step_cost
trusted-error [] h = absurd (cc)
trusted-error (x ∷ es) h = elim (Bool-cases (x.path_step_cost == 0)) [
  | inl zero_ ↦ (
    cc (rw (trusted_path_step_cost, zero_) at h),
    free x (head refl) ((==_iff x.path_step_cost 0).0 zero_),
  )
  | inr some_ ↦ elim (Bool-cases (same_costs x.path_step_cost es)) [
    | inr mixed ↦
        let (e', m, other) = unequal_costs x.path_step_cost es mixed in
        (
          cc (rw (trusted_path_step_cost, some_, mixed) at h),
          unequal x e' (head refl) (tail m) other,
        )
    | inl one ↦ absurd (cc (rw (trusted_path_step_cost, some_, one) at h))
  ]
]

-- An edge of a walk has a positive cost.
IsWalk-positive :
    {edges : List TrustEdge} (step : ℕ) {from to : Text} {path : List TrustEdge} {w : ℕ}
    → All (λ e. (e.path_step_cost ≡ step) × (0 < step)) edges
    → IsWalk edges from to path w
    → 0 < length path
    → 0 < step
IsWalk-positive step h (stay k) some_ = absurd (omega arith)
IsWalk-positive {edges} step h (move e to path w m walk) some_ =
    (All-Mem (λ e. (e.path_step_cost ≡ step) × (0 < step)) edges h m).1

-- The test of the product is one of the walk's cost.
cost_test :
    {edges : List TrustEdge} (step : ℕ) {from to : Text} {path : List TrustEdge} {w : ℕ}
    → All (λ e. (e.path_step_cost ≡ step) × (0 < step)) edges
    → IsWalk edges from to path w
    → ltb (max_uint64 / step) (length path) ≡ ltb max_uint64 w
cost_test step {path = path} {w = w} h walk = elim (Bool-cases (ltb 0 (length path))) [
  | inr none_ ↦
      let empty : length path ≡ 0 = ground arith in
      let free : w ≡ 0 = IsWalk-cost step h walk ∙ rw empty (omega arith) in
      let none_below : ltb (max_uint64 / step) 0 ≡ false = ground arith in
      rw (empty, free, none_below) refl
  | inl some_ ↦
      let positive = IsWalk-positive step h walk (ltb→lt 0 (length path) some_) in
      let iff = div-lt_iff_lt-mul {k = step} {x = max_uint64} {y = length path} positive in
      rw (IsWalk-cost step h walk) (ground (arith, iff))
]

module _ (snapshot : TrustViewSnapshot) (profile : ValidatedDirectProfile) (plan : Plan)
    (ready : profile.calibrated ≡ true) where
  propose_path-IsProposed :
      (step : ℕ) (path : List TrustEdge) (w : ℕ)
      → All (λ e. (e.path_step_cost ≡ step) × (0 < step)) snapshot.edges
      → IsWalk snapshot.edges snapshot.start_node_id snapshot.target_node_id path w
      → ((other : List TrustEdge) (v : ℕ)
          → IsWalk snapshot.edges snapshot.start_node_id snapshot.target_node_id other v
          → v ≤ max_uint64
          → w ≤ v)
      → IsProposed snapshot profile (propose_path plan profile.direct_cost step path)
  unfolding propose_path
  propose_path-IsProposed step path w costs walk least =
      let test = cost_test step costs walk in
      let cost = IsWalk-cost step costs walk in
      elim (Bool-cases (ltb max_uint64 w)) [
        | inl over ↦
            rw (propose_path, test, over)
              (overflowing step refl ready costs (λ other v walk'.
                elim (Bool-cases (ltb max_uint64 v)) [
                  | inl high ↦ ltb→lt max_uint64 v high
                  | inr small ↦ absurd (exceeds v over small (least other v walk'))
                ]))
        | inr fits ↦
            let is : IsShortest snapshot path step w = record {
              walk = walk;
              cost = cost;
              shortest = λ other v walk'. elim (Bool-cases (ltb max_uint64 v)) [
                | inl high ↦ bounded v fits high
                | inr small ↦ least other v walk' (ground arith)
              ];
            } in
            let price : ltb profile.direct_cost (length path * step) ≡ ltb profile.direct_cost w =
              ap (ltb profile.direct_cost) (sym cost) in
            elim (Bool-cases (ltb profile.direct_cost w)) [
              | inl more ↦
                  rw (propose_path, test, fits, price, more)
                    (dear _ path step w refl ready costs (paid step path w cost) is
                      (ltb→lt profile.direct_cost w more) refl refl)
              | inr less ↦
                  let affordable : w ≤ profile.direct_cost = ground arith in
                  elim (Bool-cases (lacks_witness path)) [
                    | inl bare ↦
                        rw (propose_path, test, fits, price, less, bare)
                          (unproven _ path step w refl ready costs (paid step path w cost) is
                            affordable bare refl refl)
                    | inr full ↦
                        rw (propose_path, test, fits, price, less, full)
                          (by_path _ path step w refl ready costs (paid step path w cost) is
                            affordable (lacks_witness-All path full) refl)
                  ]
            ]
      ]
    where
      paid :
          {kind : PlanType} {reason : FallbackReason} (step : ℕ) (path : List TrustEdge) (w : ℕ)
          → w ≡ length path * step
          → HasPath
              (record plan {
                hops = map (λ e. e.id) path;
                path_step_cost = step;
                path_cost = some (length path * step);
                plan_type = kind;
                fallback_reason = reason;
              })
              path
              step
              w
      paid step path w cost = record {
        hops = refl;
        step_cost = refl;
        path_cost = ap some (sym cost);
      }

      exceeds :
          (v : ℕ)
          → ltb max_uint64 w ≡ true
          → ltb max_uint64 v ≡ false
          → (v ≤ max_uint64 → w ≤ v)
          → ⊥
      exceeds v over small le = ground (arith, le)

      bounded : (v : ℕ) → ltb max_uint64 w ≡ false → ltb max_uint64 v ≡ true → w ≤ v
      bounded v fits high = ground arith

-- The plan that is made for a snapshot: a direct plan for a profile that is not calibrated, or where
-- no walk leads from the start node to the target node; otherwise the hops of a walk between them
-- that no walk is cheaper than, at the cost of its steps, as a path plan exactly where that cost is
-- not above the direct cost and every edge of it has a witness, and as a direct plan with the reason
-- otherwise, and all but the first only where every edge of the snapshot has the same positive cost.
-- For a calibrated profile there are two errors: the one for the step costs, and then an
-- edge of the snapshot has no cost or two of them have different costs; and the overflow, and then
-- every such walk costs more than a uint64. The fuel of the searches is enough.
pub propose-IsProposed :
    (snapshot : TrustViewSnapshot) (plan : Plan) (profile : ValidatedDirectProfile)
    → IsProposed snapshot profile (propose snapshot plan profile)
unfolding propose directed_reachability
propose-IsProposed snapshot plan profile =
    let priced = record plan { direct_cost = some profile.direct_cost } in
    let edges = adjacency_of snapshot.edges in
    elim (Bool-cases profile.calibrated) [
      | inr raw ↦
          uncalibrated
            (record plan { plan_type = direct_plan; fallback_reason = uncalibrated_profile })
            (rw (propose, raw) refl) raw refl refl
      | inl ready ↦ elim (Result-cases (trusted_path_step_cost snapshot.edges)) [
        | inr (e, mixed) ↦
            let (same, has) = trusted-error snapshot.edges mixed in
            mixed_costs (rw (propose, ready, mixed) (ap err (sym same))) ready has
        | inl (step, trusted) ↦
            let costs = trusted-All snapshot.edges step trusted in
            elim (directed_reachability-exact snapshot) [
              | inr (none_, lost) ↦
                  no_walk (record priced { plan_type = direct_plan; fallback_reason = no_path })
                    step (rw (propose, ready, trusted, none_) refl) ready costs lost refl refl
              | inl (there, way) ↦ elim (shortest_path-IsFound snapshot) [
                | unreachable _ lost ↦ absurd (lost way.0 way.1 way.2)
                | too_dear e all ↦
                    overflowing step (rw (propose, ready, trusted, there, e) refl) ready costs all
                | found c e walk least ↦
                    let run : propose snapshot plan profile
                        ≡ propose_path priced profile.direct_cost step c.path =
                      rw (propose, ready, trusted, there, e) refl in
                    subst (IsProposed snapshot profile) (sym run) (
                      propose_path-IsProposed snapshot profile priced ready step c.path c.cost costs
                        walk least)
              ]
            ]
      ]
    ]
