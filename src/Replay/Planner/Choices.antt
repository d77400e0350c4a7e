-- ===== src/Replay/Planner/Choices.antt =====
-- What Plan of ReplayPlanner (Mapnode/replay/replay_planner.go) returns, field by field.
use trust_map_prototype.Common.{
  ℕ, ◌+◌, ◌-◌, ◌≤◌, ◌<◌, ◌≡◌, true, false, ltb, leb, Option, none, some, ok, if◌then◌else◌, arith,
  Bool-cases, Result-cases, inl, inr,
}
use trust_map_prototype.Replay.Cost.{CostProfile, checked_add-ok, max_uint64}
use trust_map_prototype.Replay.View.{BlockKey, canonical_key, ReplayTrustView}
use trust_map_prototype.Replay.View.Soundness.{IsSound}
use trust_map_prototype.Replay.Scratch.{Scratch, IsStamped}
use trust_map_prototype.Replay.Search.{ReplayPath, shortest_path}
use trust_map_prototype.Replay.Search.Walks.{IsWalk}
use trust_map_prototype.Replay.Search.Shortest.{IsAnswer}
use trust_map_prototype.Replay.Search.Optimal.{asked, shortest_path-IsAnswer}
use trust_map_prototype.Replay.Planner.{ReplayPlanChoice, no_path, choose, plan, choice-same}

abbrev pub direct_choice : ℕ → ReplayPlanChoice
direct_choice direct_cost = record {
  use_trust_map = false;
  path_found = false;
  path = no_path;
  total_cost = direct_cost;
}

-- The choice between a path with its total and the direct cost.
abbrev pub path_choice : ReplayPath → ℕ → ℕ → ReplayPlanChoice
path_choice path total direct_cost = record {
  use_trust_map = ltb total direct_cost;
  path_found = true;
  path = path;
  total_cost = if ltb total direct_cost then total else direct_cost;
}

pub data IsChosen (profile : CostProfile) (view : ReplayTrustView) (start goal : BlockKey)
    (direct_cost : ℕ) (choice : ReplayPlanChoice) : Type 0 where
  no_way : direct_choice direct_cost ≡ choice → IsChosen profile view start goal direct_cost choice
  by_way :
      (p : ReplayPath)
      → IsWalk view.adjacency (canonical_key start) (canonical_key goal) p.nodes p.segments p.cost
      → p.cost + profile.trust_root_update_cost ≤ max_uint64
      → path_choice p (p.cost + profile.trust_root_update_cost) direct_cost ≡ choice
      → IsChosen profile view start goal direct_cost choice

module _ (profile : CostProfile) (pooled : Scratch) (view : ReplayTrustView) (start goal : BlockKey)
    (direct_cost : ℕ) (bound : direct_cost ≤ max_uint64) where
  choose-IsChosen :
      (r : Option ReplayPath) (choice : ReplayPlanChoice)
      → profile.trust_root_update_cost < direct_cost
      → IsAnswer
          (asked view (direct_cost - profile.trust_root_update_cost) goal.chain goal.height 0 0)
          (canonical_key start)
          (canonical_key goal)
          r
      → choose profile direct_cost r ≡ ok choice
      → IsChosen profile view start goal direct_cost choice
  unfolding choose
  choose-IsChosen none choice room answer run = no_way (choice-same run)
  choose-IsChosen (some p) choice room answer run =
      let fits : p.cost + profile.trust_root_update_cost ≤ max_uint64 = omega (arith, answer.1) in
      let added = checked_add-ok p.cost profile.trust_root_update_cost fits in
      by_way p answer.0 fits (choice-same (rw (choose, added) at run))

  pub plan-IsChosen :
      (choice : ReplayPlanChoice)
      → IsStamped pooled
      → IsSound view
      → plan profile pooled view start goal direct_cost ≡ ok choice
      → IsChosen profile view start goal direct_cost choice
  unfolding plan
  plan-IsChosen choice stamped h run =
      let cutoff = direct_cost - profile.trust_root_update_cost in
      elim (Bool-cases (leb direct_cost profile.trust_root_update_cost)) [
        | inl small ↦ no_way (choice-same (rw (plan, small) at run))
        | inr room ↦
            elim (Result-cases
              (shortest_path pooled view start goal cutoff goal.chain goal.height)) [
                | inr (_, lost) ↦ absurd (cc (rw (plan, room, lost) at run))
                | inl (r, found) ↦
                    choose-IsChosen r choice (ground arith)
                      (shortest_path-IsAnswer pooled view start goal cutoff goal.chain goal.height r
                        stamped h (omega arith) found)
                      (rw (plan, room, found) at run)
              ]
      ]
