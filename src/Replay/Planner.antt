-- ===== src/Replay/Planner.antt =====
-- ReplayPlanner of Mapnode/replay/replay_planner.go: a path of the graph where it is cheaper than the
-- direct verification. The planner is its profile.
use trust_map_prototype.Common.{
  ℕ, ◌+◌, ◌-◌, ◌≤◌, ◌<◌, ◌≡◌, refl, subst, Bool, true, false, ltb, leb, Option, none, some, List,
  [], All, Result, ok, ◌>>=◌, map_err, if◌then◌else◌, arith, ltb→lt, leb→le, Bool-cases,
  Result-cases, inl, inr,
}
use trust_map_prototype.Replay.Cost.{CostProfile, checked_add, checked_add-ok, max_uint64}
use trust_map_prototype.Replay.Cost
use trust_map_prototype.Replay.View.{BlockKey, canonical_key, ReplayTrustView}
use trust_map_prototype.Replay.View.Soundness.{IsSound}
use trust_map_prototype.Replay.Scratch.{Scratch, IsStamped}
use trust_map_prototype.Replay.Search.{SearchError, PathSegment, ReplayPath, shortest_path, node_ok}
use trust_map_prototype.Replay.Search.Walks.{IsWalk}
use trust_map_prototype.Replay.Search.Shortest.{IsAnswer}
use trust_map_prototype.Replay.Search.Optimal.{asked, shortest_path-IsAnswer}
pub mod Choices

pub data PlanError : Type 0 where
  searching : SearchError → PlanError
  total_overflow : Cost.Error → PlanError

pub record ReplayPlanChoice : Type 0 where
  pub use_trust_map : Bool
  pub path_found : Bool
  pub path : ReplayPath
  pub total_cost : ℕ

-- The zero value.
abbrev pub no_path : ReplayPath
no_path = record { cost = 0; nodes = []; segments = [] }

-- A path and its `found` flag are one option.
unfoldable pub choose : CostProfile → ℕ → Option ReplayPath → Result PlanError ReplayPlanChoice
choose profile direct_cost none =
    ok (record {
      use_trust_map = false;
      path_found = false;
      path = no_path;
      total_cost = direct_cost;
    })
choose profile direct_cost (some path) = do
  total ← map_err total_overflow (checked_add path.cost profile.trust_root_update_cost)
  let cheaper = ltb total direct_cost
  ok (record {
    use_trust_map = cheaper;
    path_found = true;
    path = path;
    total_cost = if cheaper then total else direct_cost;
  })

unfoldable pub plan :
    CostProfile
    → Scratch
    → ReplayTrustView
    → BlockKey
    → BlockKey
    → ℕ
    → Result PlanError ReplayPlanChoice
unfolding choose
plan profile pooled view start goal direct_cost =
    if leb direct_cost profile.trust_root_update_cost
    then ok (record {
      use_trust_map = false;
      path_found = false;
      path = no_path;
      total_cost = direct_cost;
    })
    else (map_err searching (
          shortest_path pooled view start goal (direct_cost - profile.trust_root_update_cost)
            goal.chain goal.height)
        >>= λ path. choose profile direct_cost path)

-- The nodes that the planner's search may visit.
abbrev pub IsAllowed : CostProfile → ReplayTrustView → BlockKey → ℕ → BlockKey → Type 0
IsAllowed profile view goal direct_cost k =
    node_ok (asked view (direct_cost - profile.trust_root_update_cost) goal.chain goal.height 0 0) k
    ≡ true

-- A path strictly cheaper than the direct verification, the update of the trust root included, or
-- the direct verification, where no walk through nodes that the search may visit is cheaper.
pub data IsPlan (profile : CostProfile) (view : ReplayTrustView) (start goal : BlockKey)
    (direct_cost : ℕ) (choice : ReplayPlanChoice) : Type 0 where
  by_path :
      choice.use_trust_map ≡ true
      → choice.total_cost ≡ choice.path.cost + profile.trust_root_update_cost
      → choice.total_cost < direct_cost
      → IsWalk view.adjacency
          (canonical_key start)
          (canonical_key goal)
          choice.path.nodes
          choice.path.segments
          choice.path.cost
      → IsPlan profile view start goal direct_cost choice
  by_direct :
      choice.use_trust_map ≡ false
      → choice.total_cost ≡ direct_cost
      → ((nodes : List BlockKey) (segments : List PathSegment) (w : ℕ)
          → IsWalk view.adjacency (canonical_key start) (canonical_key goal) nodes segments w
          → All (IsAllowed profile view goal direct_cost) nodes
          → direct_cost ≤ w + profile.trust_root_update_cost)
      → IsPlan profile view start goal direct_cost choice

pub choice-same :
    {a b : ReplayPlanChoice} → ◌≡◌ {A = Result PlanError ReplayPlanChoice} (ok a) (ok b) → a ≡ b
choice-same e = ground arith

module _ (profile : CostProfile) (pooled : Scratch) (view : ReplayTrustView) (start goal : BlockKey)
    (direct_cost : ℕ) (bound : direct_cost ≤ max_uint64) where
  -- A walk that is not within the cutoff, or no shorter than `c`, does not beat the direct cost.
  not_below :
      (w : ℕ) {c : ℕ}
      → (w ≤ direct_cost - profile.trust_root_update_cost → c ≤ w)
      → direct_cost ≤ c + profile.trust_root_update_cost
      → direct_cost ≤ w + profile.trust_root_update_cost
  not_below w longer high =
      elim (Bool-cases (leb w (direct_cost - profile.trust_root_update_cost))) [
        | inl within ↦ omega (arith, longer (leb→le _ _ within), high)
        | inr beyond ↦ ground arith
      ]

  choose-IsPlan :
      (r : Option ReplayPath) (choice : ReplayPlanChoice)
      → profile.trust_root_update_cost < direct_cost
      → IsAnswer
          (asked view (direct_cost - profile.trust_root_update_cost) goal.chain goal.height 0 0)
          (canonical_key start)
          (canonical_key goal)
          r
      → choose profile direct_cost r ≡ ok choice
      → IsPlan profile view start goal direct_cost choice
  unfolding choose
  choose-IsPlan none choice room answer run =
      by_direct (ground arith) (ground arith) (λ nodes segments w walk allowed.
        not_below w (answer nodes segments w walk allowed) (omega arith))
  choose-IsPlan (some p) choice room answer run =
      let total = p.cost + profile.trust_root_update_cost in
      let added = checked_add-ok p.cost profile.trust_root_update_cost (omega (arith, answer.1)) in
      let run' = rw (choose, added) at run in
      elim (Bool-cases (ltb total direct_cost)) [
        | inl cheaper ↦
            let e = choice-same (rw cheaper at run') in
            subst (IsPlan profile view start goal direct_cost) e
              (by_path refl refl (ltb→lt total direct_cost cheaper) answer.0)
        | inr dearer ↦
            let e = choice-same (rw dearer at run') in
            subst (IsPlan profile view start goal direct_cost) e (
              by_direct refl refl (λ nodes segments w walk allowed.
                not_below w (answer.2 nodes segments w walk allowed) (ground arith)))
      ]

  -- Over a sound graph, for a uint64 direct cost, a choice that Plan returns is the TrustMap path, a
  -- walk of the graph whose cost with the update of the trust root is strictly below the direct
  -- cost, or the direct verification at its cost, and then no walk through the nodes that the search
  -- may visit is strictly cheaper with the update.
  pub plan-IsPlan :
      (choice : ReplayPlanChoice)
      → IsStamped pooled
      → IsSound view
      → plan profile pooled view start goal direct_cost ≡ ok choice
      → IsPlan profile view start goal direct_cost choice
  unfolding plan
  plan-IsPlan choice stamped h run =
      elim (Bool-cases (leb direct_cost profile.trust_root_update_cost)) [
        | inl small ↦
            let e = choice-same (rw (plan, small) at run) in
            subst (IsPlan profile view start goal direct_cost) e
              (by_direct refl refl (λ nodes segments w walk allowed. ground arith))
        | inr room ↦
            let cutoff = direct_cost - profile.trust_root_update_cost in
            elim (Result-cases
              (shortest_path pooled view start goal cutoff goal.chain goal.height)) [
                | inr (_, lost) ↦ absurd (cc (rw (plan, room, lost) at run))
                | inl (r, found) ↦
                    choose-IsPlan r choice (ground arith)
                      (shortest_path-IsAnswer pooled view start goal cutoff goal.chain goal.height r
                        stamped h (omega arith) found)
                      (rw (plan, room, found) at run)
              ]
      ]
