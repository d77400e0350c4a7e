-- ===== src/Replay/View/Weights.antt =====
-- The weights of the edges of ReplayTrustView (Mapnode/replay/replay_trust_view.go).
use native.Mathlib.Nat.{mul-pos}
use trust_map_prototype.Common.{
  ℕ, ◌-◌, ◌≤◌, ◌<◌, ◌≡◌, sym, subst, ◌∙◌, ◌⊎◌, inl, inr, false, ◌==◌, Option, none, some, List, [],
  ◌∷◌, ◌++◌, All, All-append, ok, arith, Bool-cases, Result-cases, Option-cases, if◌then◌else◌,
}
use trust_map_prototype.Common.Maps.{lookup}
use trust_map_prototype.Replay.Text.{Text, text_keyed}
use trust_map_prototype.Replay.Cost.{CostProfile, max_uint64, validate_profile}
use trust_map_prototype.Replay.Heights.{contains, neighbours}
use trust_map_prototype.Replay.View.{
  ReplayBlock, BlockKey, block_key, ReplayEdge, verified_dependency, ReplayTrustView, PendingEdge,
  new_replay_trust_view, open_index, activate_locked, add_node, record_dependency,
  add_verified_dependency,
}
use trust_map_prototype.Replay.View.Edges.{edge_at, same_pair, last_set, edge_at-set_edge_locked}
use trust_map_prototype.Replay.View.Frame.{set_edge_locked-SameNodes}
use trust_map_prototype.Replay.View.Outcomes.{
  index_of, spliced_view, edges_of, blank, known, costly, spliced, activate_locked-Outcome,
}
use trust_map_prototype.Replay.View.Splice.{is_cut, pair_of, lower_pair, upper_pair, Surround}
use trust_map_prototype.Replay.View.Placement.{spliced_view-Reads, neighbours-Surround}
use trust_map_prototype.Replay.View.Soundness.{
  IsSound, uncut, added_view, spliced_view-SameNodes, activate_locked-IsSound,
}
use trust_map_prototype.Replay.View.Numbering.{open_index-IsNumbered}
use trust_map_prototype.Replay.View.Runs.{
  Reached, created, extended, blank_view, new_replay_trust_view-blank, Reached-IsSound,
}

-- The step costs and all weights are positive.
pub record IsWeighted (view : ReplayTrustView) : Type 0 where
  pub direct : 0 < view.profile.direct_step_cost
  pub path : 0 < view.profile.path_step_cost
  pub weights :
      (f t : BlockKey) (e : ReplayEdge) → edge_at view.adjacency f t ≡ some e → 0 < e.weight

last_set-All :
    (P : ReplayEdge → Type 0) (ps : List PendingEdge) (f t : BlockKey) (old : Option ReplayEdge)
    (e : ReplayEdge)
    → All (λ p. P p.edge) ps
    → last_set ps f t old ≡ some e
    → (old ≡ some e) ⊎ P e
last_set-All P [] f t old e a h = inl h
last_set-All P (p ∷ ps) f t old e a h =
    elim (last_set-All P ps f t (if same_pair p.from p.to f t then some p.edge else old) e a.1 h) [
      | inr it ↦ inr it
      | inl here ↦ elim (Bool-cases (same_pair p.from p.to f t)) [
        | inl set ↦ let same : p.edge ≡ e = ground (arith, rw set at here) in inr (subst P same a.0)
        | inr other ↦ inl (rw other at here)
      ]
    ]

module _ (view : ReplayTrustView) (w : IsWeighted view) where
  pair_of-positive :
      (key : BlockKey) (lower higher : ℕ)
      → lower < higher
      → All (λ p. 0 < p.edge.weight) (pair_of view.profile key.chain lower higher)
  pair_of-positive key lower higher h = (
    mul-pos {m = higher - lower} (omega arith) w.direct,
    (mul-pos {m = higher - lower} (omega arith) w.path, tt),
  )

  pairs-positive :
      (key : BlockKey) (p s : Option ℕ)
      → Surround key.height p s
      → All
          (λ p. 0 < p.edge.weight)
          (lower_pair view.profile key p ++ upper_pair view.profile key s)
  pairs-positive key none none h = tt
  pairs-positive key (some p) none h = pair_of-positive key p key.height h.0
  pairs-positive key none (some s) h = pair_of-positive key key.height s h.0
  pairs-positive key (some p) (some s) h =
      All-append (λ p. 0 < p.edge.weight) (pair_of view.profile key.chain p key.height)
        (pair_of view.profile key.chain key.height s) (pair_of-positive key p key.height h.0)
        (pair_of-positive key key.height s h.1)

  added_view-profile : (key : BlockKey) → (added_view view key).profile ≡ view.profile
  unfolding add_node open_index
  added_view-profile key = ground arith

  spliced_view-profile :
      (key : BlockKey) (edges : List PendingEdge)
      → (spliced_view view key edges).profile ≡ view.profile
  spliced_view-profile key edges =
      (spliced_view-SameNodes view key edges).profile ∙ added_view-profile key

  spliced_view-IsWeighted :
      (key : BlockKey) (edges : List PendingEdge)
      → key.height ≤ max_uint64
      → IsSound view
      → contains (index_of view key.chain) key.height ≡ false
      → edges_of view key ≡ ok edges
      → IsWeighted (spliced_view view key edges)
  spliced_view-IsWeighted key edges b h new pending =
      let (n, at, _) = open_index-IsNumbered view key.chain h.nodes in
      let index = index_of view key.chain in
      let i = h.nodes.indexed key.chain in
      let p = (neighbours index key.height).0 in
      let s = (neighbours index key.height).1 in
      let same = sym (spliced_view-profile key edges) in
      record {
        direct = subst (λ x. 0 < x.direct_step_cost) same w.direct;
        path = subst (λ x. 0 < x.path_step_cost) same w.path;
        weights = λ f t e here.
            elim (last_set-All (λ e. 0 < e.weight)
              (lower_pair view.profile key p ++ upper_pair view.profile key s) f t
              (if is_cut key.chain p s f t then none else edge_at view.adjacency f t) e
              (pairs-positive key p s (neighbours-Surround index key.height i b new))
              (sym (spliced_view-Reads view key edges h.consistent i b new pending f t) ∙ here)) [
                | inr positive ↦ positive
                | inl old ↦ w.weights f t e (uncut (is_cut key.chain p s f t) old)
              ];
      }

  open_index-IsWeighted : (chain : Text) → IsWeighted (open_index view chain).0
  unfolding open_index
  open_index-IsWeighted chain = elim (Option-cases (lookup chain view.heights)) [
    | inl e ↦ rw (e, open_index) (record { direct = w.direct; path = w.path; weights = w.weights })
    | inr (index, e) ↦ rw (e, open_index) w
  ]

  activate_locked-IsWeighted :
      (block : ReplayBlock)
      → (block_key block).height ≤ max_uint64
      → IsSound view
      → IsWeighted (activate_locked view block).0
  activate_locked-IsWeighted block b h =
      let key = block_key block in
      elim (activate_locked-Outcome view block) [
        | blank _ e ↦ rw e w
        | known _ e ↦ rw e (open_index-IsWeighted key.chain)
        | costly _ _ e ↦ rw e (open_index-IsWeighted key.chain)
        | spliced edges new pending e ↦ rw e (spliced_view-IsWeighted key edges b h new pending)
      ]

  record_dependency-IsWeighted :
      (from to : BlockKey) → IsWeighted (record_dependency view from to).0
  unfolding record_dependency
  record_dependency-IsWeighted from to =
      let edge : ReplayEdge = record {
        kind = verified_dependency;
        weight = view.profile.path_step_cost;
      } in
      let same = sym (set_edge_locked-SameNodes view from to edge).profile in
      elim (Bool-cases (view.cross_edges_added == max_uint64)) [
        | inl full ↦ rw (full, record_dependency) w
        | inr room ↦
            rw (room, record_dependency)
              (record {
                direct = subst (λ x. 0 < x.direct_step_cost) same w.direct;
                path = subst (λ x. 0 < x.path_step_cost) same w.path;
                weights = λ f t e here. elim (Bool-cases (same_pair from to f t)) [
                  | inl it ↦
                      let now =
                        rw it at (sym (edge_at-set_edge_locked view from to edge f t) ∙ here) in
                      let is : edge ≡ e = ground arith in subst (λ x. 0 < x.weight) is w.path
                  | inr other ↦
                      w.weights f t e
                        (rw other at (sym (edge_at-set_edge_locked view from to edge f t) ∙ here))
                ];
              })
      ]

add_verified_dependency-IsWeighted :
    (view : ReplayTrustView) (from_block to_block : ReplayBlock)
    → (block_key from_block).height ≤ max_uint64
    → (block_key to_block).height ≤ max_uint64
    → IsSound view
    → IsWeighted view
    → IsWeighted (add_verified_dependency view from_block to_block).0
unfolding add_verified_dependency
add_verified_dependency-IsWeighted view from_block to_block bf bt h w =
    let v = (activate_locked view from_block).0 in
    let h₁ = activate_locked-IsSound view from_block bf h in
    let w₁ = activate_locked-IsWeighted view w from_block bf h in
    let w₂ = activate_locked-IsWeighted v w₁ to_block bt h₁ in
    elim (Result-cases (activate_locked view from_block).1) [
      | inr (_, e) ↦ rw (add_verified_dependency, e) w₁
      | inl (from, e) ↦ elim (Result-cases (activate_locked v to_block).1) [
        | inr (_, e') ↦ rw (add_verified_dependency, e, e') w₂
        | inl (to, e') ↦
            rw (add_verified_dependency, e, e') (record_dependency-IsWeighted _ w₂ from to)
      ]
    ]

blank_view-IsWeighted :
    (profile : CostProfile) {view : ReplayTrustView}
    → new_replay_trust_view profile ≡ ok view
    → IsWeighted (blank_view profile)
unfolding new_replay_trust_view validate_profile lookup
blank_view-IsWeighted profile run = record {
  direct = ground arith;
  path = ground arith;
  weights = λ f t e h. absurd (cc);
}

-- In every view that AddVerifiedDependency calls reach from a new one, the two step costs of the
-- profile and the weights of all edges are positive.
pub Reached-IsWeighted :
    {profile : CostProfile} {view : ReplayTrustView} → Reached profile view → IsWeighted view
Reached-IsWeighted {profile} (created e) =
    subst IsWeighted (new_replay_trust_view-blank profile e) (blank_view-IsWeighted profile (e))
Reached-IsWeighted (extended from to bf bt r) =
    add_verified_dependency-IsWeighted _ from to bf bt (Reached-IsSound r) (Reached-IsWeighted r)
