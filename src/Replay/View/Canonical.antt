-- ===== src/Replay/View/Canonical.antt =====
-- The names in the edges of ReplayTrustView (Mapnode/replay/replay_trust_view.go), and the profile
-- that the methods keep.
use trust_map_prototype.Common.{
  ℕ, ◌≤◌, ◌≡◌, refl, sym, subst, ◌∙◌, inl, inr, false, ◌==◌, Option, none, some, List, [], ◌∷◌,
  ◌++◌, All-append, ok, arith, Bool-cases, Result-cases, Option-cases, if◌then◌else◌,
}
use trust_map_prototype.Common.Maps.{lookup}
use trust_map_prototype.Replay.Text.{Text, text_keyed, canonical_chain, canonical_chain_twice}
use trust_map_prototype.Replay.Cost.{CostProfile, max_uint64}
use trust_map_prototype.Replay.Heights.{contains, neighbours}
use trust_map_prototype.Replay.View.{
  ReplayBlock, BlockKey, block_key, canonical_key, ReplayEdge, verified_dependency, ReplayTrustView,
  PendingEdge, open_index, activate_locked, add_node, record_dependency, add_verified_dependency,
}
use trust_map_prototype.Replay.View.Edges.{edge_at, edge_at-set_edge_locked}
use trust_map_prototype.Replay.View.Frame.{set_edge_locked-SameNodes}
use trust_map_prototype.Replay.View.Outcomes.{
  index_of, spliced_view, edges_of, blank, known, costly, spliced, activate_locked-Outcome,
}
use trust_map_prototype.Replay.View.Splice.{is_cut, lower_pair, upper_pair}
use trust_map_prototype.Replay.View.Placement.{spliced_view-Reads}
use trust_map_prototype.Replay.View.Soundness.{
  IsSound, uncut, added_view, spliced_view-SameNodes, activate_locked-IsSound, Holds, last_set-some,
  All-lower_pair, All-upper_pair,
}

abbrev pub IsCanonicalKey : BlockKey → Type 0
IsCanonicalKey key = canonical_chain key.chain ≡ key.chain

-- The view has the profile, and its edges lead from and to canonical keys.
pub record IsCanonical (profile : CostProfile) (view : ReplayTrustView) : Type 0 where
  pub profiled : view.profile ≡ profile
  pub ends :
      (f t : BlockKey) (e : ReplayEdge)
      → edge_at view.adjacency f t ≡ some e
      → IsCanonicalKey f × IsCanonicalKey t

pub block_key-canonical : (block : ReplayBlock) → IsCanonicalKey (block_key block)
unfolding block_key
block_key-canonical block = canonical_chain_twice block.chain

pub canonical_key_of : (key : BlockKey) → IsCanonicalKey key → canonical_key key ≡ key
unfolding canonical_key
canonical_key_of key h = rw h refl

-- A key that Activate returns is the block's.
pub activate_locked-key :
    (view : ReplayTrustView) (block : ReplayBlock) {key : BlockKey}
    → (activate_locked view block).1 ≡ ok key
    → block_key block ≡ key
activate_locked-key view block h = elim (activate_locked-Outcome view block) [
  | blank _ e ↦ absurd (cc (rw e at h))
  | known _ e ↦ cc (rw e at h)
  | costly _ _ e ↦ absurd (cc (rw e at h))
  | spliced edges _ _ e ↦ cc (rw e at h)
]

module _ (profile : CostProfile) (view : ReplayTrustView) (c : IsCanonical profile view) where
  Holds-canonical :
      (key : BlockKey) (r : Option ℕ) → IsCanonicalKey key → Holds IsCanonicalKey key.chain r
  Holds-canonical key none h = tt
  Holds-canonical key (some height) h = h

  added_view-profile : (key : BlockKey) → (added_view view key).profile ≡ view.profile
  unfolding add_node open_index
  added_view-profile key = ground arith

  spliced_view-IsCanonical :
      (key : BlockKey) (edges : List PendingEdge)
      → IsCanonicalKey key
      → key.height ≤ max_uint64
      → IsSound view
      → contains (index_of view key.chain) key.height ≡ false
      → edges_of view key ≡ ok edges
      → IsCanonical profile (spliced_view view key edges)
  spliced_view-IsCanonical key edges canonical b h new pending =
      let index = index_of view key.chain in
      let i = h.nodes.indexed key.chain in
      let p = (neighbours index key.height).0 in
      let s = (neighbours index key.height).1 in
      record {
        profiled =
            (spliced_view-SameNodes view key edges).profile ∙ added_view-profile key ∙ c.profiled;
        ends = λ f t e here.
            elim (last_set-some IsCanonicalKey
              (lower_pair view.profile key p ++ upper_pair view.profile key s) f t
              (if is_cut key.chain p s f t then none else edge_at view.adjacency f t)
              (All-append (λ x. IsCanonicalKey x.from × IsCanonicalKey x.to)
                (lower_pair view.profile key p) (upper_pair view.profile key s)
                (All-lower_pair IsCanonicalKey view.profile key canonical p
                  (Holds-canonical key p canonical))
                (All-upper_pair IsCanonicalKey view.profile key canonical s
                  (Holds-canonical key s canonical)))
              (sym (spliced_view-Reads view key edges h.consistent i b new pending f t) ∙ here)) [
                | inr both ↦ both
                | inl old ↦ c.ends f t e (uncut (is_cut key.chain p s f t) old)
              ];
      }

  open_index-IsCanonical : (chain : Text) → IsCanonical profile (open_index view chain).0
  unfolding open_index
  open_index-IsCanonical chain = elim (Option-cases (lookup chain view.heights)) [
    | inl e ↦ rw (e, open_index) (record { profiled = c.profiled; ends = c.ends })
    | inr (index, e) ↦ rw (e, open_index) c
  ]

  pub activate_locked-IsCanonical :
      (block : ReplayBlock)
      → (block_key block).height ≤ max_uint64
      → IsSound view
      → IsCanonical profile (activate_locked view block).0
  activate_locked-IsCanonical block b h =
      let key = block_key block in
      elim (activate_locked-Outcome view block) [
        | blank _ e ↦ rw e c
        | known _ e ↦ rw e (open_index-IsCanonical key.chain)
        | costly _ _ e ↦ rw e (open_index-IsCanonical key.chain)
        | spliced edges new pending e ↦
            rw e (spliced_view-IsCanonical key edges (block_key-canonical block) b h new pending)
      ]

  record_dependency-IsCanonical :
      (from to : BlockKey)
      → IsCanonicalKey from
      → IsCanonicalKey to
      → IsCanonical profile (record_dependency view from to).0
  unfolding record_dependency
  record_dependency-IsCanonical from to at_from at_to =
      let edge : ReplayEdge = record {
        kind = verified_dependency;
        weight = view.profile.path_step_cost;
      } in
      elim (Bool-cases (view.cross_edges_added == max_uint64)) [
        | inl full ↦ rw (full, record_dependency) c
        | inr room ↦
            rw (room, record_dependency)
              (record {
                profiled = (set_edge_locked-SameNodes view from to edge).profile ∙ c.profiled;
                ends = λ f t e here.
                    elim (last_set-some IsCanonicalKey
                      (record { from = from; to = to; edge = edge } ∷ []) f t
                      (edge_at view.adjacency f t) ((at_from, at_to), tt)
                      (sym (edge_at-set_edge_locked view from to edge f t) ∙ here)) [
                        | inr both ↦ both
                        | inl old ↦ c.ends f t e old
                      ];
              })
      ]

pub add_verified_dependency-IsCanonical :
    (profile : CostProfile) (view : ReplayTrustView) (from_block to_block : ReplayBlock)
    → (block_key from_block).height ≤ max_uint64
    → (block_key to_block).height ≤ max_uint64
    → IsSound view
    → IsCanonical profile view
    → IsCanonical profile (add_verified_dependency view from_block to_block).0
unfolding add_verified_dependency
add_verified_dependency-IsCanonical profile view from_block to_block bf bt h c =
    let v = (activate_locked view from_block).0 in
    let h₁ = activate_locked-IsSound view from_block bf h in
    let c₁ = activate_locked-IsCanonical profile view c from_block bf h in
    let c₂ = activate_locked-IsCanonical profile v c₁ to_block bt h₁ in
    elim (Result-cases (activate_locked view from_block).1) [
      | inr (_, e) ↦ rw (add_verified_dependency, e) c₁
      | inl (from, e) ↦ elim (Result-cases (activate_locked v to_block).1) [
        | inr (_, e') ↦ rw (add_verified_dependency, e, e') c₂
        | inl (to, e') ↦
            rw (add_verified_dependency, e, e')
              (record_dependency-IsCanonical profile _ c₂ from to
                (subst IsCanonicalKey (activate_locked-key view from_block e)
                  (block_key-canonical from_block))
                (subst IsCanonicalKey (activate_locked-key v to_block e')
                  (block_key-canonical to_block)))
      ]
    ]
