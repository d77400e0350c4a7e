-- ===== src/Replay/Search/Neighbours.antt =====
-- The loop over all neighbours of an item in ShortestPath (Mapnode/replay/replay_dijkstra.go).
use trust_map_prototype.Common.{
  ◌+◌, ◌≤◌, ◌≡◌, subst, inl, inr, true, some, [], ◌∷◌, get_elem?, All, All-imp, ok, arith,
  Bool-cases, Result-cases,
}
use trust_map_prototype.Common.Maps.{Map, lookup, IsUnique}
use trust_map_prototype.Replay.Cost.{max_uint64}
use trust_map_prototype.Replay.View.{BlockKey, key_keyed, same_key, same_key_iff, ReplayEdge}
use trust_map_prototype.Replay.View.Edges.{edge_at}
use trust_map_prototype.Replay.Scratch.{QueueItem, Scratch}
use trust_map_prototype.Replay.Search.{Query, node_ok, relax_edge, relax}
use trust_map_prototype.Replay.Search.Walks.{Reaches}
use trust_map_prototype.Replay.Search.Relax.{skipped, kept, nearer, relax_edge-Relaxed}
use trust_map_prototype.Replay.Search.Marks.{
  Shortens, Shortens-trans, Reaches-Shortens, IsRelaxing, marked-IsRelaxing, marked-Shortens,
  marked-Reaches,
}

-- What an edge from a visited node asks of the scratch.
abbrev pub Covers : Query → QueueItem → Scratch → BlockKey × ReplayEdge → Type 0
Covers q item s (t, e) =
    node_ok q t ≡ true → item.cost + e.weight ≤ q.cutoff → Reaches q s t (item.cost + e.weight)

Shortens-refl : (s : Scratch) → Shortens s s
Shortens-refl s i d at = (d, at, omega arith)

module _ (q : Query) (item : QueueItem) (home : get_elem? q.view.node_keys item.id ≡ some item.key)
    (bound : item.cost ≤ max_uint64) where
  pub relax_edge-IsRelaxing :
      (s s' : Scratch) (t : BlockKey) (e : ReplayEdge)
      → edge_at q.view.adjacency item.key t ≡ some e
      → IsRelaxing q item s
      → relax_edge q item s (t, e) ≡ ok s'
      → IsRelaxing q item s' × Shortens s s' × Covers q item s' (t, e)
  relax_edge-IsRelaxing s s' t e edge h run = elim (relax_edge-Relaxed q item s t e s' bound run) [
    | skipped (inl far) same ↦ (
      subst (IsRelaxing q item) same h,
      subst (Shortens s) same (Shortens-refl s),
      λ good short. absurd (omega arith),
    )
    | skipped (inr low) same ↦ (
      subst (IsRelaxing q item) same h,
      subst (Shortens s) same (Shortens-refl s),
      λ good short. absurd (cc),
    )
    | kept id is within same ↦ (
      subst (IsRelaxing q item) same h,
      subst (Shortens s) same (Shortens-refl s),
      λ good short. subst (λ x. Reaches q x t (item.cost + e.weight)) same (id, is, within),
    )
    | nearer id is at low far short same ↦ (
      subst (IsRelaxing q item) same (marked-IsRelaxing q item s id t e home edge at low far h),
      subst (Shortens s) same (marked-Shortens q item s id t e home edge at low far h),
      λ good short.
          subst (λ x. Reaches q x t (item.cost + e.weight)) same
            (marked-Reaches q item s id t e home edge at low far h is),
    )
  ]

  pub relax-IsRelaxing :
      (es : Map BlockKey ReplayEdge) (s s' : Scratch)
      → All (λ x. edge_at q.view.adjacency item.key x.0 ≡ some x.1) es
      → IsRelaxing q item s
      → relax q item s es ≡ ok s'
      → IsRelaxing q item s' × Shortens s s' × All (Covers q item s') es
  unfolding relax
  relax-IsRelaxing [] s s' edges h run =
      let same : s ≡ s' = ground arith in
      (subst (IsRelaxing q item) same h, subst (Shortens s) same (Shortens-refl s), tt)
  relax-IsRelaxing ((t, e) ∷ es) s s' edges h run =
      elim (Result-cases (relax_edge q item s (t, e))) [
        | inr (_, failed) ↦ absurd (cc (rw (relax, failed) at run))
        | inl (next, done) ↦
            let (h₁, f₁, c₁) = relax_edge-IsRelaxing s next t e edges.0 h done in
            let (h₂, f₂, cs) = relax-IsRelaxing es next s' edges.1 h₁ (rw (relax, done) at run) in
            (
              h₂,
              Shortens-trans s next s' f₁ f₂,
              (
                λ good short.
                    Reaches-Shortens q next s' t (item.cost + e.weight) f₂ (c₁ good short),
                cs,
              ),
            )
      ]

-- The entries of a map with one entry for each key are what a lookup finds.
pub entries-lookup :
    (m : Map BlockKey ReplayEdge) → IsUnique m → All (λ x. lookup x.0 m ≡ some x.1) m
unfolding lookup
entries-lookup [] u = tt
entries-lookup ((k, e) ∷ m) u = (
  ground (arith, same_key_iff k k),
  All-imp m (λ x at. ground (arith, at, u.0, same_key_iff k x.0)) (entries-lookup m u.1),
)

pub lookup-All :
    (P : BlockKey × ReplayEdge → Type 0) (m : Map BlockKey ReplayEdge) (k : BlockKey)
    (e : ReplayEdge)
    → All P m
    → lookup k m ≡ some e
    → P (k, e)
unfolding lookup
lookup-All P [] k e all at = absurd (cc)
lookup-All P ((j, f) ∷ m) k e all at = elim (Bool-cases (same_key j k)) [
  | inl it ↦
      let key : j ≡ k = (same_key_iff j k).0 it in
      let val : f ≡ e = ground arith in subst (λ x. P (x, e)) key (subst (λ x. P (j, x)) val all.0)
  | inr other ↦ lookup-All P m k e all.1 (ground arith)
]
