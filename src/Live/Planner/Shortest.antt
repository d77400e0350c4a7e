-- ===== src/Live/Planner/Shortest.antt =====
-- shortestPath of Mapnode/planner/planner.go: it ends, and a path that it returns is a shortest one.
use mathlib.Core.List.Memᴰ.{head}
use trust_map_prototype.Common.{
  ℕ, zero, suc, ◌+◌, ◌≤◌, ◌<◌, ◌≡◌, refl, sym, ap, subst, ◌∙◌, inl, inr, some, List, [], ◌∷◌,
  length, Bool-cases, List-cases, arith,
}
use trust_map_prototype.Common.Maps.{lookup}
use trust_map_prototype.Replay.Text.{Text, text_eq, text_eq_iff, text_keyed}
use trust_map_prototype.Live.View.{TrustEdge, TrustViewSnapshot}
use trust_map_prototype.Live.Planner.{
  Adjacency, out_edges, adjacency_of, Candidate, Frontier, pop_least, is_stale, relax_all, search,
  start_candidate, start_frontier, shortest_path, is_seen,
}
use trust_map_prototype.Live.Planner.Graph.{
  stay, IsOut, HasOut, adjacency_of-IsOut, adjacency_of-HasOut, length-out_edges, count,
}
use trust_map_prototype.Live.Planner.Ranks.{IsApart, IsPopped, pop_least-IsPopped}
use trust_map_prototype.Live.Planner.Frontiers.{IsOpen}
use trust_map_prototype.Live.Planner.Answers.{IsFound, unexpanded, compare_self}
use trust_map_prototype.Live.Planner.Rounds.{
  exhausted-IsFound, stale-IsOpen, target-IsFound, onward-IsOpen,
}

module _ (edges : List TrustEdge) (start target : Text) where
  module _ (a : Adjacency) (out : IsOut edges a) (has : HasOut edges a)
      (counts : (k : Text) → length (out_edges a k) ≡ count k edges) where
    search-IsFound :
        (fuel : ℕ) (done : List Text) (s : Frontier)
        → length s.queue + unexpanded edges done < fuel
        → IsOpen edges start target done s
        → IsFound edges start target (search fuel a target s)
    unfolding search
    search-IsFound zero done s enough i = absurd (omega arith)
    search-IsFound (suc fuel) done s enough i = elim (List-cases s.queue) [
      | inl empty ↦ rw (search, empty) (exhausted-IsFound edges start target done s i empty)
      | inr (first, rest, full) ↦
          let (item, others) = pop_least first rest in
          let p : IsPopped s.queue item others =
            subst (λ q. IsPopped q item others) (sym full)
              (pop_least-IsPopped first rest (subst IsApart full i.apart)) in
          let shorter = p.shorter in
          elim (Bool-cases (is_stale (record s { queue = others }) item)) [
            | inl stale ↦
                rw (search, full, stale)
                  (search-IsFound fuel done (record s { queue = others }) (omega arith)
                    (stale-IsOpen edges start target a out has counts done s item others i p stale))
            | inr live ↦ elim (Bool-cases (text_eq item.node target)) [
              | inl it ↦
                  rw (search, full, live, it)
                    (target-IsFound edges start target a out has counts done s item others i p live
                      ((text_eq_iff item.node target).0 it))
              | inr other ↦
                  let (next, lower) =
                    onward-IsOpen edges start target a out has counts done s item others i p live
                      (λ e. absurd (cc (other, (text_eq_iff item.node target).1 e))) in
                  rw (search, full, live, other)
                    (search-IsFound fuel (item.node ∷ done)
                      (relax_all item (record s { queue = others }) (out_edges a item.node))
                      (omega (arith, lower)) next)
            ]
          ]
    ]

unexpanded-bound :
    (edges : List TrustEdge) (done : List Text) → unexpanded edges done ≤ length edges
unexpanded-bound [] done = omega arith
unexpanded-bound (e ∷ es) done = ground (arith, unexpanded-bound es done)

start_frontier-IsOpen :
    (edges : List TrustEdge) (start target : Text)
    → IsOpen edges start target [] (start_frontier start)
unfolding lookup is_seen
start_frontier-IsOpen edges start target =
    let at_start : lookup start (start_frontier start).best ≡ some (start_candidate start) =
      rw ((text_eq_iff start start).1 refl) refl in
    record {
      walks = (stay start, tt);
      known =
          ((start_candidate start, at_start, rw (compare_self (start_candidate start)) refl), tt);
      apart = (tt, tt);
      waiting = λ n b at. inl (head (sym (only n b at).1));
      named = λ n b at. ap (λ c. c.node) (sym (only n b at).1) ∙ (only n b at).0;
      placed = λ n seen. absurd (cc);
      expanded = λ n b seen at. absurd (cc);
      started = (start_candidate start, at_start, refl);
    }
  where
    only :
        (n : Text) (b : Candidate)
        → lookup n (start_frontier start).best ≡ some b
        → (start ≡ n) × (start_candidate start ≡ b)
    only n b at = elim (Bool-cases (text_eq start n)) [
      | inl it ↦ ((text_eq_iff start n).0 it, cc (rw it at at))
      | inr other ↦ absurd (cc (rw other at at))
    ]

-- shortestPath over the edges of a snapshot, whose fuel is enough, returns a walk along them from the
-- start node to the target node with the sum of its step costs, and no walk between them is cheaper,
-- of those whose cost is a uint64; or the overflow, where the cost of every such walk is greater than
-- a uint64; or the error for a path that is gone, where there is no such walk.
pub shortest_path-IsFound :
    (snapshot : TrustViewSnapshot)
    → IsFound snapshot.edges snapshot.start_node_id snapshot.target_node_id
        (shortest_path snapshot (adjacency_of snapshot.edges))
unfolding shortest_path
shortest_path-IsFound snapshot =
    let edges = snapshot.edges in
    search-IsFound edges snapshot.start_node_id snapshot.target_node_id (adjacency_of edges)
      (adjacency_of-IsOut edges) (adjacency_of-HasOut edges) (length-out_edges edges)
      (length edges + 2) [] (start_frontier snapshot.start_node_id)
      (omega (arith, unexpanded-bound edges []))
      (start_frontier-IsOpen edges snapshot.start_node_id snapshot.target_node_id)
