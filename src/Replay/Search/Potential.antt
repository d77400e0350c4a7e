-- ===== src/Replay/Search/Potential.antt =====
-- How far the loop over the queue of ShortestPath (Mapnode/replay/replay_dijkstra.go) is from its
-- end: the distances that nodes can still lose, and the items of the queue.
use trust_map_prototype.Common.{
  ℕ, zero, suc, ◌+◌, ◌*◌, ◌≤◌, ◌<◌, ◌≡◌, ◌≢◌, refl, subst, inl, inr, ◌==◌, Option, none, some,
  length, ok, arith, Bool-cases, Option-cases, if◌then◌else◌,
}
use trust_map_prototype.Replay.Cost.{max_uint64}
use trust_map_prototype.Replay.View.{BlockKey, ReplayEdge}
use trust_map_prototype.Replay.Scratch.{
  QueueItem, Scratch, get_distance, set_predecessor, IsSized, get_distance-set_distance,
}
use trust_map_prototype.Replay.Search.{Query, relax_edge}
use trust_map_prototype.Replay.Search.Relax.{marked, skipped, kept, nearer, relax_edge-Relaxed}

unfoldable pub sum_below : (ℕ → ℕ) → ℕ → ℕ
sum_below f zero = 0
sum_below f (suc n) = f n + sum_below f n

sum_below-same :
    (f g : ℕ → ℕ) (n i : ℕ) → n ≤ i → ((j : ℕ) → i ≢ j → g j ≡ f j) → sum_below g n ≡ sum_below f n
unfolding sum_below
sum_below-same f g zero i h same = refl
sum_below-same f g (suc n) i h same =
    omega (arith, same n (λ e. omega arith), sum_below-same f g n i (omega arith) same)

sum_below-lower :
    (f g : ℕ → ℕ) (n i : ℕ)
    → i < n
    → ((j : ℕ) → i ≢ j → g j ≡ f j)
    → g i < f i
    → sum_below g n < sum_below f n
unfolding sum_below
sum_below-lower f g zero i h same lower = absurd (omega arith)
sum_below-lower f g (suc n) i h same lower = elim (Bool-cases (i == n)) [
  | inl last ↦
      let e : i ≡ n = ground arith in
      let at = subst (λ x. g x < f x) e lower in
      omega (arith, at, sum_below-same f g n i (omega arith) same)
  | inr before ↦
      omega (arith, same n (λ e. ground arith), sum_below-lower f g n i (ground arith) same lower)
]

pub sum_below-bound : (f : ℕ → ℕ) (n b : ℕ) → ((j : ℕ) → f j ≤ b) → sum_below f n ≤ n * b
unfolding sum_below
sum_below-bound f zero b h = omega arith
sum_below-bound f (suc n) b h = ground (arith, h n, sum_below-bound f n b h)

-- The distance, and more than the cutoff where there is none.
abbrev pub reach_cost : ℕ → Option ℕ → ℕ
reach_cost cutoff none = cutoff + 1
reach_cost cutoff (some d) = d

abbrev pub potential : Query → Scratch → ℕ
potential q s =
    sum_below (λ i. reach_cost q.cutoff (get_distance s i)) (length q.view.node_keys)
    + length s.queue

marked-distance :
    (item : QueueItem) (s : Scratch) (n id : ℕ) (t : BlockKey) (c j : ℕ)
    → IsSized s n
    → id < n
    → get_distance (marked item s id t c) j ≡ (if id == j then some c else get_distance s j)
unfolding set_predecessor get_distance
marked-distance item s n id t c j sized low = get_distance-set_distance s n id c j sized low

marked-potential :
    (q : Query) (item : QueueItem) (s : Scratch) (id : ℕ) (t : BlockKey) (c : ℕ)
    → IsSized s (length q.view.node_keys)
    → id < length q.view.node_keys
    → ((x : ℕ) → get_distance s id ≡ some x → c < x)
    → c ≤ q.cutoff
    → potential q (marked item s id t c) ≤ potential q s
marked-potential q item s id t c sized low far short =
    let n = length q.view.node_keys in
    let at = λ (j : ℕ). marked-distance item s n id t c j sized low in
    let old = get_distance s id in
    let lower : reach_cost q.cutoff (get_distance (marked item s id t c) id)
        < reach_cost q.cutoff (get_distance s id) =
      elim (Option-cases (get_distance s id)) [
        | inl none_ ↦ ground (arith, at id)
        | inr (x, some_) ↦ ground (arith, at id, far x some_)
      ] in
    omega (
      arith,
      sum_below-lower (λ i. reach_cost q.cutoff (get_distance s i))
          (λ i. reach_cost q.cutoff (get_distance (marked item s id t c) i)) n id low
          (λ j other. ground (arith, at j)) lower,
    )

-- Looking at a neighbour brings the loop no farther from its end.
pub relax_edge-potential :
    (q : Query) (item : QueueItem) (s : Scratch) (t : BlockKey) (e : ReplayEdge) (s' : Scratch)
    → item.cost ≤ max_uint64
    → IsSized s (length q.view.node_keys)
    → relax_edge q item s (t, e) ≡ ok s'
    → potential q s' ≤ potential q s
relax_edge-potential q item s t e s' b sized run = elim (relax_edge-Relaxed q item s t e s' b run) [
  | skipped _ same ↦ subst (λ x. potential q x ≤ potential q s) same (omega arith)
  | kept id is within same ↦ subst (λ x. potential q x ≤ potential q s) same (omega arith)
  | nearer id is at low far short same ↦
      subst (λ x. potential q x ≤ potential q s) same
        (marked-potential q item s id t (item.cost + e.weight) sized low far short)
]
