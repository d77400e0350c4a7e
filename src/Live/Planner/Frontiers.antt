-- ===== src/Live/Planner/Frontiers.antt =====
-- shortestPath of Mapnode/planner/planner.go: what holds of the queue and of the best candidates between
-- two rounds of its loop, and within one.
use mathlib.Core.List.{Memᴰ}
use trust_map_prototype.Common.{
  suc, ◌+◌, ◌≤◌, ◌<◌, ◌≡◌, ◌≢◌, ◌⊎◌, inl, inr, true, false, some, List, All, length, arith,
}
use trust_map_prototype.Common.Maps.{Map, lookup}
use trust_map_prototype.Common.Orders.{less, is_less}
use trust_map_prototype.Replay.Text.{Text, text_keyed}
use trust_map_prototype.Replay.Cost.{max_uint64}
use trust_map_prototype.Live.View.{TrustEdge}
use trust_map_prototype.Live.Planner.{Candidate, Frontier, compare_candidate, is_seen}
use trust_map_prototype.Live.Planner.Graph.{IsWalk}
use trust_map_prototype.Live.Planner.Ranks.{IsApart}

-- The best candidate of the node is not above the candidate.
abbrev pub HasBest : Map Text Candidate → Candidate → Type 0
HasBest best c =
    (b : Candidate) × (lookup c.node best ≡ some b) × (is_less (compare_candidate c b) ≡ false)

-- Over the edge from the node of `b`, its end costs no more than it must; or that sum overflows.
abbrev pub IsHandled : Frontier → Candidate → TrustEdge → Type 0
IsHandled s b e =
    ((c : Candidate) × (lookup e.to s.best ≡ some c) × (c.cost ≤ b.cost + e.path_step_cost))
    ⊎ (max_uint64 < b.cost + e.path_step_cost) × (s.overflowed ≡ true)

-- No node has a dearer best candidate than before.
pub record IsBetter (s s' : Frontier) : Type 0 where
  pub best :
      (n : Text) (b : Candidate)
      → lookup n s.best ≡ some b
      → (c : Candidate) × (lookup n s'.best ≡ some c) × (c.cost ≤ b.cost)
  pub overflowed : s.overflowed ≡ true → s'.overflowed ≡ true

pub IsHandled-better :
    {s s' : Frontier} (b : Candidate) (e : TrustEdge)
    → IsBetter s s'
    → IsHandled s b e
    → IsHandled s' b e
IsHandled-better b e i (inr (over, flag)) = inr (over, i.overflowed flag)
IsHandled-better b e i (inl (c, at, le)) =
    let (d, at', le') = i.best e.to c at in inl (d, at', omega arith)

module _ (edges : List TrustEdge) (start target : Text) where
  -- What holds between two rounds, where the nodes of `done` were expanded.
  pub record IsOpen (done : List Text) (s : Frontier) : Type 0 where
    pub walks : All (λ c. IsWalk edges start c.node c.path c.cost) s.queue
    pub known : All (HasBest s.best) s.queue
    pub apart : IsApart s.queue
    pub waiting :
        (n : Text) (b : Candidate)
        → lookup n s.best ≡ some b
        → Memᴰ b s.queue ⊎ (is_seen n done ≡ true)
    pub expanded :
        (n : Text) (b : Candidate)
        → is_seen n done ≡ true
        → lookup n s.best ≡ some b
        → All (λ c. compare_candidate b c ≡ less) s.queue
          × (n ≢ target)
          × ((e : TrustEdge) → Memᴰ e edges → e.from ≡ n → IsHandled s b e)
    pub named : (n : Text) (b : Candidate) → lookup n s.best ≡ some b → b.node ≡ n
    pub placed : (n : Text) → is_seen n done ≡ true → (b : Candidate) × (lookup n s.best ≡ some b)
    pub started : (b : Candidate) × (lookup start s.best ≡ some b) × (b.cost ≡ 0)

  -- What holds while the edges out of the node of `current` are relaxed.
  pub record IsRelaxing (done : List Text) (current : Candidate) (s : Frontier) : Type 0 where
    pub walks : All (λ c. IsWalk edges start c.node c.path c.cost) s.queue
    pub known : All (HasBest s.best) s.queue
    pub apart : IsApart s.queue
    pub above : All (λ c. compare_candidate current c ≡ less) s.queue
    pub best : lookup current.node s.best ≡ some current
    pub fresh : is_seen current.node done ≡ false
    pub waiting :
        (n : Text) (b : Candidate)
        → lookup n s.best ≡ some b
        → Memᴰ b s.queue ⊎ (is_seen n done ≡ true) ⊎ (n ≡ current.node)
    pub expanded :
        (n : Text) (b : Candidate)
        → is_seen n done ≡ true
        → lookup n s.best ≡ some b
        → (compare_candidate b current ≡ less)
          × (n ≢ target)
          × ((e : TrustEdge) → Memᴰ e edges → e.from ≡ n → IsHandled s b e)
    pub named : (n : Text) (b : Candidate) → lookup n s.best ≡ some b → b.node ≡ n
    pub placed : (n : Text) → is_seen n done ≡ true → (b : Candidate) × (lookup n s.best ≡ some b)
    pub started : (b : Candidate) × (lookup start s.best ≡ some b) × (b.cost ≡ 0)

  -- One edge: the state that it leaves, and what it does for that edge.
  pub record IsRelaxed (done : List Text) (current : Candidate) (s s' : Frontier) (e : TrustEdge)
      : Type 0 where
    pub relaxing : IsRelaxing done current s'
    pub better : IsBetter s s'
    pub handled : IsHandled s' current e
    pub grows : length s'.queue ≤ suc (length s.queue)
