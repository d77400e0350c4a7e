-- ===== src/Live/Planner/Rounds.antt =====
-- The rounds of the loop of shortestPath of Mapnode/planner/planner.go.
use mathlib.Core.List.{Memᴰ}
use trust_map_prototype.Common.{
  ℕ, ◌+◌, ◌≤◌, ◌<◌, ◌≡◌, ◌≢◌, refl, sym, ap, subst, ◌∙◌, ◌⊎◌, inl, inr, true, false, some, List, [],
  ◌∷◌, All, All-imp, length, ok, err, if◌then◌else◌, Bool-cases, Option-cases, ltb, ltb→lt, arith,
}
use trust_map_prototype.Common.Maps.{lookup}
use trust_map_prototype.Common.Orders.{less, same, Order-cases}
use trust_map_prototype.Replay.Text.{Text, text_keyed}
use trust_map_prototype.Replay.Cost.{max_uint64}
use trust_map_prototype.Live.View.{TrustEdge}
use trust_map_prototype.Live.Planner.{
  path_cost_overflow, path_disappeared, Adjacency, out_edges, Candidate, Frontier,
  compare_candidate, is_stale, relax_all, is_seen,
}
use trust_map_prototype.Live.Planner.Graph.{IsWalk, stay, move, IsOut, HasOut, All-Mem, count}
use trust_map_prototype.Live.Planner.Reach.{is_seen-cons, is_seen_self, is_seen-cases}
use trust_map_prototype.Live.Planner.Ranks.{
  IsPopped, compare-chain, compare-flip, compare-cost, not_less,
}
use trust_map_prototype.Live.Planner.Frontiers.{HasBest, IsHandled, IsOpen, IsRelaxing}
use trust_map_prototype.Live.Planner.Relaxed.{IsAllRelaxed, relax_all-IsAllRelaxed}
use trust_map_prototype.Live.Planner.Answers.{
  IsFound, unexpanded, unexpanded-count, compare_self, found, too_dear, unreachable,
}

module _ (edges : List TrustEdge) (start target : Text) where
  -- From the best candidate of a node, a walk to the target passes a node in the queue.
  queued_on_walk :
      {n : Text} {path : List TrustEdge} {w : ℕ} (done : List Text) (s : Frontier) (b : Candidate)
      → IsOpen edges start target done s
      → IsWalk edges n target path w
      → lookup n s.best ≡ some b
      → (b.cost + w ≤ max_uint64) ⊎ (s.overflowed ≡ false)
      → (x : Candidate) × Memᴰ x s.queue × (x.cost ≤ b.cost + w)
  queued_on_walk done s b i (stay k) at fits = elim (i.waiting k b at) [
    | inl m ↦ (b, m, omega arith)
    | inr seen ↦ absurd ((i.expanded k b seen at).1 refl)
  ]
  queued_on_walk done s b i (move e to path w m walk) at fits = elim (i.waiting e.from b at) [
    | inl q ↦ (b, q, omega arith)
    | inr seen ↦ elim ((i.expanded e.from b seen at).2 e m refl) [
      | inl (c, at', le) ↦
          let (x, q, near) = queued_on_walk done s c i walk at' (nearer c le fits) in
          (x, q, omega (arith, near, le))
      | inr (over, flag) ↦ elim fits [
        | inl small ↦ absurd (omega (arith, over, small))
        | inr none_ ↦ absurd (cc (flag, none_))
      ]
    ]
  ]
    where
      nearer :
          (c : Candidate)
          → c.cost ≤ b.cost + e.path_step_cost
          → (b.cost + (e.path_step_cost + w) ≤ max_uint64) ⊎ (s.overflowed ≡ false)
          → (c.cost + w ≤ max_uint64) ⊎ (s.overflowed ≡ false)
      nearer c le (inl small) = inl (omega arith)
      nearer c le (inr flag) = inr flag

  -- A queue that is empty: no walk leads to the target but one whose cost overflows.
  pub exhausted-IsFound :
      (done : List Text) (s : Frontier)
      → IsOpen edges start target done s
      → s.queue ≡ []
      → IsFound edges start target
          (err (if s.overflowed then path_cost_overflow else path_disappeared))
  exhausted-IsFound done s i empty =
      let (b, at, zero_) = i.started in
      elim (Bool-cases s.overflowed) [
        | inr none_ ↦ rw none_ (
            unreachable refl
              (λ path w walk. nothing (queued_on_walk done s b i walk at (inr none_))))
        | inl flag ↦ rw flag (
            too_dear refl (λ path w walk. elim (Bool-cases (ltb max_uint64 w)) [
              | inl dear ↦ ltb→lt max_uint64 w dear
              | inr cheap ↦
                  absurd (nothing (queued_on_walk done s b i walk at (inl (small b w zero_ cheap))))
            ]))
      ]
    where
      nothing : {n : ℕ} → (x : Candidate) × Memᴰ x s.queue × (x.cost ≤ n) → ⊥
      nothing (x, m, le) = elim (subst (λ q. Memᴰ x q) empty m) [ ]

      small :
          (b : Candidate) (w : ℕ) → b.cost ≡ 0 → ltb max_uint64 w ≡ false → b.cost + w ≤ max_uint64
      small b w zero_ cheap = ground arith

  module _ (a : Adjacency) (out : IsOut edges a) (has : HasOut edges a)
      (counts : (k : Text) → length (out_edges a k) ≡ count k edges) (done : List Text)
      (s : Frontier) (item : Candidate) (others : List Candidate)
      (i : IsOpen edges start target done s) (p : IsPopped s.queue item others) where
    abbrev popped : Frontier
    popped = record s { queue = others }

    -- The best candidate of the node of an item that is not stale is the item.
    fresh-best :
        is_stale popped item ≡ false
        → (lookup item.node s.best ≡ some item) × (is_seen item.node done ≡ false)
    unfolding is_stale
    fresh-best h = elim (Option-cases (lookup item.node s.best)) [
      | inl none_ ↦ absurd (cc (rw (is_stale, none_) at h))
      | inr (known, at) ↦ elim (Order-cases (compare_candidate item known)) [
        | inl e ↦ absurd (cc (rw (is_stale, at, e) at h))
        | inr (inr e) ↦ absurd (cc (rw (is_stale, at, e) at h))
        | inr (inl e) ↦ (at ∙ ap some (it known at e), unseen known at e)
      ]
    ]
      where
        flipped :
            (known : Candidate)
            → compare_candidate item known ≡ same
            → compare_candidate known item ≡ same
        flipped known e = rw (compare-flip item known, e) refl

        unseen :
            (known : Candidate)
            → lookup item.node s.best ≡ some known
            → compare_candidate item known ≡ same
            → is_seen item.node done ≡ false
        unseen known at e = elim (Bool-cases (is_seen item.node done)) [
          | inr h ↦ h
          | inl seen ↦
              let below =
                (p.all (λ c. compare_candidate known c ≡ less)
                  (i.expanded item.node known seen at).0).0 in
              absurd (cc (below, flipped known e))
        ]

        it :
            (known : Candidate)
            → lookup item.node s.best ≡ some known
            → compare_candidate item known ≡ same
            → known ≡ item
        it known at e = elim (i.waiting item.node known at) [
          | inr seen ↦ absurd (cc (seen, unseen known at e))
          | inl m ↦ elim (p.covers known m) [
            | inl same_ ↦ same_
            | inr m' ↦
                absurd (cc (e, All-Mem (λ c. compare_candidate item c ≡ less) others p.least m'))
          ]
        ]

    pub stale-IsOpen : is_stale popped item ≡ true → IsOpen edges start target done popped
    unfolding is_stale
    stale-IsOpen h = record {
      walks = (p.all (λ c. IsWalk edges start c.node c.path c.cost) i.walks).1;
      known = (p.all (HasBest s.best) i.known).1;
      apart = p.apart;
      waiting = λ n b at. elim (i.waiting n b at) [
        | inr seen ↦ inr seen
        | inl m ↦ elim (p.covers b m) [
          | inr m' ↦ inl m'
          | inl same_ ↦
              let named : item.node ≡ n = ap (λ c. c.node) (sym same_) ∙ i.named n b at in
              let here : lookup item.node s.best ≡ some item =
                ap (λ k. lookup k s.best) named ∙ at ∙ ap some same_ in
              absurd (cc (rw (is_stale, here, compare_self item) at h))
        ]
      ];
      named = i.named;
      placed = i.placed;
      started = i.started;
      expanded = λ n b seen at.
          let (below, far, on) = i.expanded n b seen at in
          ((p.all (λ c. compare_candidate b c ≡ less) below).1, far, on);
    }

    popped-IsRelaxing :
        is_stale popped item ≡ false → IsRelaxing edges start target done item popped
    popped-IsRelaxing h =
        let (best, fresh) = fresh-best h in
        record {
          walks = (p.all (λ c. IsWalk edges start c.node c.path c.cost) i.walks).1;
          known = (p.all (HasBest s.best) i.known).1;
          apart = p.apart;
          above = p.least;
          best = best;
          fresh = fresh;
          waiting = λ n b at. elim (i.waiting n b at) [
            | inr seen ↦ inr (inl seen)
            | inl m ↦ elim (p.covers b m) [
              | inr m' ↦ inl m'
              | inl same_ ↦ inr (inr (sym (i.named n b at) ∙ ap (λ c. c.node) same_))
            ]
          ];
          named = i.named;
          placed = i.placed;
          started = i.started;
          expanded = λ n b seen at.
              let (below, far, on) = i.expanded n b seen at in
              ((p.all (λ c. compare_candidate b c ≡ less) below).0, far, on);
        }

    -- A candidate at the target: no walk is cheaper.
    pub target-IsFound :
        is_stale popped item ≡ false → item.node ≡ target → IsFound edges start target (ok item)
    target-IsFound h at_target =
        let walk = (p.all (λ c. IsWalk edges start c.node c.path c.cost) i.walks).0 in
        let (b, at, zero_) = i.started in
        found item refl (subst (λ k. IsWalk edges start k item.path item.cost) at_target walk)
          (λ path w other small.
            let (x, m, near) =
              queued_on_walk done s b i other at (inl (omega (arith, zero_, small))) in
            cheapest x w (p.covers x m) (omega (arith, near, zero_)))
      where
        cheapest : (x : Candidate) (w : ℕ) → (x ≡ item) ⊎ Memᴰ x others → x.cost ≤ w → item.cost ≤ w
        cheapest x w (inl e) le = subst (λ y. y.cost ≤ w) e le
        cheapest x w (inr m) le =
            let below = All-Mem (λ c. compare_candidate item c ≡ less) others p.least m in
            omega (arith, compare-cost x item (not_less item x below), le)

    pub onward-IsOpen :
        is_stale popped item ≡ false
        → item.node ≢ target
        → let s' = relax_all item popped (out_edges a item.node) in
          IsOpen edges start target (item.node ∷ done) s'
          × (length s'.queue + unexpanded edges (item.node ∷ done)
              < length s.queue + unexpanded edges done)
    unfolding is_seen
    onward-IsOpen h far =
        let s' = relax_all item popped (out_edges a item.node) in
        let walk = (p.all (λ c. IsWalk edges start c.node c.path c.cost) i.walks).0 in
        let r =
          relax_all-IsAllRelaxed edges start target done item walk popped (out_edges a item.node)
            (out item.node) (popped-IsRelaxing h) in
        let rest = r.relaxing in
        let less_edges = unexpanded-count edges item.node done r.relaxing.fresh in
        (
          record {
            walks = rest.walks;
            known = rest.known;
            apart = rest.apart;
            named = rest.named;
            started = rest.started;
            waiting = λ n b at. elim (rest.waiting n b at) [
              | inl m ↦ inl m
              | inr (inl seen) ↦ inr (is_seen-cons n item.node done seen)
              | inr (inr here) ↦ inr (
                  subst (λ k. is_seen k (item.node ∷ done) ≡ true) (sym here)
                    (is_seen_self item.node done))
            ];
            placed = λ n seen. elim (is_seen-cases n item.node done seen) [
              | inl here ↦ (item, ap (λ k. lookup k s'.best) here ∙ rest.best)
              | inr old ↦ rest.placed n old
            ];
            expanded = λ n b seen at. elim (is_seen-cases n item.node done seen) [
              | inl here ↦ now_expanded s' n b here far r at
              | inr old ↦
                  let (below, other, on) = rest.expanded n b old at in
                  (All-imp s'.queue (λ c up. compare-chain b item c below up) rest.above, other, on)
            ];
          },
          omega (arith, r.grows, p.shorter, counts item.node, less_edges),
        )
      where
        now_expanded :
            (s' : Frontier) (n : Text) (b : Candidate)
            → n ≡ item.node
            → item.node ≢ target
            → IsAllRelaxed edges start target done item popped s' (out_edges a item.node)
            → lookup n s'.best ≡ some b
            → All (λ c. compare_candidate b c ≡ less) s'.queue
              × (n ≢ target)
              × ((e : TrustEdge) → Memᴰ e edges → e.from ≡ n → IsHandled s' b e)
        now_expanded s' n b here far r at =
            let same_ : item ≡ b =
              cc (sym r.relaxing.best ∙ ap (λ k. lookup k s'.best) (sym here) ∙ at) in
            subst
              (λ y.
                All (λ c. compare_candidate y c ≡ less) s'.queue
                × (n ≢ target)
                × ((e : TrustEdge) → Memᴰ e edges → e.from ≡ n → IsHandled s' y e))
              same_
              (
                r.relaxing.above,
                (λ e. far (sym here ∙ e)),
                λ e m from.
                    All-Mem (IsHandled s' item) (out_edges a item.node) r.handled
                      (subst (λ k. Memᴰ e (out_edges a k)) (from ∙ here) (has e m)),
              )
