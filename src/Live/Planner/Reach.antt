-- ===== src/Live/Planner/Reach.antt =====
-- directedReachability of Mapnode/planner/planner.go: it finds the target exactly where there is a walk.
use mathlib.Core.List.{Memᴰ}
use mathlib.Core.List.Memᴰ.{head, tail, append_left, append_right, cases_cons}
use trust_map_prototype.Common.{
  ℕ, zero, suc, ◌+◌, ◌≤◌, ◌<◌, ◌≡◌, ◌≢◌, refl, sym, ap, subst, ◌∙◌, ◌⊎◌, inl, inr, true, false,
  List, [], ◌∷◌, ◌++◌, All, All-append, All-imp, length, length-append, if◌then◌else◌, Bool-cases,
  arith,
}
use trust_map_prototype.Replay.Text.{Text, text_eq, text_eq_iff}
use trust_map_prototype.Live.View.{TrustEdge, TrustViewSnapshot}
use trust_map_prototype.Live.Planner.{
  Adjacency, out_edges, adjacency_of, is_seen, see_targets, reaches, directed_reachability,
}
use trust_map_prototype.Live.Planner.Graph.{
  IsWalk, IsReachable, extend, stay, move, IsOut, HasOut, adjacency_of-IsOut, adjacency_of-HasOut,
}

-- The number of edges whose target is not seen.
abbrev unseen : List TrustEdge → List Text → ℕ
unseen [] seen = 0
unseen (e ∷ es) seen = if is_seen e.to seen then unseen es seen else suc (unseen es seen)

pub is_seen-cons :
    (k j : Text) (seen : List Text) → is_seen k seen ≡ true → is_seen k (j ∷ seen) ≡ true
unfolding is_seen
is_seen-cons k j seen h = ground arith

pub is_seen_self : (k : Text) (seen : List Text) → is_seen k (k ∷ seen) ≡ true
unfolding is_seen
is_seen_self k seen = ground (arith, text_eq_iff k k)

pub is_seen-cases :
    (k j : Text) (seen : List Text)
    → is_seen k (j ∷ seen) ≡ true
    → (k ≡ j) ⊎ (is_seen k seen ≡ true)
unfolding is_seen
is_seen-cases k j seen h = elim (Bool-cases (text_eq j k)) [
  | inl it ↦ inl (sym ((text_eq_iff j k).0 it))
  | inr other ↦ inr (ground arith)
]

unseen_mono :
    (edges : List TrustEdge) (j : Text) (seen : List Text)
    → unseen edges (j ∷ seen) ≤ unseen edges seen
unseen_mono [] j seen = omega arith
unseen_mono (e ∷ es) j seen = ground (arith, unseen_mono es j seen, is_seen-cons e.to j seen)

-- A target that is seen now is counted no more.
unseen-less :
    (edges : List TrustEdge) (e : TrustEdge) (seen : List Text)
    → Memᴰ e edges
    → is_seen e.to seen ≡ false
    → suc (unseen edges (e.to ∷ seen)) ≤ unseen edges seen
unseen-less [] e seen m new = elim m [ ]
unseen-less (x ∷ xs) e seen (head same) new =
    let at : e.to ≡ x.to = ap (λ y. y.to) same in
    let now : is_seen x.to (e.to ∷ seen) ≡ true =
      subst (λ k. is_seen k (e.to ∷ seen) ≡ true) at (is_seen_self e.to seen) in
    let before : is_seen x.to seen ≡ false = subst (λ k. is_seen k seen ≡ false) at new in
    ground (arith, now, before, unseen_mono xs e.to seen)
unseen-less (x ∷ xs) e seen (tail m) new =
    ground (arith, unseen-less xs e seen m new, is_seen-cons x.to e.to seen)

-- What the inner loop makes of what is seen and of the queue.
record IsGrown (edges es : List TrustEdge) (seen queue seen' queue' : List Text) : Type 1 where
  keeps : (k : Text) → is_seen k seen ≡ true → is_seen k seen' ≡ true
  adds : (e : TrustEdge) → Memᴰ e es → is_seen e.to seen' ≡ true
  queued : (k : Text) → is_seen k seen' ≡ true → (is_seen k seen ≡ true) ⊎ Memᴰ k queue'
  stays : (k : Text) → Memᴰ k queue → Memᴰ k queue'
  sound : (P : Text → Type 0) → All P queue → All (λ e. P e.to) es → All P queue'
  shrinks : length queue' + unseen edges seen' ≤ length queue + unseen edges seen

see_targets-IsGrown :
    (edges es : List TrustEdge) (seen queue : List Text)
    → All (λ e. Memᴰ e edges) es
    → let (seen', queue') = see_targets seen queue es in IsGrown edges es seen queue seen' queue'
unfolding see_targets
see_targets-IsGrown edges [] seen queue inside = record {
  keeps = λ k h. h;
  adds = λ e m. elim m [ ];
  queued = λ k h. inl h;
  stays = λ k m. m;
  sound = λ P h g. h;
  shrinks = omega arith;
}
see_targets-IsGrown edges (e ∷ es) seen queue inside = elim (Bool-cases (is_seen e.to seen)) [
  | inl old ↦
      let g = see_targets-IsGrown edges es seen queue inside.1 in
      rw (see_targets, old)
        (record {
          keeps = g.keeps;
          adds = λ x m. added _ x m g.adds (g.keeps e.to old);
          queued = g.queued;
          stays = g.stays;
          sound = λ P h t. g.sound P h t.1;
          shrinks = g.shrinks;
        })
  | inr new ↦
      let g = see_targets-IsGrown edges es (e.to ∷ seen) (queue ++ e.to ∷ []) inside.1 in
      rw (see_targets, new)
        (record {
          keeps = λ k h. g.keeps k (is_seen-cons k e.to seen h);
          adds = λ x m. added _ x m g.adds (g.keeps e.to (is_seen_self e.to seen));
          queued = λ k h. moved _ k (g.queued k h) (g.stays e.to (append_right queue (head refl)));
          stays = λ k m. g.stays k (append_left (e.to ∷ []) m);
          sound = λ P h t. g.sound P (All-append P queue (e.to ∷ []) h (t.0, tt)) t.1;
          shrinks = omega (
            arith,
            g.shrinks,
            unseen-less edges e seen inside.0 new,
            length-append queue (e.to ∷ []),
          );
        })
]
  where
    added :
        (seen' : List Text) (x : TrustEdge)
        → Memᴰ x (e ∷ es)
        → ((y : TrustEdge) → Memᴰ y es → is_seen y.to seen' ≡ true)
        → is_seen e.to seen' ≡ true
        → is_seen x.to seen' ≡ true
    added seen' x (head same) rest now = subst (λ y. is_seen y.to seen' ≡ true) (sym same) now
    added seen' x (tail m) rest now = rest x m

    moved :
        (queue' : List Text) (k : Text)
        → (is_seen k (e.to ∷ seen) ≡ true) ⊎ Memᴰ k queue'
        → Memᴰ e.to queue'
        → (is_seen k seen ≡ true) ⊎ Memᴰ k queue'
    moved queue' k (inr m) here = inr m
    moved queue' k (inl h) here = elim (is_seen-cases k e.to seen h) [
      | inl same ↦ inr (subst (λ j. Memᴰ j queue') (sym same) here)
      | inr old ↦ inl old
    ]

module _ (edges : List TrustEdge) (a : Adjacency) (out : IsOut edges a) (has : HasOut edges a)
    (start target : Text) where
  record IsSearching (seen queue : List Text) : Type 0 where
    sound : All (IsReachable edges start) queue
    started : is_seen start seen ≡ true
    closed :
        (k : Text)
        → is_seen k seen ≡ true
        → Memᴰ k queue
          ⊎ (k ≢ target) × ((e : TrustEdge) → Memᴰ e edges → e.from ≡ k → is_seen e.to seen ≡ true)

  -- A search that is over has seen every node that a walk leads to, and not the target.
  exhausted :
      {from to : Text} {path : List TrustEdge} {w : ℕ} (seen : List Text)
      → IsSearching seen []
      → is_seen from seen ≡ true
      → IsWalk edges from to path w
      → to ≢ target
  exhausted seen i h (stay k) = elim (i.closed k h) [ inl m ↦ elim m [ ] | inr (other, _) ↦ other ]
  exhausted seen i h (move e to path w m walk) = elim (i.closed e.from h) [
    | inl q ↦ elim q [ ]
    | inr (_, onward) ↦ exhausted seen i (onward e m refl) walk
  ]

  targets :
      (current : Text)
      → IsReachable edges start current
      → All (λ e. IsReachable edges start e.to) (out_edges a current)
  targets current (path, w, walk) =
      All-imp (out_edges a current)
        (λ e h. (path ++ e ∷ [], w + e.path_step_cost, extend edges e walk h.0 h.1)) (out current)

  onward :
      (seen queue seen' queue' : List Text) (current k : Text)
      → text_eq current target ≡ false
      → IsGrown edges (out_edges a current) seen queue seen' queue'
      → IsSearching seen (current ∷ queue)
      → is_seen k seen' ≡ true
      → (is_seen k seen ≡ true) ⊎ Memᴰ k queue'
      → Memᴰ k queue'
        ⊎ (k ≢ target) × ((e : TrustEdge) → Memᴰ e edges → e.from ≡ k → is_seen e.to seen' ≡ true)
  onward seen queue seen' queue' current k other g i h (inr m) = inl m
  onward seen queue seen' queue' current k other g i h (inl old) = elim (i.closed k old) [
    | inr (far, on) ↦ inr (far, λ e m from. g.keeps e.to (on e m from))
    | inl m ↦ elim (cases_cons m) [
      | inr m' ↦ inl (g.stays k m')
      | inl same ↦ inr (
        (λ at. absurd (cc (other, (text_eq_iff current target).1 (sym same ∙ at)))),
        λ e m' from. g.adds e (subst (λ j. Memᴰ e (out_edges a j)) (from ∙ same) (has e m')),
      )
    ]
  ]

  reaches-exact :
      (fuel : ℕ) (seen queue : List Text)
      → length queue + unseen edges seen < fuel
      → IsSearching seen queue
      → (reaches fuel a target seen queue ≡ true) × IsReachable edges start target
        ⊎ (reaches fuel a target seen queue ≡ false)
          × ((path : List TrustEdge) (w : ℕ) → IsWalk edges start target path w → ⊥)
  unfolding reaches
  reaches-exact zero seen queue enough i = absurd (omega arith)
  reaches-exact (suc fuel) seen [] enough i =
      inr (refl, λ path w walk. exhausted seen i i.started walk refl)
  reaches-exact (suc fuel) seen (current ∷ queue) enough i =
      elim (Bool-cases (text_eq current target)) [
        | inl it ↦ inl (
          rw (reaches, it) refl,
          subst (IsReachable edges start) ((text_eq_iff current target).0 it) i.sound.0,
        )
        | inr other ↦
            let seen' = (see_targets seen queue (out_edges a current)).0 in
            let queue' = (see_targets seen queue (out_edges a current)).1 in
            let g =
              see_targets-IsGrown edges (out_edges a current) seen queue
                (All-imp (out_edges a current) (λ e h. h.0) (out current)) in
            rw (reaches, other)
              (reaches-exact fuel seen' queue' (omega (arith, g.shrinks)) (record {
                sound = g.sound (IsReachable edges start) i.sound.1 (targets current i.sound.0);
                started = g.keeps start i.started;
                closed = λ k h. onward seen queue seen' queue' current k other g i h (g.queued k h);
              }))
      ]

nothing : (k : Text) → is_seen k [] ≡ true → ⊥
unfolding is_seen
nothing k h = cc

unseen-bound : (edges : List TrustEdge) (seen : List Text) → unseen edges seen ≤ length edges
unseen-bound [] seen = omega arith
unseen-bound (e ∷ es) seen = ground (arith, unseen-bound es seen)

-- directedReachability answers true exactly where a walk along the snapshot's edges leads from its
-- start node to its target node: the fuel is enough for every snapshot.
pub directed_reachability-exact :
    (snapshot : TrustViewSnapshot)
    → ((directed_reachability snapshot).1 ≡ true)
        × IsReachable snapshot.edges snapshot.start_node_id snapshot.target_node_id
      ⊎ ((directed_reachability snapshot).1 ≡ false)
        × (IsReachable snapshot.edges snapshot.start_node_id snapshot.target_node_id → ⊥)
unfolding directed_reachability
directed_reachability-exact snapshot =
    let edges = snapshot.edges in
    let start = snapshot.start_node_id in
    elim (reaches-exact edges (adjacency_of edges) (adjacency_of-IsOut edges)
      (adjacency_of-HasOut edges) start snapshot.target_node_id (length edges + 2) (start ∷ [])
      (start ∷ []) (omega (arith, unseen-bound edges (start ∷ [])))
      (record {
        sound = (([], 0, stay start), tt);
        started = is_seen_self start [];
        closed = λ k h. inl (first k h);
      })) [ inl found ↦ inl found | inr (none_, lost) ↦ inr (none_, λ r. lost r.0 r.1 r.2) ]
  where
    first :
        (k : Text)
        → is_seen k (snapshot.start_node_id ∷ []) ≡ true
        → Memᴰ k (snapshot.start_node_id ∷ [])
    first k h = elim (is_seen-cases k snapshot.start_node_id [] h) [
      | inl same ↦ head same
      | inr none_ ↦ absurd (nothing k none_)
    ]
