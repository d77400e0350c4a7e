-- ===== src/Live/Planner/Answers.antt =====
-- The answers of shortestPath of Mapnode/planner/planner.go, and the edges that are left to its loop.
use trust_map_prototype.Common.{
  ℕ, suc, ◌+◌, ◌≤◌, ◌<◌, ◌≡◌, refl, sym, subst, inl, inr, true, false, List, [], ◌∷◌, ok, err,
  Result, if◌then◌else◌, Bool-cases, arith,
}
use trust_map_prototype.Common.Orders.{Order, less, same, more, flip}
use trust_map_prototype.Replay.Text.{Text, text_eq, text_eq_iff, text_keyed}
use trust_map_prototype.Replay.Cost.{max_uint64}
use trust_map_prototype.Live.View.{TrustEdge}
use trust_map_prototype.Live.Planner.{
  PlannerError, path_cost_overflow, path_disappeared, Candidate, compare_candidate, is_seen,
}
use trust_map_prototype.Live.Planner.Graph.{IsWalk, count}
use trust_map_prototype.Live.Planner.Ranks.{compare-flip}

-- The number of edges whose node was not expanded.
abbrev pub unexpanded : List TrustEdge → List Text → ℕ
unexpanded [] done = 0
unexpanded (e ∷ es) done =
    if is_seen e.from done then unexpanded es done else suc (unexpanded es done)

pub unexpanded-count :
    (edges : List TrustEdge) (k : Text) (done : List Text)
    → is_seen k done ≡ false
    → unexpanded edges (k ∷ done) + count k edges ≡ unexpanded edges done
unfolding is_seen
unexpanded-count [] k done fresh = refl
unexpanded-count (e ∷ es) k done fresh = elim (Bool-cases (text_eq e.from k)) [
  | inl it ↦
      let same_ = (text_eq_iff e.from k).0 it in
      let old : is_seen e.from done ≡ false =
        subst (λ j. is_seen j done ≡ false) (sym same_) fresh in
      let now : text_eq k e.from ≡ true = (text_eq_iff k e.from).1 (sym same_) in
      rw (it, now, old) (omega (arith, unexpanded-count es k done fresh))
  | inr other ↦
      let now : text_eq k e.from ≡ false =
        ground (arith, text_eq_iff k e.from, text_eq_iff e.from k) in
      elim (Bool-cases (is_seen e.from done)) [
        | inl old ↦ rw (other, now, old) (unexpanded-count es k done fresh)
        | inr old ↦ rw (other, now, old) (omega (arith, unexpanded-count es k done fresh))
      ]
]

pub compare_self : (c : Candidate) → compare_candidate c c ≡ same
compare_self c = fixed (compare_candidate c c) (compare-flip c c)
  where
    fixed : (o : Order) → o ≡ flip o → o ≡ same
    fixed less e = absurd (cc)
    fixed same e = refl
    fixed more e = absurd (cc)

-- A path to the target that no walk beats, of those that do not overflow; or the reason there is none.
pub data IsFound (edges : List TrustEdge) (start target : Text) (r : Result PlannerError Candidate)
    : Type 0 where
  found :
      (c : Candidate)
      → r ≡ ok c
      → IsWalk edges start target c.path c.cost
      → ((path : List TrustEdge) (w : ℕ)
          → IsWalk edges start target path w
          → w ≤ max_uint64
          → c.cost ≤ w)
      → IsFound edges start target r
  too_dear :
      r ≡ err path_cost_overflow
      → ((path : List TrustEdge) (w : ℕ) → IsWalk edges start target path w → max_uint64 < w)
      → IsFound edges start target r
  unreachable :
      r ≡ err path_disappeared
      → ((path : List TrustEdge) (w : ℕ) → IsWalk edges start target path w → ⊥)
      → IsFound edges start target r
