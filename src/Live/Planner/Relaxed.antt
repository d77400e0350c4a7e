-- ===== src/Live/Planner/Relaxed.antt =====
-- The inner loop of shortestPath of Mapnode/planner/planner.go.
use mathlib.Core.List.{Memᴰ}
use mathlib.Core.List.Memᴰ.{head, tail}
use trust_map_prototype.Common.{
  ◌+◌, ◌-◌, ◌≤◌, ◌<◌, ◌≡◌, ◌≢◌, refl, sym, ap, subst, ◌∙◌, ◌⊎◌, inl, inr, true, false, some, List,
  [], ◌∷◌, All, All-imp, length, if◌then◌else◌, ltb, ltb→lt, Bool-cases, Option-cases, arith,
}
use trust_map_prototype.Common.Maps.{lookup, insert, lookup-insert}
use trust_map_prototype.Common.Orders.{less, same, is_less}
use trust_map_prototype.Replay.Text.{Text, text_eq, text_eq_iff, text_keyed}
use trust_map_prototype.Replay.Cost.{max_uint64}
use trust_map_prototype.Live.View.{TrustEdge}
use trust_map_prototype.Live.Planner.{
  Candidate, Frontier, compare_candidate, extended, relax, relax_all, is_seen,
}
use trust_map_prototype.Live.Planner.Graph.{IsWalk, extend}
use trust_map_prototype.Live.Planner.Frontiers.{
  HasBest, IsHandled, IsBetter, IsHandled-better, IsRelaxing, IsRelaxed,
}
use trust_map_prototype.Live.Planner.Ranks.{
  compare-chain, compare-same, same-node, compare-cost, extended-above, not_less, is_less-less,
}

module _ (edges : List TrustEdge) (start target : Text) where
  module _ (done : List Text) (current : Candidate)
      (walk : IsWalk edges start current.node current.path current.cost) (s : Frontier)
      (e : TrustEdge) (m : Memᴰ e edges) (leaves : e.from ≡ current.node)
      (r : IsRelaxing edges start target done current s) where
    overflow-IsRelaxed :
        max_uint64 < current.cost + e.path_step_cost
        → IsRelaxed edges start target done current s (record s { overflowed = true }) e
    overflow-IsRelaxed over = record {
      relaxing = record {
        walks = r.walks;
        known = r.known;
        apart = r.apart;
        above = r.above;
        best = r.best;
        fresh = r.fresh;
        waiting = r.waiting;
        named = r.named;
        placed = r.placed;
        started = r.started;
        expanded = λ n b seen at.
            let (below, far, on) = r.expanded n b seen at in
            (below, far, λ x mx from. IsHandled-better b x flagged (on x mx from));
      };
      better = flagged;
      handled = inr (over, refl);
      grows = omega arith;
    }
      where
        flagged : IsBetter s (record s { overflowed = true })
        flagged = record { best = λ n b at. (b, at, omega arith); overflowed = λ h. refl }

    kept-IsRelaxed :
        (known : Candidate)
        → lookup e.to s.best ≡ some known
        → is_less (compare_candidate (extended current e) known) ≡ false
        → IsRelaxed edges start target done current s s e
    kept-IsRelaxed known at dearer = record {
      relaxing = r;
      better = record { best = λ n b at. (b, at, omega arith); overflowed = λ h. h };
      handled = inl (known, at, compare-cost (extended current e) known dearer);
      grows = omega arith;
    }

    -- A new best candidate: there was none of its node, or it is below that one.
    module _
        (news : (known : Candidate)
          → lookup e.to s.best ≡ some known
          → compare_candidate (extended current e) known ≡ less) where
      abbrev next : Candidate
      next = extended current e

      abbrev pushed : Frontier
      pushed = record s { queue = next ∷ s.queue; best = insert e.to next s.best }

      pushed-at :
          (n : Text)
          → lookup n pushed.best ≡ (if text_eq e.to n then some next else lookup n s.best)
      pushed-at n = lookup-insert e.to n next s.best

      pushed-IsBetter : IsBetter s pushed
      pushed-IsBetter = record {
        best = λ n b at. elim (Bool-cases (text_eq e.to n)) [
          | inr other ↦ (b, pushed-at n ∙ rw other at, omega arith)
          | inl it ↦
              let here : lookup e.to s.best ≡ some b =
                subst (λ k. lookup k s.best ≡ some b) (sym ((text_eq_iff e.to n).0 it)) at in
              (next, pushed-at n ∙ rw it refl, compare-cost b next (not_less next b (news b here)))
        ];
        overflowed = λ h. h;
      }

      not_self : is_less (compare_candidate next next) ≡ false
      not_self = elim (Bool-cases (is_less (compare_candidate next next))) [
        | inr h ↦ h
        | inl h ↦ absurd (cc (h, not_less next next (is_less-less (compare_candidate next next) h)))
      ]

      -- The best candidate below the new one has stayed.
      unmoved :
          (n : Text) (c : Candidate)
          → lookup n s.best ≡ some c
          → compare_candidate c next ≡ less
          → text_eq e.to n ≡ false
      unmoved n c at below = elim (Bool-cases (text_eq e.to n)) [
        | inr other ↦ other
        | inl it ↦
            let here : lookup e.to s.best ≡ some c =
              subst (λ k. lookup k s.best ≡ some c) (sym ((text_eq_iff e.to n).0 it)) at in
            absurd (cc (not_less c next below, news c here))
      ]

      queued-HasBest : (c : Candidate) → HasBest s.best c → HasBest pushed.best c
      queued-HasBest c (b, at, up) = elim (Bool-cases (text_eq e.to c.node)) [
        | inr other ↦ (b, pushed-at c.node ∙ rw other at, up)
        | inl it ↦
            let here : lookup e.to s.best ≡ some b =
              subst (λ k. lookup k s.best ≡ some b) (sym ((text_eq_iff e.to c.node).0 it)) at in
            (next, pushed-at c.node ∙ rw it refl, not_below c b up (news b here))
      ]
        where
          not_below :
              (c b : Candidate)
              → is_less (compare_candidate c b) ≡ false
              → compare_candidate next b ≡ less
              → is_less (compare_candidate c next) ≡ false
          not_below c b up low = elim (Bool-cases (is_less (compare_candidate c next))) [
            | inr h ↦ h
            | inl h ↦
                absurd
                  (cc (up, compare-chain c next b (is_less-less (compare_candidate c next) h) low))
          ]

      next-apart : (d : Candidate) → HasBest s.best d → compare_candidate next d ≢ same
      next-apart d (b, at, up) equal =
          let here : lookup e.to s.best ≡ some b =
            subst (λ k. lookup k s.best ≡ some b) (sym (same-node next d equal)) at in
          absurd (cc (up, compare-same next d b equal, news b here))

      next-best : lookup e.to pushed.best ≡ some next
      next-best = pushed-at e.to ∙ rw ((text_eq_iff e.to e.to).1 refl) refl

      pushed-expanded :
          (n : Text) (b : Candidate)
          → is_seen n done ≡ true
          → lookup n pushed.best ≡ some b
          → (compare_candidate b current ≡ less)
            × (n ≢ target)
            × ((x : TrustEdge) → Memᴰ x edges → x.from ≡ n → IsHandled pushed b x)
      pushed-expanded n b seen at =
          let (c, before) = r.placed n seen in
          let (below, far, on) = r.expanded n c seen before in
          let other =
            unmoved n c before (compare-chain c current next below (extended-above current e)) in
          let same : c ≡ b = cc (rw other at (sym (pushed-at n) ∙ at), before) in
          subst
            (λ y.
              (compare_candidate y current ≡ less)
              × (n ≢ target)
              × ((x : TrustEdge) → Memᴰ x edges → x.from ≡ n → IsHandled pushed y x))
            same (below, far, λ x mx from. IsHandled-better c x pushed-IsBetter (on x mx from))

      pushed-waiting :
          (n : Text) (b : Candidate)
          → lookup n pushed.best ≡ some b
          → Memᴰ b pushed.queue ⊎ (is_seen n done ≡ true) ⊎ (n ≡ current.node)
      pushed-waiting n b at = elim (Bool-cases (text_eq e.to n)) [
        | inl it ↦ let same : b ≡ next = cc (rw it at (sym (pushed-at n) ∙ at)) in inl (head same)
        | inr other ↦ elim (r.waiting n b (rw other at (sym (pushed-at n) ∙ at))) [
          | inl q ↦ inl (tail q)
          | inr rest ↦ inr rest
        ]
      ]

      pushed-named : (n : Text) (b : Candidate) → lookup n pushed.best ≡ some b → b.node ≡ n
      pushed-named n b at = elim (Bool-cases (text_eq e.to n)) [
        | inr other ↦ r.named n b (rw other at (sym (pushed-at n) ∙ at))
        | inl it ↦
            let same : next ≡ b = cc (rw it at (sym (pushed-at n) ∙ at)) in
            sym (ap (λ c. c.node) same) ∙ (text_eq_iff e.to n).0 it
      ]

      pushed-IsRelaxed : IsRelaxed edges start target done current s pushed e
      pushed-IsRelaxed = record {
        relaxing = record {
          walks = (extend edges e walk m leaves, r.walks);
          known = ((next, next-best, not_self), All-imp s.queue queued-HasBest r.known);
          apart = (All-imp s.queue next-apart r.known, r.apart);
          above = (extended-above current e, r.above);
          best =
              pushed-at current.node
              ∙ rw (unmoved current.node current r.best (extended-above current e)) r.best;
          fresh = r.fresh;
          waiting = pushed-waiting;
          named = pushed-named;
          expanded = pushed-expanded;
          placed = λ n seen.
              let (b, at) = r.placed n seen in
              let (c, at', _) = pushed-IsBetter.best n b at in (c, at');
          started =
              let (b, at, zero_) = r.started in
              let (c, at', le) = pushed-IsBetter.best start b at in
              (c, at', omega (arith, zero_, le));
        };
        better = pushed-IsBetter;
        handled = inl (next, next-best, omega arith);
        grows = omega arith;
      }

    pub relax-IsRelaxed : IsRelaxed edges start target done current s (relax current s e) e
    unfolding relax
    relax-IsRelaxed = elim (Bool-cases (ltb (max_uint64 - e.path_step_cost) current.cost)) [
      | inl over ↦
          rw (relax, over)
            (overflow-IsRelaxed
              (omega (arith, ltb→lt (max_uint64 - e.path_step_cost) current.cost over)))
      | inr fits ↦ elim (Option-cases (lookup e.to s.best)) [
        | inl new ↦ rw (relax, fits, new) (pushed-IsRelaxed (λ known at. absurd (cc)))
        | inr (known, at) ↦
            elim (Bool-cases (is_less (compare_candidate (extended current e) known))) [
              | inl lower ↦
                  rw (relax, fits, at, lower)
                    (pushed-IsRelaxed (λ k at'.
                      let same : known ≡ k = cc (at, at') in
                      subst (λ k. compare_candidate (extended current e) k ≡ less) same
                        (is_less-less (compare_candidate (extended current e) known) lower)))
              | inr dearer ↦ rw (relax, fits, at, dearer) (kept-IsRelaxed known at dearer)
            ]
      ]
    ]

  -- The state after all the edges, each of which is done for.
  pub record IsAllRelaxed (done : List Text) (current : Candidate) (s s' : Frontier)
      (es : List TrustEdge) : Type 0 where
    pub relaxing : IsRelaxing edges start target done current s'
    pub better : IsBetter s s'
    pub handled : All (IsHandled s' current) es
    pub grows : length s'.queue ≤ length es + length s.queue

  pub relax_all-IsAllRelaxed :
      (done : List Text) (current : Candidate)
      → IsWalk edges start current.node current.path current.cost
      → (s : Frontier) (es : List TrustEdge) → All (λ e. Memᴰ e edges × (e.from ≡ current.node)) es
      → IsRelaxing edges start target done current s
      → IsAllRelaxed done current s (relax_all current s es) es
  unfolding relax_all
  relax_all-IsAllRelaxed done current walk s [] out r = record {
    relaxing = r;
    better = record { best = λ n b at. (b, at, omega arith); overflowed = λ h. h };
    handled = tt;
    grows = omega arith;
  }
  relax_all-IsAllRelaxed done current walk s (e ∷ es) out r =
      let one = relax-IsRelaxed done current walk s e out.0.0 out.0.1 r in
      let rest =
        relax_all-IsAllRelaxed done current walk (relax current s e) es out.1 one.relaxing in
      record {
        relaxing = rest.relaxing;
        better = record {
          best = λ n b at.
              let (c, at', le) = one.better.best n b at in
              let (d, at'', le') = rest.better.best n c at' in (d, at'', omega (arith, le, le'));
          overflowed = λ h. rest.better.overflowed (one.better.overflowed h);
        };
        handled = (IsHandled-better current e rest.better one.handled, rest.handled);
        grows = omega (arith, one.grows, rest.grows);
      }
