-- ===== src/Replay/Coordinator/Estimates.antt =====
-- Mapnode/replay/replay_coordinator.go: the direct estimate of an event, made and made again.
use trust_map_prototype.Common.{
  ℕ, ◌≤◌, ◌≡◌, refl, ap, subst, ◌∙◌, sym, Bool, leb, some, ok, arith, Bool-cases, Option-cases, inl,
  inr, leb→le,
}
use trust_map_prototype.Common.Maps.{lookup, insert, lookup-insert}
use trust_map_prototype.Replay.Text.{Text, text_keyed}
use trust_map_prototype.Replay.Cost.{CostProfile, max_uint64}
use trust_map_prototype.Replay.Setting.{uses_checkpoint}
use trust_map_prototype.Replay.Checkpoints.{CheckpointPolicy}
use trust_map_prototype.Replay.Baselines.{
  BaselineKey, ReplayBaselines, ReplayDirectEstimate, same_baseline_iff, baseline_keyed,
  baseline_key, or_zero, get, current_baseline, advance, estimate_direct,
}
use trust_map_prototype.Replay.Baselines.Progress.{get-current_baseline}
use trust_map_prototype.Replay.Baselines.Estimates.{estimate_direct-IsEstimate}
use trust_map_prototype.Replay.Coordinator.{ReplayEvent, ReplayCoordinator, estimate_event}
use trust_map_prototype.Replay.Coordinator.Restore.{expected_after}

get_twice :
    (b : ReplayBaselines) (verifier target : Text)
    → get (get b verifier target).0 verifier target ≡ get b verifier target
unfolding get
get_twice b verifier target =
    let key = baseline_key verifier target in
    let value = or_zero (lookup key.target b.init_heights) in
    elim (Option-cases (lookup key b.values)) [
      | inl new ↦
          let first : get b verifier target
              ≡ (record b { values = insert key value b.values }, value) =
            rw (get, new) refl in
          let again : lookup key (insert key value b.values) ≡ some value =
            lookup-insert key key value b.values ∙ rw ((same_baseline_iff key key).1 refl) refl in
          rw first (rw (get, again) refl)
      | inr (v, old) ↦
          let first : get b verifier target ≡ (b, v) = rw (get, old) refl in rw first first
    ]

estimate_direct-get :
    (b : ReplayBaselines) (verifier target : Text) (height : ℕ) (profile : CostProfile)
    (policy : CheckpointPolicy) (flag : Bool)
    → (estimate_direct b verifier target height profile policy flag).0 ≡ (get b verifier target).0
unfolding estimate_direct
estimate_direct-get b verifier target height profile policy flag = ground arith

estimate_direct-again :
    (b : ReplayBaselines) (verifier target : Text) (height : ℕ) (profile : CostProfile)
    (policy : CheckpointPolicy) (flag : Bool)
    → estimate_direct (get b verifier target).0 verifier target height profile policy flag
      ≡ estimate_direct b verifier target height profile policy flag
unfolding estimate_direct
estimate_direct-again b verifier target height profile policy flag =
    rw (get_twice b verifier target) refl

-- The estimate of an event: Get and a further EstimateDirect find what is there.
module _ (c : ReplayCoordinator) (event : ReplayEvent) where
  pub estimate_event-fits :
      {estimate : ReplayDirectEstimate}
      → (estimate_event c c.baselines event).1 ≡ ok estimate
      → (estimate.cost ≤ max_uint64)
        × ((get c.baselines event.destination.chain event.source.chain).1
            ≡ estimate.baseline_before)
        × (current_baseline c.baselines (baseline_key event.destination.chain event.source.chain)
            ≡ estimate.baseline_before)
  unfolding estimate_event
  estimate_event-fits {estimate} run =
      let (e, is, exact) =
        estimate_direct-IsEstimate c.baselines event.destination.chain event.source.chain
          event.source.original_height c.profile c.policy (uses_checkpoint c.setting) in
      let now = (get-current_baseline c.baselines event.destination.chain event.source.chain).0 in
      elim (Bool-cases (leb e.cost max_uint64)) [
        | inr over ↦ absurd (cc (rw over at (sym exact ∙ run)))
        | inl fits ↦
            let same : e ≡ estimate = cc (rw fits at (sym exact ∙ run)) in
            subst
              (λ x.
                (x.cost ≤ max_uint64)
                × ((get c.baselines event.destination.chain event.source.chain).1
                    ≡ x.baseline_before)
                × (current_baseline c.baselines
                      (baseline_key event.destination.chain event.source.chain)
                    ≡ x.baseline_before))
              same (leb→le e.cost max_uint64 fits, now ∙ sym is.before, sym is.before)
      ]

  pub estimate_event-again :
      estimate_event c (get c.baselines event.destination.chain event.source.chain).0 event
      ≡ estimate_event c c.baselines event
  unfolding estimate_event
  estimate_event-again =
      estimate_direct-again c.baselines event.destination.chain event.source.chain
        event.source.original_height c.profile c.policy (uses_checkpoint c.setting)

  pub estimate_event-current :
      (k : BaselineKey)
      → current_baseline (estimate_event c c.baselines event).0 k ≡ current_baseline c.baselines k
  unfolding estimate_event
  estimate_event-current k =
      ap (λ b. current_baseline b k)
        (estimate_direct-get c.baselines event.destination.chain event.source.chain
          event.source.original_height c.profile c.policy (uses_checkpoint c.setting))
      ∙ (get-current_baseline c.baselines event.destination.chain event.source.chain).1 k

  -- The decision after Advance is the expected one.
  pub advance-expected :
      (before : ℕ)
      → current_baseline c.baselines (baseline_key event.destination.chain event.source.chain)
        ≡ before
      → (advance c.baselines event.destination.chain event.source.chain
          event.source.original_height).1
        ≡ expected_after event before
  unfolding advance expected_after
  advance-expected before h = rw h refl
