-- ===== src/Replay/Baselines/Estimates.antt =====
-- EstimateDirect of ReplayBaselines (Mapnode/replay/replay_baseline.go).
use native.Mathlib.Decide.{dec_lt}
use native.Mathlib.Nat.{div-mul-le_self, mul-le-mul_right}
use trust_map_prototype.Common.{
  ℕ, ◌+◌, ◌-◌, ◌*◌, ◌≤◌, ◌<◌, ◌≡◌, refl, ap, sym, subst, ◌∙◌, inl, inr, Bool, true, false, leb, ltb,
  ltb→lt, none, some, ◌/◌, if◌then◌else◌, ok, err, arith, leb→le, Option-cases, Bool-cases,
}
use trust_map_prototype.Replay.Text.{Text, text_keyed}
use trust_map_prototype.Replay.Cost.{
  CostProfile, max_uint64, cost_overflow, checked_cost, checked_cost_exact,
}
use trust_map_prototype.Replay.Checkpoints.{CheckpointPolicy, period}
use trust_map_prototype.Replay.Baselines.{
  ReplayBaselines, ReplayDirectEstimate, from_baseline, baseline_key, use_checkpoint, with_cost,
  get, estimate_direct, current_baseline,
}
use trust_map_prototype.Replay.Baselines.Progress.{get-current_baseline}

-- A checkpoint moves the start up, at most to the target.
use_checkpoint-start :
    (policy : CheckpointPolicy) (chain : Text) (height : ℕ) (e : ReplayDirectEstimate)
    → e.direct_start ≤ height
    → let e' = use_checkpoint policy chain height e in
      (e.direct_start ≤ e'.direct_start)
      × (e'.direct_start ≤ height)
      × (e'.baseline_before ≡ e.baseline_before)
unfolding use_checkpoint
use_checkpoint-start policy chain height e h = elim (Option-cases (period policy chain)) [
  | inl none_ ↦ rw (none_, use_checkpoint) (ground arith)
  | inr (p, some_) ↦ rw (some_, use_checkpoint) (ground (arith, div-mul-le_self height p))
]

-- Where a verification up to `height` from the baseline `v` starts, with checkpoints by the flag: at
-- `v`, or at the last multiple of the chain's period up to the height where that is above `v`.
pub data IsStart (policy : CheckpointPolicy) (chain : Text) (height v : ℕ) (flag : Bool) (start : ℕ)
    : Type 0 where
  above_target : height < v → start ≡ v → IsStart policy chain height v flag start
  without : flag ≡ false → start ≡ v → IsStart policy chain height v flag start
  unconfigured : period policy chain ≡ none → start ≡ v → IsStart policy chain height v flag start
  below :
      (p : ℕ)
      → period policy chain ≡ some p
      → height / p * p ≤ v
      → start ≡ v
      → IsStart policy chain height v flag start
  checkpoint :
      (p : ℕ)
      → v ≤ height
      → flag ≡ true
      → period policy chain ≡ some p
      → v < height / p * p
      → start ≡ height / p * p
      → IsStart policy chain height v flag start

-- The estimate of a verification up to `height` from the baseline `v`: what it starts from, the
-- blocks from there up to the height, or from the height up to the baseline, and their cost.
pub record IsEstimate (profile : CostProfile) (policy : CheckpointPolicy) (chain : Text)
    (flag : Bool) (v height : ℕ) (e : ReplayDirectEstimate) : Type 0 where
  pub before : e.baseline_before ≡ v
  pub start : v ≤ e.direct_start
  pub origin : IsStart policy chain height v flag e.direct_start
  pub blocks :
      (if leb v height then e.direct_start else height) + e.direct_blocks
      ≡ (if leb v height then height else v)
  pub priced :
      e.cost
      ≡ e.direct_blocks
        * (if leb v height then profile.direct_step_cost else profile.path_step_cost)

-- The start that the baseline `v` and the checkpoints give.
abbrev started : CheckpointPolicy → Text → ℕ → ℕ → Bool → ReplayDirectEstimate
started policy chain height v flag =
    if flag then use_checkpoint policy chain height (from_baseline v) else from_baseline v

started_lem :
    (policy : CheckpointPolicy) (chain : Text) (height v : ℕ) (flag : Bool)
    → v ≤ height
    → let e = started policy chain height v flag in
      (v ≤ e.direct_start) × (e.direct_start ≤ height) × (e.baseline_before ≡ v)
started_lem policy chain height v true h =
    use_checkpoint-start policy chain height (from_baseline v) h
started_lem policy chain height v false h = ground arith

started-IsStart :
    (policy : CheckpointPolicy) (chain : Text) (height v : ℕ) (flag : Bool)
    → v ≤ height
    → IsStart policy chain height v flag (started policy chain height v flag).direct_start
unfolding use_checkpoint
started-IsStart policy chain height v false h = without refl refl
started-IsStart policy chain height v true h = elim (Option-cases (period policy chain)) [
  | inl none_ ↦ unconfigured none_ (rw (none_, use_checkpoint) refl)
  | inr (p, some_) ↦ elim (Bool-cases (ltb v (height / p * p))) [
    | inl above ↦
        checkpoint p h refl some_ (ltb→lt v (height / p * p) above)
          (rw (some_, use_checkpoint, above) refl)
    | inr low ↦ below p some_ (ground arith) (rw (some_, use_checkpoint, low) refl)
  ]
]

with_cost-exact :
    (e : ReplayDirectEstimate) (blocks step : ℕ)
    → with_cost e (checked_cost blocks step) ≡ (
        if leb (blocks * step) max_uint64
        then ok (record e { cost = blocks * step })
        else err cost_overflow)
unfolding with_cost
with_cost-exact e blocks step = elim (Bool-cases (leb (blocks * step) max_uint64)) [
  | inl fits ↦ rw (checked_cost_exact blocks step, fits)
  | inr over ↦ rw (checked_cost_exact blocks step, over)
]

-- What a result that is chosen by the size of a cost says where it is an estimate, and when it is.
within-ok :
    (n : ℕ) (e e' : ReplayDirectEstimate)
    → (if leb n max_uint64 then ok e else err cost_overflow) ≡ ok e'
    → (n ≤ max_uint64) × (e ≡ e')
within-ok n e e' h = elim (Bool-cases (leb n max_uint64)) [
  | inl fits ↦ (leb→le n max_uint64 fits, cc (rw fits at h))
  | inr over ↦ absurd (cc (rw over at h))
]

ok-within :
    (n : ℕ) (e : ReplayDirectEstimate)
    → n ≤ max_uint64
    → (if leb n max_uint64 then ok e else err cost_overflow) ≡ ok e
ok-within n e h = elim (Bool-cases (leb n max_uint64)) [
  | inl fits ↦ rw fits
  | inr over ↦ absurd (ground arith)
]

module _ (b : ReplayBaselines) (verifier target : Text) (height : ℕ) (profile : CostProfile)
    (policy : CheckpointPolicy) where
  estimate_direct-ahead :
      (flag : Bool)
      → (get b verifier target).1 ≤ height
      → let e = started policy target height (get b verifier target).1 flag in
        (estimate_direct b verifier target height profile policy flag).1
        ≡ with_cost
            (record e { direct_blocks = height - e.direct_start })
            (checked_cost (height - e.direct_start) profile.direct_step_cost)
  unfolding estimate_direct
  estimate_direct-ahead flag ahead = ground arith

  estimate_direct-behind :
      (flag : Bool)
      → height < (get b verifier target).1
      → let v = (get b verifier target).1 in
        (estimate_direct b verifier target height profile policy flag).1
        ≡ with_cost
            (record (from_baseline v) { direct_blocks = v - height })
            (checked_cost (v - height) profile.path_step_cost)
  unfolding estimate_direct
  estimate_direct-behind flag behind = ground arith

  -- EstimateDirect for a height, from a pair of chains with the current baseline `v`: there is an
  -- estimate that counts the blocks from its start, which is `v` or, where checkpoints are used and
  -- the target chain has a period, the last multiple of it up to the height if that is above `v`, up
  -- to the height at DirectStepCost each or, where the height is below `v`, the blocks between the two at
  -- PathStepCost each. If its cost is at most the greatest uint64, it is the result, and otherwise
  -- the result is the overflow error.
  pub estimate_direct-IsEstimate :
      (flag : Bool)
      → (e : ReplayDirectEstimate) × IsEstimate profile policy target flag
          (current_baseline b (baseline_key verifier target))
          height
          e
        × ((estimate_direct b verifier target height profile policy flag).1
            ≡ (if leb e.cost max_uint64 then ok e else err cost_overflow))
  estimate_direct-IsEstimate flag =
      let v = (get b verifier target).1 in
      let e = started policy target height v flag in
      subst
        (λ w.
          (e : ReplayDirectEstimate) × IsEstimate profile policy target flag w height e
          × ((estimate_direct b verifier target height profile policy flag).1
              ≡ (if leb e.cost max_uint64 then ok e else err cost_overflow)))
        (get-current_baseline b verifier target).0
        (elim (dec_lt height v) [
          | yes behind ↦
              let blocks = v - height in
              (
                record (from_baseline v) {
                  direct_blocks = blocks;
                  cost = blocks * profile.path_step_cost;
                },
                record {
                  before = refl;
                  start = omega arith;
                  origin = above_target behind refl;
                  blocks = ground arith;
                  priced = ground arith;
                },
                estimate_direct-behind flag behind
                    ∙ with_cost-exact _ blocks profile.path_step_cost,
              )
          | no ahead ↦
              let blocks = height - e.direct_start in
              (
                record e { direct_blocks = blocks; cost = blocks * profile.direct_step_cost },
                (let (from, to, same) = started_lem policy target height v flag (omega arith) in
                    record {
                      before = same;
                      start = from;
                      origin = started-IsStart policy target height v flag (omega arith);
                      blocks = ground (arith, from, to);
                      priced = ground arith;
                    }),
                estimate_direct-ahead flag (omega arith)
                    ∙ with_cost-exact _ blocks profile.direct_step_cost,
              )
        ])

  -- Where EstimateDirect without checkpoints returns an estimate, it returns one with them too, of
  -- the same baseline and at most the same cost.
  pub estimate_direct-checkpoint_saves :
      (e : ReplayDirectEstimate)
      → (estimate_direct b verifier target height profile policy false).1 ≡ ok e
      → (e' : ReplayDirectEstimate) × ((estimate_direct b verifier target height profile policy
            true).1
          ≡ ok e')
        × (e'.baseline_before ≡ e.baseline_before)
        × (e'.cost ≤ e.cost)
  estimate_direct-checkpoint_saves e run =
      let v = (get b verifier target).1 in
      elim (dec_lt height v) [
        | yes behind ↦ (
          e,
          estimate_direct-behind true behind ∙ sym (estimate_direct-behind false behind) ∙ run,
          refl,
          omega arith,
        )
        | no ahead ↦
            let e₀ = started policy target height v false in
            let e₁ = started policy target height v true in
            let s = started_lem policy target height v true (omega arith) in
            let step = profile.direct_step_cost in
            let less =
              mul-le-mul_right {m = height - e₁.direct_start} {n = height - v} step (omega arith) in
            let (fits, same) = within-ok ((height - v) * step) _ e (
              sym (with_cost-exact (record e₀ { direct_blocks = height - v }) (height - v) step)
              ∙ sym (estimate_direct-ahead false (omega arith))
              ∙ run) in
            (
              record e₁ {
                direct_blocks = height - e₁.direct_start;
                cost = (height - e₁.direct_start) * step;
              },
              estimate_direct-ahead true (omega arith)
                  ∙ with_cost-exact (record e₁ { direct_blocks = height - e₁.direct_start })
                      (height - e₁.direct_start) step
                  ∙ ok-within ((height - e₁.direct_start) * step) _ (omega arith),
              s.2 ∙ ap (λ x. x.baseline_before) same,
              subst (λ c. (height - e₁.direct_start) * step ≤ c) (ap (λ x. x.cost) same) less,
            )
      ]
