-- ===== src/Replay/Baselines.antt =====
-- ReplayBaselines of Mapnode/replay/replay_baseline.go: the height up to which a verifier chain has
-- verified a target chain, and the cost of a direct verification from there. A method that changes
-- the baselines returns the new ones beside its result. The mutex leaves no trace.
use trust_map_prototype.Common.{
  ℕ, zero, suc, ◌+◌, ◌-◌, ◌*◌, ◌/◌, ◌%◌, ◌≤◌, ◌<◌, ◌≡◌, ◌↔◌, refl, ap, sym, ◌∙◌, subst, Bool, true,
  false, ◌&&◌, ltb, leb, ◌==◌, Option, none, some, List, [], ◌∷◌, if◌then◌else◌, Result, ok, err,
  ◌>>=◌, arith, Bool-cases, inl, inr,
}
use trust_map_prototype.Common.Maps.{Map, Keyed, lookup, insert, lookup-insert}
use trust_map_prototype.Replay.Text.{Text, text_eq, text_eq_iff, canonical_chain, text_keyed}
use trust_map_prototype.Replay.Cost.{Error, CostProfile, checked_cost}
use trust_map_prototype.Replay.Checkpoints.{CheckpointPolicy, period}
pub mod Progress
pub mod Estimates
mod Examples

pub record BaselineKey : Type 0 where
  pub verifier : Text
  pub target : Text

unfoldable pub same_baseline : BaselineKey → BaselineKey → Bool
unfolding text_eq
same_baseline a b = text_eq a.verifier b.verifier && text_eq a.target b.target

pub same_baseline_iff : (a b : BaselineKey) → (same_baseline a b ≡ true) ↔ (a ≡ b)
unfolding same_baseline
same_baseline_iff a b =
    ground (arith, text_eq_iff a.verifier b.verifier, text_eq_iff a.target b.target)

instance abbrev pub baseline_keyed : Keyed BaselineKey
baseline_keyed = record { same = same_baseline; same_iff = same_baseline_iff }

pub record ReplayBaselines : Type 0 where
  pub init_heights : Map Text ℕ
  pub values : Map BaselineKey ℕ

-- The loop of NewReplayBaselines over the entries of a map, in the order of the iteration.
unfoldable pub copy_heights : Map Text ℕ → List (Text × ℕ) → Map Text ℕ
copy_heights copied [] = copied
copy_heights copied ((chain, height) ∷ rest) =
    copy_heights (insert (canonical_chain chain) height copied) rest

unfoldable pub new_replay_baselines : List (Text × ℕ) → ReplayBaselines
unfolding copy_heights
new_replay_baselines init_heights = record {
  init_heights = copy_heights [] init_heights;
  values = [];
}

unfoldable pub baseline_key : Text → Text → BaselineKey
baseline_key verifier_chain target_chain = record {
  verifier = canonical_chain verifier_chain;
  target = canonical_chain target_chain;
}

-- A key that a Go map of numbers does not have reads as 0.
abbrev pub or_zero : Option ℕ → ℕ
or_zero none = 0
or_zero (some n) = n

unfoldable pub get : ReplayBaselines → Text → Text → ReplayBaselines × ℕ
get baselines verifier_chain target_chain =
    let key = baseline_key verifier_chain target_chain in
    elim (lookup key baselines.values) [
      | some value ↦ (baselines, value)
      | none ↦
          let value = or_zero (lookup key.target baselines.init_heights) in
          (record baselines { values = insert key value baselines.values }, value)
    ]

-- The start value of Advance.
unfoldable pub current_baseline : ReplayBaselines → BaselineKey → ℕ
current_baseline baselines key = elim (lookup key baselines.values) [
  | some value ↦ value
  | none ↦ or_zero (lookup key.target baselines.init_heights)
]

unfoldable pub advance : ReplayBaselines → Text → Text → ℕ → ReplayBaselines × ℕ
unfolding current_baseline
advance baselines verifier_chain target_chain height =
    let key = baseline_key verifier_chain target_chain in
    let current = current_baseline baselines key in
    let next = if ltb current height then height else current in
    (record baselines { values = insert key next baselines.values }, next)

pub record ReplayDirectEstimate : Type 0 where
  pub baseline_before : ℕ
  pub direct_start : ℕ
  pub direct_blocks : ℕ
  pub checkpoint_configured : Bool
  pub checkpoint_period : ℕ
  pub checkpoint_height : ℕ
  pub checkpoint_applied : Bool
  pub cost : ℕ

-- The estimate before any block is counted.
abbrev pub from_baseline : ℕ → ReplayDirectEstimate
from_baseline baseline = record {
  baseline_before = baseline;
  direct_start = baseline;
  direct_blocks = 0;
  checkpoint_configured = false;
  checkpoint_period = 0;
  checkpoint_height = 0;
  checkpoint_applied = false;
  cost = 0;
}

-- The statements under `if useCheckpoint`.
unfoldable pub use_checkpoint :
    CheckpointPolicy → Text → ℕ → ReplayDirectEstimate → ReplayDirectEstimate
use_checkpoint policy target_chain target_height estimate = elim (period policy target_chain) [
  | none ↦ estimate
  | some p ↦
      let checkpoint = target_height / p * p in
      let configured = record estimate {
        checkpoint_configured = true;
        checkpoint_period = p;
        checkpoint_height = checkpoint;
      } in
      if ltb configured.direct_start checkpoint
      then record configured { direct_start = checkpoint; checkpoint_applied = true }
      else configured
]

-- `estimate.Cost = cost` and the return; the callers drop the estimate where there is an error.
unfoldable pub with_cost : ReplayDirectEstimate → Result Error ℕ → Result Error ReplayDirectEstimate
with_cost estimate cost = do c ← cost; ok (record estimate { cost = c })

unfoldable pub estimate_direct :
    ReplayBaselines
    → Text
    → Text
    → ℕ
    → CostProfile
    → CheckpointPolicy
    → Bool
    → ReplayBaselines × Result Error ReplayDirectEstimate
unfolding use_checkpoint with_cost
estimate_direct baselines verifier_chain target_chain target_height profile policy with_checkpoint =
    let (baselines', baseline) = get baselines verifier_chain target_chain in
    let estimate = from_baseline baseline in
    let start =
      if with_checkpoint
      then use_checkpoint policy target_chain target_height estimate
      else estimate in
    let ahead = target_height - start.direct_start in
    let behind = baseline - target_height in
    if leb baseline target_height
    then (
      baselines',
      with_cost (record start { direct_blocks = ahead })
          (checked_cost ahead profile.direct_step_cost),
    )
    else (
      baselines',
      with_cost (record estimate { direct_blocks = behind })
          (checked_cost behind profile.path_step_cost),
    )
