-- ===== src/Replay/Baselines/Examples.antt =====
-- Concrete baselines and checkpoints of Mapnode/replay.
use trust_map_prototype.Common.{
  ℕ, ◌+◌, ◌%◌, ◌≤◌, ◌<◌, ◌≡◌, ◌⊎◌, refl, true, false, some, List, [], ◌∷◌, ok, err, leb, All,
  if◌then◌else◌,
}
use trust_map_prototype.Common.Maps.{lookup, insert}
use trust_map_prototype.Replay.Text.{Text, canonical_chain, text_eq}
use trust_map_prototype.Replay.Cost.{CostProfile, max_uint64, cost_overflow, checked_cost}
use trust_map_prototype.Replay.Checkpoints.{
  CheckpointPolicy, new_checkpoint_policy, period, checkpoint_height, IsPolicy,
  new_checkpoint_policy-IsPolicy, checkpoint_height_nearest,
}
use trust_map_prototype.Replay.Baselines.{
  BaselineKey, same_baseline, ReplayBaselines, ReplayDirectEstimate, new_replay_baselines,
  baseline_key, get, current_baseline, advance, estimate_direct,
}
use trust_map_prototype.Replay.Baselines.Progress.{get-current_baseline, advance-current_baseline}
use trust_map_prototype.Replay.Baselines.Estimates.{
  IsEstimate, estimate_direct-IsEstimate, estimate_direct-checkpoint_saves,
}

abbrev alpha : Text
alpha = b'a' ∷ []

abbrev beta : Text
beta = b'B' ∷ []

abbrev entries : List (Text × ℕ)
entries = (alpha, 100) ∷ (beta, 7) ∷ []

abbrev policy : CheckpointPolicy
policy = record { periods = (b'a' ∷ [], 100) ∷ (b'b' ∷ [], 7) ∷ [] }

accepted : new_checkpoint_policy entries ≡ ok policy
unfolding new_checkpoint_policy canonical_chain text_eq lookup insert
accepted = refl

new_checkpoint_policy-IsPolicy_example :
    IsPolicy policy.periods × All (λ e. period policy e.0 ≡ some e.1) entries
new_checkpoint_policy-IsPolicy_example = new_checkpoint_policy-IsPolicy entries policy accepted

configured : period policy beta ≡ some 7
unfolding period canonical_chain text_eq lookup
configured = refl

checkpoint_height_nearest_example :
    (c : ℕ) × (checkpoint_height policy beta 30 ≡ some c) × (c % 7 ≡ 0) × (c ≤ 30) × (30 < c + 7)
checkpoint_height_nearest_example =
    checkpoint_height_nearest policy beta 30 7 new_checkpoint_policy-IsPolicy_used configured
  where
    new_checkpoint_policy-IsPolicy_used : IsPolicy policy.periods
    new_checkpoint_policy-IsPolicy_used = (new_checkpoint_policy-IsPolicy entries policy accepted).0

-- A verifier chain that has its target chain from height 40 on.
abbrev baselines : ReplayBaselines
baselines = new_replay_baselines ((alpha, 40) ∷ [])

get-current_baseline_example :
    ((get baselines beta alpha).1 ≡ current_baseline baselines (baseline_key beta alpha))
    × ((k : BaselineKey)
        → current_baseline (get baselines beta alpha).0 k ≡ current_baseline baselines k)
get-current_baseline_example = get-current_baseline baselines beta alpha

advance-current_baseline_example :
    let key = baseline_key beta alpha in
    let (b', result) = advance baselines beta alpha 55 in
    (55 ≤ result)
    × (current_baseline baselines key ≤ result)
    × ((result ≡ 55) ⊎ (result ≡ current_baseline baselines key))
    × ((k : BaselineKey)
        → current_baseline b' k
          ≡ (if same_baseline key k then result else current_baseline baselines k))
advance-current_baseline_example = advance-current_baseline baselines beta alpha 55

abbrev profile : CostProfile
profile = record {
  id = b'p' ∷ [];
  direct_step_cost = 3;
  path_step_cost = 2;
  trust_root_update_cost = 5;
}

estimate_direct-IsEstimate_example :
    (e : ReplayDirectEstimate) × IsEstimate profile policy alpha true
      (current_baseline baselines (baseline_key beta alpha))
      255
      e
    × ((estimate_direct baselines beta alpha 255 profile policy true).1
        ≡ (if leb e.cost max_uint64 then ok e else err cost_overflow))
estimate_direct-IsEstimate_example =
    estimate_direct-IsEstimate baselines beta alpha 255 profile policy true

-- From height 40 to height 255 without and with the checkpoint at height 200.
abbrev plain : ReplayDirectEstimate
plain = record {
  baseline_before = 40;
  direct_start = 40;
  direct_blocks = 215;
  checkpoint_configured = false;
  checkpoint_period = 0;
  checkpoint_height = 0;
  checkpoint_applied = false;
  cost = 645;
}

abbrev saved : ReplayDirectEstimate
saved = record {
  baseline_before = 40;
  direct_start = 200;
  direct_blocks = 55;
  checkpoint_configured = true;
  checkpoint_period = 100;
  checkpoint_height = 200;
  checkpoint_applied = true;
  cost = 165;
}

priced : (estimate_direct baselines beta alpha 255 profile policy false).1 ≡ ok plain
unfolding estimate_direct new_replay_baselines get baseline_key canonical_chain text_eq lookup
    insert checked_cost same_baseline
priced = refl

priced_lower : (estimate_direct baselines beta alpha 255 profile policy true).1 ≡ ok saved
unfolding estimate_direct new_replay_baselines get baseline_key canonical_chain text_eq lookup
    insert checked_cost same_baseline period
priced_lower = refl

estimate_direct-checkpoint_saves_example :
    (e' : ReplayDirectEstimate) × ((estimate_direct baselines beta alpha 255 profile policy true).1
      ≡ ok e')
    × (e'.baseline_before ≡ 40)
    × (e'.cost ≤ 645)
estimate_direct-checkpoint_saves_example =
    estimate_direct-checkpoint_saves baselines beta alpha 255 profile policy plain priced
