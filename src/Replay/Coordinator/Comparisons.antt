-- ===== src/Replay/Coordinator/Comparisons.antt =====
-- validateRestoredDecision of Mapnode/replay/replay_coordinator.go: its comparisons of equal values.
use trust_map_prototype.Common.{ℕ, ◌≡◌, refl, Bool, true, false, ◌==◌, ==_iff}
use trust_map_prototype.Replay.Baselines.{ReplayDirectEstimate}
use trust_map_prototype.Replay.View.{
  BlockKey, same_key, same_key_iff, EdgeKind, intra_chain_up, intra_chain_down, verified_dependency,
}
use trust_map_prototype.Replay.Coordinator.{ReplayDecision}
use trust_map_prototype.Replay.Coordinator.Restore.{same_edge_kind, same_bool, same_estimate}

pub same_edge_kind_refl : (k : EdgeKind) → same_edge_kind k k ≡ true
unfolding same_edge_kind
same_edge_kind_refl intra_chain_up = refl
same_edge_kind_refl intra_chain_down = refl
same_edge_kind_refl verified_dependency = refl

pub same_bool_refl : (b : Bool) → same_bool b b ≡ true
same_bool_refl true = refl
same_bool_refl false = refl

pub ==-refl : (n : ℕ) → (n == n) ≡ true
==-refl n = (==_iff n n).1 refl

pub same_key_refl : (k : BlockKey) → same_key k k ≡ true
same_key_refl k = (same_key_iff k k).1 refl

-- An estimate is the one that its decision has.
pub same_estimate_refl :
    (d : ReplayDecision) (e : ReplayDirectEstimate)
    → d.baseline_before ≡ e.baseline_before
    → d.direct_start ≡ e.direct_start
    → d.direct_blocks ≡ e.direct_blocks
    → d.checkpoint_configured ≡ e.checkpoint_configured
    → d.checkpoint_period ≡ e.checkpoint_period
    → d.checkpoint_height ≡ e.checkpoint_height
    → d.checkpoint_applied ≡ e.checkpoint_applied
    → d.direct_cost ≡ e.cost
    → same_estimate d e ≡ true
unfolding same_estimate
same_estimate_refl d e a b c f g h i j =
    rw
      (
        a,
        b,
        c,
        f,
        g,
        h,
        i,
        j,
        ==-refl e.baseline_before,
        ==-refl e.direct_start,
        ==-refl e.direct_blocks,
        same_bool_refl e.checkpoint_configured,
        ==-refl e.checkpoint_period,
        ==-refl e.checkpoint_height,
        same_bool_refl e.checkpoint_applied,
        ==-refl e.cost,
      )
      refl
