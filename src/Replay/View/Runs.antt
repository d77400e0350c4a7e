-- ===== src/Replay/View/Runs.antt =====
-- Runs of AddVerifiedDependency from NewReplayTrustView (Mapnode/replay/replay_trust_view.go).
use trust_map_prototype.Common.{◌≤◌, ◌≡◌, refl, subst, [], ok, arith}
use trust_map_prototype.Common.Maps.{lookup}
use trust_map_prototype.Replay.Cost.{CostProfile, max_uint64}
use trust_map_prototype.Replay.Heights.{contains}
use trust_map_prototype.Replay.Heights.Order.{keys}
use trust_map_prototype.Replay.View.{
  ReplayBlock, block_key, ReplayTrustView, new_replay_trust_view, add_verified_dependency,
  key_keyed,
}
use trust_map_prototype.Replay.View.Edges.{total}
use trust_map_prototype.Replay.View.Soundness.{IsSound}
use trust_map_prototype.Replay.View.Dependency.{add_verified_dependency-IsSound}

-- The views of a replay: the new one of a valid profile, and what a call for two blocks of uint64
-- heights leaves of a view, also where the call fails.
pub data Reached (profile : CostProfile) : ReplayTrustView → Type 0 where
  created :
      {view : ReplayTrustView} → new_replay_trust_view profile ≡ ok view → Reached profile view
  extended :
      {view : ReplayTrustView} (from to : ReplayBlock)
      → (block_key from).height ≤ max_uint64
      → (block_key to).height ≤ max_uint64
      → Reached profile view
      → Reached profile (add_verified_dependency view from to).0

abbrev pub blank_view : CostProfile → ReplayTrustView
blank_view profile = record {
  profile = profile;
  heights = [];
  adjacency = [];
  nodes = [];
  node_ids = [];
  node_keys = [];
  edge_count = 0;
  cross_edges_added = 0;
}

pub blank_view-IsSound : (profile : CostProfile) → IsSound (blank_view profile)
unfolding total lookup keys contains
blank_view-IsSound profile = record {
  consistent = record { outer = tt; inner = λ k. tt; counted = refl };
  nodes = record {
    indexed = λ chain. record { ordered = tt; bounded = tt };
    heaped = λ chain. tt;
    numbered = λ key i e. absurd (cc);
    registered = λ key. refl;
  };
  endpoints = λ f t e h. absurd (cc);
}

pub new_replay_trust_view-blank :
    (profile : CostProfile) {view : ReplayTrustView}
    → new_replay_trust_view profile ≡ ok view
    → blank_view profile ≡ view
unfolding new_replay_trust_view
new_replay_trust_view-blank profile h = ground arith

-- Every view that AddVerifiedDependency calls reach from a new one is sound, as
-- activate_locked-IsSound has it.
pub Reached-IsSound :
    {profile : CostProfile} {view : ReplayTrustView} → Reached profile view → IsSound view
Reached-IsSound {profile} (created e) =
    subst IsSound (new_replay_trust_view-blank profile e) (blank_view-IsSound profile)
Reached-IsSound (extended from to bf bt r) =
    add_verified_dependency-IsSound _ from to bf bt (Reached-IsSound r)
