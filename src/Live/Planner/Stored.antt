-- ===== src/Live/Planner/Stored.antt =====
-- Mapnode/planner/planner.go: Planner.Plan over the repositories.
use trust_map_prototype.Common.{ℕ, ◌≡◌, ok}
use trust_map_prototype.Replay.Text.{Text}
use trust_map_prototype.Live.View.{TrustViewSnapshot}
use trust_map_prototype.Live.Planner.{Request, Plan, ValidatedDirectProfile}
use trust_map_prototype.Live.Planner.Proposals.{IsProposed}
use trust_map_prototype.Live.Planner.Snapshots.{IsChecked}
use trust_map_prototype.Live.Planner.Encoding.{Repositories, compute_plan_id, profile_of}

-- What the plan takes over from the request, the snapshot and the profile.
pub record IsDraft (now : ℕ) (request : Request) (snapshot : TrustViewSnapshot)
    (profile : ValidatedDirectProfile) (p : Plan) : Type 0 where
  pub request_id : p.request_id ≡ request.id
  pub attempt : p.attempt ≡ request.attempt
  pub snapshot_id : p.snapshot_id ≡ request.snapshot_id
  pub profile_id : p.profile_id ≡ profile.id
  pub profile_fingerprint : p.profile_fingerprint ≡ profile.fingerprint
  pub home_node_id : p.home_node_id ≡ snapshot.start_node_id
  pub target_node_id : p.target_node_id ≡ snapshot.target_node_id
  pub created_at : p.created_at ≡ now

-- The fields that the proposal leaves as they are.
abbrev IsKept : Plan → Plan → Type 0
IsKept p q =
    (p.request_id ≡ q.request_id)
    × (p.attempt ≡ q.attempt)
    × (p.snapshot_id ≡ q.snapshot_id)
    × (p.profile_id ≡ q.profile_id)
    × (p.profile_fingerprint ≡ q.profile_fingerprint)
    × (p.home_node_id ≡ q.home_node_id)
    × (p.target_node_id ≡ q.target_node_id)
    × (p.created_at ≡ q.created_at)

module _ {S : Type 0} (keccak : Text → Text) (repositories : Repositories S) where
  open repositories use {load_snapshot, save_plan, load_plan}

  -- What Plan relies on: a plan that is stored is the one that its ID loads.
  unfoldable pub IsStoring : Type 0
  IsStoring = (s s' : S) (p : Plan) → save_plan s p ≡ ok s' → load_plan s' p.id ≡ ok p

  -- A plan of the request over the snapshot that its ID loads, under the hash of its content.
  pub record IsPlanned (now : ℕ) (s s' : S) (request : Request) (p : Plan) : Type 0 where
    pub snapshot : TrustViewSnapshot
    pub loaded : load_snapshot s request.snapshot_id ≡ ok snapshot
    pub checked : IsChecked keccak request snapshot
    pub drafted : IsDraft now request snapshot (profile_of keccak repositories request) p
    pub proposed : IsProposed snapshot (profile_of keccak repositories request) (ok p)
    pub addressed : p.id ≡ compute_plan_id keccak p
    pub stored : load_plan s' p.id ≡ ok p
