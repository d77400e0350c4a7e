-- ===== src/Live/Planner/Encoding.antt =====
-- ComputePlanID of Mapnode/planner/planner.go, and Plan up to the plan that is stored.
use trust_map_prototype.Common.{
  ℕ, Option, none, some, [], ◌∷◌, ◌++◌, length, replicate, Result, ok, err, map_err, Bool,
  if◌then◌else◌,
}
use trust_map_prototype.Replay.Text.{Text}
use trust_map_prototype.Live.Domain.{zero_word, join, big_endian}
use trust_map_prototype.Live.View.{TrustViewSnapshot, uint64_word}
use trust_map_prototype.Live.Planner.{
  PlannerError, repository, Request, Plan, ValidatedDirectProfile,
}
use trust_map_prototype.Live.Planner.Proposal.{draft, unavailable, propose, check_snapshot}

-- The length is a uint32.
abbrev pub length_prefixed : Text → Text
length_prefixed value = big_endian 4 (length value) ++ value

-- The word of a *uint64: its first byte tells a value from nil.
abbrev pub option_word : Option ℕ → Text
option_word none = zero_word
option_word (some value) = 1 ∷ replicate 23 0 ++ big_endian 8 value

-- "TrustMap/Planner/PlanID/v1".
abbrev pub plan_domain : Text
plan_domain =
    b'T' ∷ b'r' ∷ b'u' ∷ b's' ∷ b't' ∷ b'M' ∷ b'a' ∷ b'p' ∷ b'/' ∷ b'P' ∷ b'l' ∷ b'a' ∷ b'n' ∷ b'n'
    ∷ b'e' ∷ b'r' ∷ b'/' ∷ b'P' ∷ b'l' ∷ b'a' ∷ b'n' ∷ b'I' ∷ b'D' ∷ b'/' ∷ b'v' ∷ b'1' ∷ []

unfoldable pub encode_plan : Plan → Text
encode_plan p = join (
    length_prefixed plan_domain
    ∷ p.request_id
    ∷ uint64_word p.attempt
    ∷ p.snapshot_id
    ∷ length_prefixed p.profile_id
    ∷ p.profile_fingerprint
    ∷ length_prefixed p.plan_type
    ∷ p.home_node_id
    ∷ p.target_node_id
    ∷ uint64_word (length p.hops)
    ∷ join p.hops
    ∷ uint64_word p.path_step_cost
    ∷ option_word p.path_cost
    ∷ option_word p.direct_cost
    ∷ length_prefixed p.fallback_reason
    ∷ [])

unfoldable pub compute_plan_id : (Text → Text) → Plan → Text
unfolding encode_plan
compute_plan_id keccak p = keccak (encode_plan p)

-- SnapshotRepository, PlanRepository and DirectProfileSource over a state of the store. The flag says
-- whether there is a profile.
pub record Repositories (S : Type 0) : Type 0 where
  pub load_snapshot : S → Text → Result Text TrustViewSnapshot
  pub save_plan : S → Plan → Result Text S
  pub load_plan : S → Text → Result Text Plan
  pub direct_profile : Text → ValidatedDirectProfile × Bool

module _ {S : Type 0} (keccak : Text → Text) (repositories : Repositories S) where
  open repositories use {load_snapshot, save_plan, load_plan, direct_profile}

  -- The store as it is left, beside the result.
  unfoldable pub persist : S → Plan → S × Result PlannerError Plan
  unfolding compute_plan_id
  persist s p =
      let addressed = record p { id = compute_plan_id keccak p } in
      elim (save_plan s addressed) [
        | err e ↦ (s, err (repository e))
        | ok s' ↦ (s', map_err repository (load_plan s' addressed.id))
      ]

  abbrev pub profile_of : Request → ValidatedDirectProfile
  profile_of request =
      let (profile, there) = direct_profile request.home_chain_id in
      if there then profile else record profile { id = unavailable }

  -- At the time `now`.
  unfoldable pub plan : ℕ → S → Request → S × Result PlannerError Plan
  unfolding persist check_snapshot propose
  plan now s request = elim (load_snapshot s request.snapshot_id) [
    | err e ↦ (s, err (repository e))
    | ok snapshot ↦ elim (check_snapshot keccak request snapshot) [
      | err e ↦ (s, err e)
      | ok _ ↦
          elim (propose snapshot (draft now request snapshot (profile_of request))
            (profile_of request)) [ err e ↦ (s, err e) | ok p ↦ persist s p ]
    ]
  ]
