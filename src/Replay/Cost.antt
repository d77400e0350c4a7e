-- ===== src/Replay/Cost.antt =====
-- Mapnode/replay/replay_cost_profile.go: the integer costs of the replay, with overflow checks.
use native.Mathlib.Nat.{div-lt_iff_lt-mul}
use trust_map_prototype.Common.{
  ℕ, zero, suc, ◌+◌, ◌-◌, ◌*◌, ◌/◌, ◌%◌, ◌≤◌, ◌<◌, ◌≡◌, [], ◌==◌, ltb, leb, not, ◌&&◌, ◌||◌,
  if◌then◌else◌, Result, ok, err, ◌>>◌, require, arith,
}
use trust_map_prototype.Replay.Text.{Text, trim_space, text_eq}

pub data Error : Type 0 where
  profile_id_required profile_value_zero : Error
  cost_overflow chain_empty cross_edge_counter_overflow : Error

abbrev pub max_uint64 : ℕ
max_uint64 = 18446744073709551615

abbrev pub u64 : ℕ → ℕ
u64 n = n % 18446744073709551616

pub record CostProfile : Type 0 where
  pub id : Text
  pub direct_step_cost : ℕ
  pub path_step_cost : ℕ
  pub trust_root_update_cost : ℕ

unfoldable pub validate_profile : CostProfile → Result Error (Unit {0})
unfolding trim_space text_eq
validate_profile profile = do
  require (not (text_eq (trim_space profile.id) [])) profile_id_required
  require
      (not (
        profile.direct_step_cost == 0
        || profile.path_step_cost == 0
        || profile.trust_root_update_cost == 0))
      profile_value_zero

unfoldable pub checked_cost : ℕ → ℕ → Result Error ℕ
checked_cost delta step =
    if not (delta == 0) && ltb (max_uint64 / delta) step
    then err cost_overflow
    else ok (u64 (delta * step))

unfoldable pub checked_add : ℕ → ℕ → Result Error ℕ
checked_add left right =
    if ltb (max_uint64 - left) right then err cost_overflow else ok (u64 (left + right))

-- CheckedCost yields the exact product where it is at most the greatest uint64, and the overflow
-- error where it is greater.
pub checked_cost_exact :
    (delta step : ℕ)
    → checked_cost delta step
      ≡ (if leb (delta * step) max_uint64 then ok (delta * step) else err cost_overflow)
unfolding checked_cost
checked_cost_exact zero step = ground arith
checked_cost_exact (suc d) step =
    ground (arith, div-lt_iff_lt-mul {k = suc d} {x = max_uint64} {y = step} (omega arith))

pub checked_cost-ok :
    (delta step : ℕ) {cost : ℕ} → checked_cost delta step ≡ ok cost → cost ≡ delta * step
checked_cost-ok delta step h = ground (arith, checked_cost_exact delta step)

pub checked_add-ok :
    (left right : ℕ) → left + right ≤ max_uint64 → checked_add left right ≡ ok (left + right)
unfolding checked_add
checked_add-ok left right fits = ground arith

pub checked_add-overflow :
    (left right : ℕ)
    → left ≤ max_uint64
    → max_uint64 < left + right
    → checked_add left right ≡ err cost_overflow
unfolding checked_add
checked_add-overflow left right hl over = ground arith
