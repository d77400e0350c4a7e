-- ===== src/Replay/Baselines/Progress.antt =====
-- Get and Advance of ReplayBaselines (Mapnode/replay/replay_baseline.go).
use trust_map_prototype.Common.{ℕ, ◌≤◌, ◌≡◌, ◌⊎◌, ltb, if◌then◌else◌, arith}
use trust_map_prototype.Common.Maps.{lookup, lookup-insert}
use trust_map_prototype.Replay.Text.{Text, text_keyed}
use trust_map_prototype.Replay.Baselines.{
  BaselineKey, same_baseline, same_baseline_iff, baseline_keyed, ReplayBaselines, baseline_key,
  or_zero, get, current_baseline, advance,
}

-- Get yields the current value of its pair of chains and changes the current value of no pair:
-- what it stores is what the pair had from its initial height.
pub get-current_baseline :
    (b : ReplayBaselines) (verifier target : Text)
    → ((get b verifier target).1 ≡ current_baseline b (baseline_key verifier target))
      × ((k : BaselineKey) → current_baseline (get b verifier target).0 k ≡ current_baseline b k)
unfolding get current_baseline baseline_key
get-current_baseline b verifier target =
    let key = baseline_key verifier target in
    let value = or_zero (lookup key.target b.init_heights) in
    (
      ground (arith, key),
      λ k. ground (arith, lookup-insert key k value b.values, same_baseline_iff key k),
    )

-- Advance yields the greater of the height and the current value of its pair of chains, which is
-- the current value of that pair afterwards, and leaves the current value of every other pair.
pub advance-current_baseline :
    (b : ReplayBaselines) (verifier target : Text) (height : ℕ)
    → let key = baseline_key verifier target in
      let (b', result) = advance b verifier target height in
      (height ≤ result)
      × (current_baseline b key ≤ result)
      × ((result ≡ height) ⊎ (result ≡ current_baseline b key))
      × ((k : BaselineKey)
          → current_baseline b' k ≡ (if same_baseline key k then result else current_baseline b k))
unfolding advance
advance-current_baseline b verifier target height =
    let key = baseline_key verifier target in
    let current = current_baseline b key in
    let next = if ltb current height then height else current in
    (
      ground arith,
      ground arith,
      ground arith,
      λ k. ground (arith, current_baseline, lookup-insert key k next b.values),
    )
