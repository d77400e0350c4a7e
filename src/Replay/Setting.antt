-- ===== src/Replay/Setting.antt =====
-- Setting of Mapnode/replay/config.go: which of the replay's means a run uses.
use trust_map_prototype.Common.{
  ◌-◌, Bool, true, false, ◌&&◌, leb, [], ◌∷◌, map, Result, ok, err, if◌then◌else◌,
}
use trust_map_prototype.Replay.Text.{Text, trim_space, text_eq}

-- A setting is a string: one of the constants or another one.
pub data Setting : Type 0 where
  b0 b1 b2 b3 : Setting
  other_setting : Text → Setting

-- strings.ToUpper on ASCII.
unfoldable pub to_upper : Text → Text
to_upper s = map (λ c. if leb b'a' c && leb c b'z' then c - 32 else c) s

-- The setting that a text names; an unknown one is the error's.
unfoldable pub parse_setting : Text → Result Text Setting
unfolding to_upper trim_space text_eq
parse_setting value =
    let name = to_upper (trim_space value) in
    if text_eq name (b'B' ∷ b'0' ∷ [])
    then ok b0
    else if text_eq name (b'B' ∷ b'1' ∷ [])
    then ok b1
    else if text_eq name (b'B' ∷ b'2' ∷ [])
    then ok b2
    else if text_eq name (b'B' ∷ b'3' ∷ [])
    then ok b3
    else err value

unfoldable pub uses_trust_map : Setting → Bool
uses_trust_map b2 = true
uses_trust_map b3 = true
uses_trust_map _ = false

unfoldable pub uses_checkpoint : Setting → Bool
uses_checkpoint b1 = true
uses_checkpoint b3 = true
uses_checkpoint _ = false

-- `setting == other`.
unfoldable pub same_setting : Setting → Setting → Bool
unfolding text_eq
same_setting b0 b0 = true
same_setting b1 b1 = true
same_setting b2 b2 = true
same_setting b3 b3 = true
same_setting (other_setting a) (other_setting b) = text_eq a b
same_setting _ _ = false

abbrev pub is_known : Setting → Bool
is_known (other_setting _) = false
is_known _ = true
