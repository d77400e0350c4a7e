-- ===== src/Lifecycle/Evidence.antt =====
-- State and ValidateTransition of Mapnode/evidence/state.go. A state is a string: one of the
-- constants or another one.
use trust_map_prototype.Common.{
  ◌≡◌, refl, Bool, true, false, not, ◌&&◌, ◌||◌, List, [], ◌∷◌, Result, ok, err, ◌>>◌, require,
  if◌then◌else◌, arith,
}
use trust_map_prototype.Replay.Text.{Text, text_eq}

pub data EvidenceState : Type 0 where
  candidate verified confirmed active invalid : EvidenceState
  unknown_state : Text → EvidenceState

pub data EvidenceError : Type 0 where
  invalid_transition invalid_state invalid_reason_required : EvidenceError

abbrev pub is_candidate : EvidenceState → Bool
is_candidate candidate = true
is_candidate _ = false

abbrev pub is_verified : EvidenceState → Bool
is_verified verified = true
is_verified _ = false

abbrev pub is_confirmed : EvidenceState → Bool
is_confirmed confirmed = true
is_confirmed _ = false

abbrev pub is_active : EvidenceState → Bool
is_active active = true
is_active _ = false

abbrev pub is_invalid : EvidenceState → Bool
is_invalid invalid = true
is_invalid _ = false

unfoldable pub validate_evidence : EvidenceState → Result EvidenceError (Unit {0})
validate_evidence (unknown_state _) = err invalid_state
validate_evidence _ = ok tt

-- `from == to`, where both are constants.
abbrev pub is_same : EvidenceState → EvidenceState → Bool
is_same from to =
    is_candidate from && is_candidate to
    || is_verified from && is_verified to
    || is_confirmed from && is_confirmed to
    || is_active from && is_active to
    || is_invalid from && is_invalid to

abbrev pub is_legal : EvidenceState → EvidenceState → Bool
is_legal from to =
    is_candidate from && (is_verified to || is_invalid to)
    || is_verified from && is_confirmed to
    || is_confirmed from && is_active to

unfoldable pub validate_transition :
    EvidenceState → EvidenceState → Text → Result EvidenceError Bool
unfolding validate_evidence text_eq
validate_transition from to reason = do
  validate_evidence from
  validate_evidence to
  if is_same from to then ok false else do
    require (is_legal from to) invalid_transition
    require (not (is_invalid to && text_eq reason [])) invalid_reason_required
    ok true

-- A run of accepted transitions that change the state, by the states it passes, the last one first.
pub data IsHistory : EvidenceState → List EvidenceState → Type 0 where
  begun : IsHistory candidate []
  moved :
      (from to : EvidenceState) (reason : Text) (past : List EvidenceState)
      → IsHistory from past
      → validate_transition from to reason ≡ ok true
      → IsHistory to (from ∷ past)

-- What a state rests on: the states before it, in order, the last one first.
abbrev pub expected_past : EvidenceState → List EvidenceState
expected_past candidate = []
expected_past verified = candidate ∷ []
expected_past confirmed = verified ∷ candidate ∷ []
expected_past active = confirmed ∷ verified ∷ candidate ∷ []
expected_past invalid = candidate ∷ []
expected_past (unknown_state _) = []

transition-past :
    (from to : EvidenceState) (reason : Text) (past : List EvidenceState)
    → validate_transition from to reason ≡ ok true
    → past ≡ expected_past from
    → from ∷ past ≡ expected_past to
unfolding validate_transition
transition-past from to reason past h m = ground arith

-- However evidence came to its state from candidate by accepted transitions that change it, the
-- states it passed are determined: candidate, verified and confirmed in this order behind active,
-- the first two behind confirmed, and candidate alone behind verified and behind invalid.
pub IsHistory-expected_past :
    (s : EvidenceState) (past : List EvidenceState) → IsHistory s past → past ≡ expected_past s
IsHistory-expected_past s past begun = refl
IsHistory-expected_past s past (moved from to reason before h step) =
    transition-past from to reason before step (IsHistory-expected_past from before h)
