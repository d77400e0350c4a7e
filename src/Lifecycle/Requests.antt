-- ===== src/Lifecycle/Requests.antt =====
-- RequestState and ValidateTransition of Mapnode/coordinator/state.go. A state is a string: one of
-- the constants or another one.
use trust_map_prototype.Common.{
  ◌≡◌, Bool, true, false, ◌&&◌, ◌||◌, List, [], ◌∷◌, Result, ok, err, ◌>>◌, require, if◌then◌else◌,
  arith,
}
use trust_map_prototype.Replay.Text.{Text}

pub data RequestState : Type 0 where
  observed evidence_ready planned proof_ready rejected retryable replanned direct_fallback :
      RequestState
  other_state : Text → RequestState

pub data RequestError : Type 0 where
  invalid_request_state invalid_request_transition : RequestError

abbrev pub is_observed : RequestState → Bool
is_observed observed = true
is_observed _ = false

abbrev pub is_evidence_ready : RequestState → Bool
is_evidence_ready evidence_ready = true
is_evidence_ready _ = false

abbrev pub is_planned : RequestState → Bool
is_planned planned = true
is_planned _ = false

abbrev pub is_proof_ready : RequestState → Bool
is_proof_ready proof_ready = true
is_proof_ready _ = false

abbrev pub is_rejected : RequestState → Bool
is_rejected rejected = true
is_rejected _ = false

abbrev pub is_retryable : RequestState → Bool
is_retryable retryable = true
is_retryable _ = false

abbrev pub is_replanned : RequestState → Bool
is_replanned replanned = true
is_replanned _ = false

abbrev pub is_direct_fallback : RequestState → Bool
is_direct_fallback direct_fallback = true
is_direct_fallback _ = false

unfoldable pub validate_request : RequestState → Result RequestError (Unit {0})
validate_request (other_state _) = err invalid_request_state
validate_request _ = ok tt

-- `from == to`, where both are constants.
abbrev pub is_same : RequestState → RequestState → Bool
is_same from to =
    is_observed from && is_observed to
    || is_evidence_ready from && is_evidence_ready to
    || is_planned from && is_planned to
    || is_proof_ready from && is_proof_ready to
    || is_rejected from && is_rejected to
    || is_retryable from && is_retryable to
    || is_replanned from && is_replanned to
    || is_direct_fallback from && is_direct_fallback to

abbrev pub is_legal : RequestState → RequestState → Bool
is_legal from to =
    is_observed from && (is_evidence_ready to || is_rejected to)
    || is_evidence_ready from && is_planned to
    || is_planned from && (is_proof_ready to || is_retryable to)
    || is_proof_ready from && is_retryable to
    || is_direct_fallback from && is_retryable to
    || is_retryable from && (is_replanned to || is_direct_fallback to)
    || is_replanned from && is_proof_ready to

unfoldable pub validate_transition : RequestState → RequestState → Result RequestError Bool
unfolding validate_request
validate_transition from to = do
  validate_request from
  validate_request to
  if is_same from to
      then ok false
      else do require (is_legal from to) invalid_request_transition; ok true

-- A run of accepted transitions, by the states it passes, the last one first.
pub data IsHistory : RequestState → List RequestState → Type 0 where
  begun : IsHistory observed []
  moved :
      (from to : RequestState) (past : List RequestState) (changed : Bool)
      → IsHistory from past
      → validate_transition from to ≡ ok changed
      → IsHistory to (from ∷ past)

unfoldable pub any_state : (RequestState → Bool) → List RequestState → Bool
any_state p [] = false
any_state p (s ∷ ss) = p s || any_state p ss

-- The milestones that a state rests on.
abbrev pub Milestones : RequestState → List RequestState → Type 0
Milestones observed past = Unit
Milestones evidence_ready past = any_state is_observed past ≡ true
Milestones rejected past = any_state is_observed past ≡ true
Milestones (other_state _) past = ⊥
Milestones planned past = any_state is_evidence_ready past ≡ true
Milestones _ past = (any_state is_evidence_ready past ≡ true) × (any_state is_planned past ≡ true)

transition-Milestones :
    (from to : RequestState) (past : List RequestState) (changed : Bool)
    → validate_transition from to ≡ ok changed
    → Milestones from past
    → Milestones to (from ∷ past)
unfolding validate_transition any_state
transition-Milestones from to past changed h m = ground arith

-- However a request came to its state by transitions that ValidateTransition accepts, from observed
-- on, also those that change nothing: it is in one of the eight states; behind evidence_ready and
-- rejected lies observed, behind planned lies evidence_ready, and behind proof_ready, retryable,
-- replanned and direct_fallback lie evidence_ready and planned.
pub IsHistory-Milestones :
    (s : RequestState) (past : List RequestState) → IsHistory s past → Milestones s past
IsHistory-Milestones s past begun = tt
IsHistory-Milestones s past (moved from to before changed h step) =
    transition-Milestones from to before changed step (IsHistory-Milestones from before h)
