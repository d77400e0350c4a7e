-- ===== src/Cursor.antt =====
-- Mapnode/reorg/canonical_cursor.go and Mapnode/store/canonical_cursor_repository.go: how far a
-- chain's blocks were followed, in memory and as stored. Hashes, chain ids and heights are the
-- numbers of their 32 bytes; a height plus one is a big.Int and does not wrap. The table
-- canonical_cursors has one row for each chain; a statement or a transaction that SQLite fails is
-- left out. In a transaction the row that is updated is the one that was read.
use trust_map_prototype.Common.{
  ℕ, ◌+◌, ◌≡◌, Bool, true, false, not, ◌&&◌, ◌||◌, ◌==◌, ==_iff, Option, none, some, List, [], ◌∷◌,
  if◌then◌else◌, Result, ok, err,
}
use trust_map_prototype.Common.Maps.{Map, Keyed, lookup, insert}
pub mod Effects
pub mod History
mod Examples

pub data CursorState : Type 0 where
  healthy degraded : CursorState

-- The texts that the code gives, none, and those of a caller.
pub data Reason : Type 0 where
  no_reason canonical_mismatch hash_changed parent_changed hash_mismatch : Reason
  given : ℕ → Reason

pub data CursorError : Type 0 where
  mismatch_error degraded_error non_monotonic_error : CursorError
  not_found record_conflict initial_unhealthy reason_required : CursorError

pub record CanonicalBlock : Type 0 where
  pub height : ℕ
  pub hash : ℕ
  pub parent_hash : ℕ

pub record CanonicalCursor : Type 0 where
  pub chain_id : ℕ
  pub height : ℕ
  pub hash : ℕ
  pub state : CursorState
  pub degraded_reason : Reason

abbrev pub is_degraded : CursorState → Bool
is_degraded healthy = false
is_degraded degraded = true

abbrev pub is_empty : Reason → Bool
is_empty no_reason = true
is_empty _ = false

unfoldable pub same_reason : Reason → Reason → Bool
same_reason no_reason no_reason = true
same_reason canonical_mismatch canonical_mismatch = true
same_reason hash_changed hash_changed = true
same_reason parent_changed parent_changed = true
same_reason hash_mismatch hash_mismatch = true
same_reason (given a) (given b) = a == b
same_reason _ _ = false

-- Go's `==` on cursors.
unfoldable pub same_cursor : CanonicalCursor → CanonicalCursor → Bool
unfolding same_reason
same_cursor a b =
    a.chain_id == b.chain_id
    && a.height == b.height
    && a.hash == b.hash
    && (if is_degraded a.state then is_degraded b.state else not (is_degraded b.state))
    && same_reason a.degraded_reason b.degraded_reason

unfoldable pub new_canonical_cursor : ℕ → ℕ → ℕ → CanonicalCursor
new_canonical_cursor chain_id height hash = record {
  chain_id = chain_id;
  height = height;
  hash = hash;
  state = healthy;
  degraded_reason = no_reason;
}

unfoldable pub advance : CanonicalCursor → ℕ → CanonicalBlock → Result CursorError CanonicalCursor
advance cursor rechecked_hash next =
    if is_degraded cursor.state
    then err degraded_error
    else if not (rechecked_hash == cursor.hash)
    then err mismatch_error
    else if not (next.parent_hash == rechecked_hash)
    then err mismatch_error
    else if not (next.height == cursor.height + 1) || next.hash == 0
    then err non_monotonic_error
    else ok (record cursor { height = next.height; hash = next.hash })

unfoldable pub degrade : CanonicalCursor → Reason → CanonicalCursor
degrade cursor reason = record cursor {
  state = degraded;
  degraded_reason = if is_empty reason then canonical_mismatch else reason;
}

instance abbrev pub chain_keyed : Keyed ℕ
chain_keyed = record { same = ◌==◌; same_iff = ==_iff }

abbrev pub Table : Type 0
Table = Map ℕ CanonicalCursor

-- What a method of the repository returns: a cursor, whether it changed, and the error, if any.
pub record Answer : Type 0 where
  pub cursor : Option CanonicalCursor
  pub changed : Bool
  pub error : Option CursorError

abbrev pub failed : CursorError → Answer
failed e = record { cursor = none; changed = false; error = some e }

unfoldable pub initialize : Table → CanonicalCursor → Table × Answer
unfolding same_cursor
initialize table cursor =
    if is_degraded cursor.state || cursor.hash == 0 || not (is_empty cursor.degraded_reason)
    then (table, failed initial_unhealthy)
    else elim (lookup cursor.chain_id table) [
      | none ↦ (
        insert cursor.chain_id cursor table,
        record { cursor = some cursor; changed = true; error = none },
      )
      | some persisted ↦ (
        table,
        record {
          cursor = some persisted;
          changed = false;
          error = if same_cursor persisted cursor then none else some record_conflict;
        },
      )
    ]

unfoldable pub persist_degraded : Table → CanonicalCursor → Reason → Table × CanonicalCursor
unfolding degrade
persist_degraded table current reason =
    let fallen = degrade current reason in (insert current.chain_id fallen table, fallen)

unfoldable pub degrade_stored : Table → ℕ → Reason → Table × Answer
unfolding persist_degraded
degrade_stored table chain_id reason =
    if is_empty reason then (table, failed reason_required) else elim (lookup chain_id table) [
      | none ↦ (table, failed not_found)
      | some current ↦
          if is_degraded current.state
          then (table, record { cursor = some current; changed = false; error = none })
          else let (table', fallen) = persist_degraded table current reason in
            (table', record { cursor = some fallen; changed = true; error = none })
    ]

-- A mismatch is stored with its reason and reported.
unfoldable pub reject : Table → CanonicalCursor → Reason → Table × Answer
unfolding persist_degraded
reject table current reason =
    let (table', fallen) = persist_degraded table current reason in
    (table', record { cursor = some fallen; changed = true; error = some mismatch_error })

abbrev pub kept : CanonicalCursor → Option CursorError → Answer
kept current error = record { cursor = some current; changed = false; error = error }

-- `errors.Is(err, reorg.ErrCanonicalMismatch)`.
abbrev pub is_mismatch : CursorError → Bool
is_mismatch mismatch_error = true
is_mismatch _ = false

-- The part of Advance for a block above the stored one.
unfoldable pub advance_row : Table → CanonicalCursor → ℕ → CanonicalBlock → Table × Answer
unfolding advance reject
advance_row table current rechecked_hash next = elim (advance current rechecked_hash next) [
  | ok advanced ↦ (
    insert current.chain_id advanced table,
    record { cursor = some advanced; changed = true; error = none },
  )
  | err e ↦
      if is_mismatch e then reject table current hash_mismatch else (table, kept current (some e))
]

unfoldable pub advance_stored : Table → ℕ → ℕ → CanonicalBlock → Table × Answer
unfolding advance_row
advance_stored table chain_id rechecked_hash next = elim (lookup chain_id table) [
  | none ↦ (table, failed not_found)
  | some current ↦
      if is_degraded current.state
      then (table, kept current (some degraded_error))
      else if current.height == next.height
      then if not (current.hash == next.hash)
        then reject table current hash_changed
        else if not (next.parent_hash == rechecked_hash)
        then reject table current parent_changed
        else (table, kept current none)
      else advance_row table current rechecked_hash next
]
