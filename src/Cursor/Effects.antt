-- ===== src/Cursor/Effects.antt =====
-- What one call of the repository (Mapnode/store/canonical_cursor_repository.go) does to the table.
use trust_map_prototype.Common.{
  ℕ, ◌+◌, ◌≡◌, ◌≢◌, refl, sym, ap, subst, inl, inr, false, not, ◌||◌, ◌==◌, none, some, List, [],
  ◌∷◌, ok, arith, Bool-cases, Option-cases, Result-cases,
}
use trust_map_prototype.Common.Maps.{lookup, insert, lookup-insert}
use trust_map_prototype.Cursor.{
  CursorState, healthy, degraded, Reason, CanonicalBlock, CanonicalCursor, is_degraded, is_empty,
  hash_changed, parent_changed, hash_mismatch, is_mismatch, Table, chain_keyed, advance, degrade,
  initialize, persist_degraded, degrade_stored, reject, advance_row, advance_stored,
}

pub data Operation : Type 0 where
  initializing : CanonicalCursor → Operation
  advancing : ℕ → ℕ → CanonicalBlock → Operation
  degrading : ℕ → Reason → Operation

unfoldable pub operate : Table → Operation → Table
operate table (initializing cursor) = (initialize table cursor).0
operate table (advancing chain_id rechecked_hash next) =
    (advance_stored table chain_id rechecked_hash next).0
operate table (degrading chain_id reason) = (degrade_stored table chain_id reason).0

unfoldable pub run : Table → List Operation → Table
unfolding operate
run table [] = table
run table (o ∷ os) = run (operate table o) os

-- Each row stands under its chain id.
abbrev pub IsTable : Table → Type 0
IsTable table = (k : ℕ) (c : CanonicalCursor) → lookup k table ≡ some c → c.chain_id ≡ k

-- A row that falls back to degraded, or moves on to the block of an Advance on top of it, whose
-- hash was read again as the stored one.
pub data Moves (o : Operation) (old new : CanonicalCursor) : Type 0 where
  falls : new.height ≡ old.height → new.hash ≡ old.hash → Moves o old new
  climbs :
      (b : CanonicalBlock)
      → o ≡ advancing old.chain_id old.hash b
      → b.parent_hash ≡ old.hash
      → b.height ≡ old.height + 1
      → b.hash ≢ 0
      → new.height ≡ b.height
      → new.hash ≡ b.hash
      → Moves o old new

pub data Effect (o : Operation) (table table' : Table) : Type 0 where
  nothing : table ≡ table' → Effect o table table'
  fresh :
      (c : CanonicalCursor)
      → lookup c.chain_id table ≡ none
      → insert c.chain_id c table ≡ table'
      → Effect o table table'
  moved :
      (old new : CanonicalCursor)
      → lookup old.chain_id table ≡ some old
      → old.state ≡ healthy
      → new.chain_id ≡ old.chain_id
      → Moves o old new
      → insert old.chain_id new table ≡ table'
      → Effect o table table'

not_degraded : (s : CursorState) → is_degraded s ≡ false → s ≡ healthy
not_degraded healthy h = refl
not_degraded degraded h = absurd (cc)

advance-rechecked :
    (c : CanonicalCursor) (rechecked_hash : ℕ) (next : CanonicalBlock) {c' : CanonicalCursor}
    → advance c rechecked_hash next ≡ ok c'
    → rechecked_hash ≡ c.hash
unfolding advance
advance-rechecked c rechecked_hash next run = ground arith

advance-Moves :
    (c : CanonicalCursor) (rechecked_hash : ℕ) (next : CanonicalBlock) {c' : CanonicalCursor}
    → advance c rechecked_hash next ≡ ok c'
    → (c'.chain_id ≡ c.chain_id) × Moves (advancing c.chain_id rechecked_hash next) c c'
unfolding advance
advance-Moves c rechecked_hash next run = (
  ground arith,
  climbs next (ap (λ x. advancing c.chain_id x next) (advance-rechecked c rechecked_hash next run))
      (ground arith) (ground arith) (ground arith) (ground arith) (ground arith),
)

persist_degraded-Effect :
    (o : Operation) (table : Table) (current : CanonicalCursor) (reason : Reason)
    → lookup current.chain_id table ≡ some current
    → current.state ≡ healthy
    → Effect o table (persist_degraded table current reason).0
unfolding persist_degraded degrade
persist_degraded-Effect o table current reason at well =
    moved current (degrade current reason) at well refl (falls refl refl) refl

initialize-Effect :
    (table : Table) (cursor : CanonicalCursor)
    → Effect (initializing cursor) table (initialize table cursor).0
unfolding initialize
initialize-Effect table cursor =
    elim (Bool-cases
      (is_degraded cursor.state || cursor.hash == 0 || not (is_empty cursor.degraded_reason))) [
        | inl bad ↦ nothing (rw (initialize, bad))
        | inr good ↦ elim (Option-cases (lookup cursor.chain_id table)) [
          | inl new ↦ fresh cursor new (rw (initialize, good, new))
          | inr (old, at) ↦ nothing (rw (initialize, good, at))
        ]
      ]

degrade_stored-Effect :
    (table : Table) (chain_id : ℕ) (reason : Reason)
    → IsTable table
    → Effect (degrading chain_id reason) table (degrade_stored table chain_id reason).0
unfolding degrade_stored
degrade_stored-Effect table chain_id reason t = elim (Bool-cases (is_empty reason)) [
  | inl empty ↦ nothing (rw (degrade_stored, empty))
  | inr some_reason ↦ elim (Option-cases (lookup chain_id table)) [
    | inl missing ↦ nothing (rw (degrade_stored, some_reason, missing))
    | inr (current, at) ↦ elim (Bool-cases (is_degraded current.state)) [
      | inl fallen ↦ nothing (rw (degrade_stored, some_reason, at, fallen))
      | inr well ↦
          rw (degrade_stored, some_reason, at, well)
            (persist_degraded-Effect (degrading chain_id reason) table current reason
              (subst (λ x. lookup x table ≡ some current) (sym (t chain_id current at)) at)
              (not_degraded current.state well))
    ]
  ]
]

reject-Effect :
    (o : Operation) (table : Table) (current : CanonicalCursor) (reason : Reason)
    → lookup current.chain_id table ≡ some current
    → current.state ≡ healthy
    → Effect o table (reject table current reason).0
unfolding reject
reject-Effect o table current reason at well =
    persist_degraded-Effect o table current reason at well

advance_row-Effect :
    (table : Table) (current : CanonicalCursor) (rechecked_hash : ℕ) (next : CanonicalBlock)
    → lookup current.chain_id table ≡ some current
    → current.state ≡ healthy
    → Effect
        (advancing current.chain_id rechecked_hash next)
        table
        (advance_row table current rechecked_hash next).0
unfolding advance_row
advance_row-Effect table current rechecked_hash next at well =
    elim (Result-cases (advance current rechecked_hash next)) [
      | inl (advanced, done) ↦
          let (same, moves) = advance-Moves current rechecked_hash next done in
          moved current advanced at well same moves (rw (advance_row, done))
      | inr (e, lost) ↦ elim (Bool-cases (is_mismatch e)) [
        | inl changed ↦
            rw (advance_row, lost, changed)
              (reject-Effect (advancing current.chain_id rechecked_hash next) table current
                hash_mismatch at well)
        | inr other ↦ nothing (rw (advance_row, lost, other))
      ]
    ]

advance_stored-Effect :
    (table : Table) (chain_id rechecked_hash : ℕ) (next : CanonicalBlock)
    → IsTable table
    → Effect
        (advancing chain_id rechecked_hash next)
        table
        (advance_stored table chain_id rechecked_hash next).0
unfolding advance_stored
advance_stored-Effect table chain_id rechecked_hash next t =
    elim (Option-cases (lookup chain_id table)) [
      | inl missing ↦ nothing (rw (advance_stored, missing))
      | inr (current, at) ↦
          let at' = subst (λ x. lookup x table ≡ some current) (sym (t chain_id current at)) at in
          elim (Bool-cases (is_degraded current.state)) [
            | inl fallen ↦ nothing (rw (advance_stored, at, fallen))
            | inr well ↦
                let healthy_row = not_degraded current.state well in
                elim (Bool-cases (current.height == next.height)) [
                  | inr above ↦
                      rw (advance_stored, at, well, above)
                        (subst
                          (λ k.
                            Effect (advancing k rechecked_hash next) table
                              (advance_row table current rechecked_hash next).0)
                          (t chain_id current at)
                          (advance_row-Effect table current rechecked_hash next at' healthy_row))
                  | inl again ↦ elim (Bool-cases (current.hash == next.hash)) [
                    | inr other ↦
                        rw (advance_stored, at, well, again, other)
                          (reject-Effect (advancing chain_id rechecked_hash next) table current
                            hash_changed at' healthy_row)
                    | inl same ↦ elim (Bool-cases (next.parent_hash == rechecked_hash)) [
                      | inr other ↦
                          rw (advance_stored, at, well, again, same, other)
                            (reject-Effect (advancing chain_id rechecked_hash next) table current
                              parent_changed at' healthy_row)
                      | inl ok_parent ↦
                          nothing (rw (advance_stored, at, well, again, same, ok_parent))
                    ]
                  ]
                ]
          ]
    ]

pub operate-Effect :
    (table : Table) (o : Operation) → IsTable table → Effect o table (operate table o)
unfolding operate
operate-Effect table (initializing cursor) t = initialize-Effect table cursor
operate-Effect table (advancing chain_id rechecked_hash next) t =
    advance_stored-Effect table chain_id rechecked_hash next t
operate-Effect table (degrading chain_id reason) t = degrade_stored-Effect table chain_id reason t

pub operate-IsTable :
    (o : Operation) (table table' : Table) → Effect o table table' → IsTable table → IsTable table'
operate-IsTable o table table' (nothing same) t = subst IsTable same t
operate-IsTable o table table' (fresh c new made) t =
    subst IsTable made (λ k d at. ground (arith, lookup-insert c.chain_id k c table, t k d))
operate-IsTable o table table' (moved old new at well same moves made) t =
    subst IsTable made (λ k d here. ground (arith, lookup-insert old.chain_id k new table, t k d))
