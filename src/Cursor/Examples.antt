-- ===== src/Cursor/Examples.antt =====
-- A stored cursor that follows two blocks and then meets a reorganisation.
use trust_map_prototype.Common.{
  ◌≡◌, ◌⊎◌, refl, some, List, [], ◌∷◌, arith, Bool-cases, inl, inr, ◌==◌,
}
use trust_map_prototype.Common.Maps.{lookup, insert}
use trust_map_prototype.Cursor.{
  healthy, degraded, no_reason, hash_mismatch, initialize, advance_stored, CanonicalCursor, Table,
  chain_keyed,
}
use trust_map_prototype.Cursor.Effects.{Operation, advancing, run, IsTable}
use trust_map_prototype.Cursor.History.{IsFollowed, run-IsFollowed}

abbrev start : CanonicalCursor
start = record {
  chain_id = 3;
  height = 10;
  hash = 77;
  state = healthy;
  degraded_reason = no_reason;
}

abbrev table : Table
table = (3, start) ∷ []

abbrev calls : List Operation
calls =
    advancing 3 77 (record { height = 11; hash = 78; parent_hash = 77 })
    ∷ advancing 3 78 (record { height = 12; hash = 79; parent_hash = 78 })
    ∷ advancing 3 80 (record { height = 13; hash = 81; parent_hash = 80 })
    ∷ advancing 3 79 (record { height = 13; hash = 81; parent_hash = 79 })
    ∷ []

table-IsTable : IsTable table
unfolding lookup
table-IsTable k c at = elim (Bool-cases (3 == k)) [
  | inl mine ↦ ground arith
  | inr other ↦ absurd (cc (rw other at at))
]

there : lookup 3 table ≡ some start
unfolding lookup
there = refl

run-IsFollowed_example :
    (c' : CanonicalCursor) × (lookup 3 (run table calls) ≡ some c')
    × IsFollowed 3 c'.height c'.hash calls 10 77
    × ((c' ≡ start) ⊎ (healthy ≡ healthy))
run-IsFollowed_example = run-IsFollowed calls table 3 start table-IsTable there

-- The third call finds another hash at height 12, and the fourth comes too late.
fallen :
    lookup 3 (run table calls)
    ≡ some (record {
      chain_id = 3;
      height = 12;
      hash = 79;
      state = degraded;
      degraded_reason = hash_mismatch;
    })
unfolding run lookup insert initialize advance_stored
fallen = refl
