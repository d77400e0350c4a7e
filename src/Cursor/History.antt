-- ===== src/Cursor/History.antt =====
-- The stored cursors of Mapnode/store/canonical_cursor_repository.go over any sequence of calls.
use trust_map_prototype.Common.{
  ℕ, ◌+◌, ◌≡◌, ◌≢◌, refl, sym, subst, ◌∙◌, ◌⊎◌, inl, inr, ◌==◌, ==_iff, some, List, [], ◌∷◌, arith,
  Bool-cases,
}
use trust_map_prototype.Common.Maps.{lookup, lookup-insert}
use trust_map_prototype.Cursor.{healthy, CanonicalBlock, CanonicalCursor, Table, chain_keyed}
use trust_map_prototype.Cursor.Effects.{
  Operation, advancing, operate, run, IsTable, Moves, falls, climbs, Effect, nothing, fresh, moved,
  operate-Effect, operate-IsTable,
}

-- Of these calls, in their order, some Advance calls for the chain give blocks that lead from a
-- height and hash to another. Each block is one height above the one before it and has its hash as
-- the parent, and the call read this hash again.
pub data IsFollowed (chain_id : ℕ) (to_height to_hash : ℕ) : List Operation → ℕ → ℕ → Type 0 where
  here : IsFollowed chain_id to_height to_hash [] to_height to_hash
  skip :
      (o : Operation) (os : List Operation) (h x : ℕ)
      → IsFollowed chain_id to_height to_hash os h x
      → IsFollowed chain_id to_height to_hash (o ∷ os) h x
  block :
      (b : CanonicalBlock) (o : Operation) (os : List Operation) (h x : ℕ)
      → o ≡ advancing chain_id x b
      → b.parent_hash ≡ x
      → b.height ≡ h + 1
      → b.hash ≢ 0
      → IsFollowed chain_id to_height to_hash os b.height b.hash
      → IsFollowed chain_id to_height to_hash (o ∷ os) h x

-- What a call does to the row of a chain.
record IsLater (o : Operation) (table' : Table) (chain_id : ℕ) (c : CanonicalCursor) : Type 0 where
  row : CanonicalCursor
  at : lookup chain_id table' ≡ some row
  moves : Moves o c row
  firm : (row ≡ c) ⊎ (c.state ≡ healthy)

-- The calls that follow one, and the one before them.
Moves-IsFollowed :
    (o : Operation) (os : List Operation) (old new : CanonicalCursor) (to_height to_hash : ℕ)
    → Moves o old new
    → IsFollowed old.chain_id to_height to_hash os new.height new.hash
    → IsFollowed old.chain_id to_height to_hash (o ∷ os) old.height old.hash
Moves-IsFollowed o os old new to_height to_hash (falls height hash) f =
    skip o os old.height old.hash (
      subst (λ h. IsFollowed old.chain_id to_height to_hash os h old.hash) height
        (subst (λ x. IsFollowed old.chain_id to_height to_hash os new.height x) hash f))
Moves-IsFollowed o os old new to_height to_hash (climbs b call parent height hash is_height is_hash)
      f =
    block b o os old.height old.hash call parent height hash (
      subst (λ h. IsFollowed old.chain_id to_height to_hash os h b.hash) is_height
        (subst (λ x. IsFollowed old.chain_id to_height to_hash os new.height x) is_hash f))

Effect-IsLater :
    (o : Operation) (table table' : Table) (chain_id : ℕ) (c : CanonicalCursor)
    → Effect o table table'
    → lookup chain_id table ≡ some c
    → IsLater o table' chain_id c
Effect-IsLater o table table' chain_id c (nothing same) at = record {
  row = c;
  at = subst (λ m. lookup chain_id m ≡ some c) same at;
  moves = falls refl refl;
  firm = inl refl;
}
Effect-IsLater o table table' chain_id c (fresh d new made) at = record {
  row = c;
  at =
      subst (λ m. lookup chain_id m ≡ some c) made
        (ground (arith, lookup-insert d.chain_id chain_id d table));
  moves = falls refl refl;
  firm = inl refl;
}
Effect-IsLater o table table' chain_id c (moved old new is well same moves made) at =
    elim (Bool-cases (old.chain_id == chain_id)) [
      | inl mine ↦
          let key : old.chain_id ≡ chain_id = (==_iff old.chain_id chain_id).0 mine in
          let it : old ≡ c = cc in
          record {
            row = new;
            at =
                subst (λ m. lookup chain_id m ≡ some new) made
                  (lookup-insert old.chain_id chain_id new table ∙ rw mine);
            moves = subst (λ x. Moves o x new) it moves;
            firm = inr (subst (λ x. x.state ≡ healthy) it well);
          }
      | inr other ↦ record {
        row = c;
        at =
            subst (λ m. lookup chain_id m ≡ some c) made
              (lookup-insert old.chain_id chain_id new table ∙ rw other at);
        moves = falls refl refl;
        firm = inl refl;
      }
    ]

-- Over any sequence of Initialize, Advance and Degrade calls of the repository, for this and other
-- chains, a stored cursor stays. Blocks of Advance calls for its chain, in the order of these calls,
-- lead from its height and hash to those stored afterwards: each is one height above the one before
-- it, has a hash that is not 0 and the hash of the one before it as its parent, and its call read
-- that hash again. A degraded cursor does not change at all.
pub run-IsFollowed :
    (operations : List Operation) (table : Table) (chain_id : ℕ) (c : CanonicalCursor)
    → IsTable table
    → lookup chain_id table ≡ some c
    → (c' : CanonicalCursor) × (lookup chain_id (run table operations) ≡ some c')
      × IsFollowed chain_id c'.height c'.hash operations c.height c.hash
      × ((c' ≡ c) ⊎ (c.state ≡ healthy))
unfolding run
run-IsFollowed [] table chain_id c t at = (c, at, here, inl refl)
run-IsFollowed (o ∷ os) table chain_id c t at =
    let effect = operate-Effect table o t in
    let later = Effect-IsLater o table (operate table o) chain_id c effect at in
    let (c', at', followed, firm) =
      run-IsFollowed os (operate table o) chain_id later.row
        (operate-IsTable o table (operate table o) effect t) later.at in
    let mine = t chain_id c at in
    (
      c',
      at',
      subst (λ k. IsFollowed k c'.height c'.hash (o ∷ os) c.height c.hash) mine
          (Moves-IsFollowed o os c later.row c'.height c'.hash later.moves (
            subst (λ k. IsFollowed k c'.height c'.hash os later.row.height later.row.hash)
              (sym mine) followed)),
      firmly later.firm firm,
    )
  where
    firmly :
        {a b d : CanonicalCursor}
        → (b ≡ a) ⊎ (a.state ≡ healthy)
        → (d ≡ b) ⊎ (b.state ≡ healthy)
        → (d ≡ a) ⊎ (a.state ≡ healthy)
    firmly (inr well) _ = inr well
    firmly (inl same) (inl same') = inl (same' ∙ same)
    firmly (inl same) (inr well) = inr (subst (λ x. x.state ≡ healthy) same well)
