-- ===== src/Merkle/Witness.antt =====
-- RootFromWitness of internal/proof/merkle.go: the witnesses of a tree rebuild its root, and no
-- other leaf or siblings do, short of a collision of Keccak-256.
use mathlib.Core.Path.{ap₂}
use native.Mathlib.Nat.{pow-suc}
use trust_map_prototype.Common.{
  ℕ, zero, suc, ◌+◌, ◌-◌, ◌/◌, ◌%◌, ◌^◌, ◌≤◌, ◌<◌, ◌≡◌, ◌≢◌, refl, sym, ap, ◌∙◌, ◌⊎◌, inl, inr,
  List, [], ◌∷◌, ◌==◌, if◌then◌else◌, Bool-cases, length, ok, ◌>>=◌, arith,
}
use trust_map_prototype.Merkle.{
  Hashing, IncrementalTree, max_tree_depth, pair_by, climb_siblings, root_from_witness,
  validate_depth, new_incremental_tree, append_all,
}
use trust_map_prototype.Merkle.Reference.{node_at, siblings_at, padded}
use trust_map_prototype.Merkle.Append.{append_all-root}

-- Two different pairs of words with one digest.
abbrev pub Collision : {H : Type 0} → Hashing H → Type 0
Collision {H} hashing =
    (a : H) × (b : H) × (c : H) × (d : H) × (a ≡ c → b ≡ d → ⊥)
    × (hashing.keccak a b ≡ hashing.keccak c d)

module _ {H : Type 0} ⦃hashing : Hashing H⦄ where
  open hashing use {keccak, empty, same, same_iff}

  pair_by-node_at :
      (leaf : ℕ → H) (level j : ℕ)
      → pair_by j (node_at level leaf j) (node_at level leaf (if j % 2 == 0 then j + 1 else j - 1))
        ≡ node_at (suc level) leaf (j / 2)
  unfolding node_at
  pair_by-node_at leaf level j = elim (Bool-cases (j % 2 == 0)) [
    | inl even ↦ rw even (
        ap₂ keccak (ap (node_at level leaf) (ground arith))
          (ap (node_at level leaf) (ground arith)))
    | inr odd ↦ rw odd (
        ap₂ keccak (ap (node_at level leaf) (ground arith))
          (ap (node_at level leaf) (ground arith)))
  ]

  climb_siblings-siblings_at :
      (leaf : ℕ → H) (levels level top j : ℕ)
      → level + levels ≡ top
      → j < 2 ^ levels
      → climb_siblings (node_at level leaf j) j (siblings_at levels leaf level j)
        ≡ node_at top leaf 0
  unfolding climb_siblings siblings_at
  climb_siblings-siblings_at leaf zero level top j e h =
      ap₂ (λ l k. node_at l leaf k) (omega arith) (omega arith)
  climb_siblings-siblings_at leaf (suc levels) level top j e h =
      ap (λ root. climb_siblings root (j / 2) (siblings_at levels leaf (suc level) (j / 2)))
        (pair_by-node_at leaf level j)
      ∙ climb_siblings-siblings_at leaf levels (suc level) top (j / 2) (omega arith)
          (omega (arith, pow-suc 2 levels))

  length-siblings_at :
      (leaf : ℕ → H) (levels level j : ℕ) → length (siblings_at levels leaf level j) ≡ levels
  unfolding siblings_at
  length-siblings_at leaf zero level j = refl
  length-siblings_at leaf (suc levels) level j =
      ap suc (length-siblings_at leaf levels (suc level) (j / 2))

  root_from_witness-eq-ok :
      (x : H) (j : ℕ) (siblings : List H) (depth : ℕ)
      → 0 < depth
      → depth ≤ max_tree_depth
      → length siblings ≡ depth
      → j < 2 ^ depth
      → root_from_witness x j siblings depth ≡ ok (climb_siblings x j siblings)
  unfolding root_from_witness validate_depth
  root_from_witness-eq-ok x j siblings depth positive bounded sized inside = ground arith

  pub root_from_witness-siblings_at :
      (depth : ℕ) (leaf : ℕ → H) (j : ℕ)
      → 0 < depth
      → depth ≤ max_tree_depth
      → j < 2 ^ depth
      → root_from_witness (leaf j) j (siblings_at depth leaf 0 j) depth ≡ ok (node_at depth leaf 0)
  unfolding node_at
  root_from_witness-siblings_at depth leaf j positive bounded inside =
      root_from_witness-eq-ok (leaf j) j (siblings_at depth leaf 0 j) depth positive bounded
        (length-siblings_at leaf depth 0 j) inside
      ∙ ap ok (climb_siblings-siblings_at leaf depth 0 depth j (omega arith) inside)

  -- After the leaves were appended to a new tree of a depth from 1 to 32, the siblings of any
  -- position below 2 ^ depth in the complete tree over them are a witness: RootFromWitness rebuilds
  -- the root that the incremental tree stores from the leaf at that position (the empty leaf
  -- behind the last one).
  pub root_from_witness-append_all :
      (depth : ℕ) (leaves : List H) (j : ℕ)
      → 0 < depth
      → depth ≤ max_tree_depth
      → length leaves ≤ 2 ^ depth
      → j < 2 ^ depth
      → (t : IncrementalTree H) × ((new_incremental_tree depth >>= λ tree. append_all tree leaves)
          ≡ ok t)
        × (root_from_witness (padded leaves j) j (siblings_at depth (padded leaves) 0 j) depth
            ≡ ok t.root)
  root_from_witness-append_all depth leaves j positive bounded fits inside =
      let (t, runs, root, _) = append_all-root depth leaves positive bounded fits in
      (
        t,
        runs,
        root_from_witness-siblings_at depth (padded leaves) j positive bounded inside
            ∙ ap ok (sym root),
      )

  same-cases : (a b : H) → (a ≡ b) ⊎ (a ≢ b)
  same-cases a b = elim (Bool-cases (same a b)) [
    | inl e ↦ inl ((same_iff a b).0 e)
    | inr n ↦ inr (λ e. cc ((same_iff a b).1 e))
  ]

  pub keccak-binds : (a b c d : H) → keccak a b ≡ keccak c d → (a ≡ c) × (b ≡ d) ⊎ Collision hashing
  keccak-binds a b c d e = elim (same-cases a c) [
    | inl p ↦ elim (same-cases b d) [
      | inl q ↦ inl (p, q)
      | inr n ↦ inr (a, b, c, d, (λ _ q. n q), e)
    ]
    | inr n ↦ inr (a, b, c, d, (λ p _. n p), e)
  ]

  pair_by-binds :
      (j : ℕ) (a s b t : H) → pair_by j a s ≡ pair_by j b t → (a ≡ b) × (s ≡ t) ⊎ Collision hashing
  pair_by-binds j a s b t = elim (Bool-cases (j % 2 == 0)) [
    | inl even ↦ rw even (λ e. keccak-binds a s b t e)
    | inr odd ↦
        rw odd (λ e. elim (keccak-binds s a t b e) [ inl (p, q) ↦ inl (q, p) | inr c ↦ inr c ])
  ]

  pub climb_siblings-binds :
      (ss ts : List H) (j : ℕ) (a b : H)
      → length ss ≡ length ts
      → climb_siblings a j ss ≡ climb_siblings b j ts
      → (a ≡ b) × (ss ≡ ts) ⊎ Collision hashing
  unfolding climb_siblings
  climb_siblings-binds [] [] j a b sized e = inl (e, refl)
  climb_siblings-binds [] (t ∷ ts) j a b sized e = absurd (omega arith)
  climb_siblings-binds (s ∷ ss) [] j a b sized e = absurd (omega arith)
  climb_siblings-binds (s ∷ ss) (t ∷ ts) j a b sized e =
      elim (climb_siblings-binds ss ts (j / 2) (pair_by j a s) (pair_by j b t) (omega arith) e) [
        | inl (root, rest) ↦ elim (pair_by-binds j a s b t root) [
          | inl (p, q) ↦ inl (p, ap₂ ◌∷◌ q rest)
          | inr c ↦ inr c
        ]
        | inr c ↦ inr c
      ]

  pub root_from_witness-ok :
      (x : H) (j : ℕ) (siblings : List H) (depth : ℕ) {r : H}
      → root_from_witness x j siblings depth ≡ ok r
      → (length siblings ≡ depth) × (climb_siblings x j siblings ≡ r)
  unfolding root_from_witness validate_depth
  root_from_witness-ok x j siblings depth h = ground arith

  -- If RootFromWitness accepts two leaves at one leaf index and depth and yields one root for both,
  -- then the leaves and the siblings are equal, or two different pairs with one digest are at hand.
  pub root_from_witness-binds :
      (x y : H) (j : ℕ) (ss ts : List H) (depth : ℕ) (r : H)
      → root_from_witness x j ss depth ≡ ok r
      → root_from_witness y j ts depth ≡ ok r
      → (x ≡ y) × (ss ≡ ts) ⊎ Collision hashing
  root_from_witness-binds x y j ss ts depth r p q =
      let (sized, root) = root_from_witness-ok x j ss depth p in
      let (sized', root') = root_from_witness-ok y j ts depth q in
      climb_siblings-binds ss ts j x y (omega arith) (root ∙ sym root')
