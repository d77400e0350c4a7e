-- ===== src/Merkle/Frontier.antt =====
-- The loop of Append (internal/proof/incremental.go) level by level: what the frontier holds, the
-- node that each round reaches, and the frontier that is left for the next leaf.
use mathlib.Core.Path.{ap₂}
use native.Mathlib.Nat.{pow-suc}
use trust_map_prototype.Common.{
  ℕ, zero, suc, ◌+◌, ◌*◌, ◌-◌, ◌/◌, ◌%◌, ◌^◌, ◌<◌, ◌≡◌, ◌≢◌, refl, sym, ap, subst, ◌∙◌, List, [],
  ◌∷◌, ◌==◌, ◌⊎◌, inl, inr, true, false, length, arith,
}
use trust_map_prototype.Merkle.{Hashing, zeros_from, climb}
use trust_map_prototype.Merkle.Reference.{node_at}

-- An index shifted right by a number of levels.
unfoldable pub shr : ℕ → ℕ → ℕ
shr zero n = n
shr (suc level) n = shr level n / 2

two-pow-suc : (n : ℕ) → 2 ^ suc n ≡ 2 * 2 ^ n
two-pow-suc n = pow-suc 2 n ∙ omega arith

-- The test of `index & 1`, with what it says of the index.
parity : (m : ℕ) → (m % 2 == 0 ≡ true) × (m % 2 ≡ 0) ⊎ (m % 2 == 0 ≡ false) × (m % 2 ≡ 1)
parity m = ground arith

module _ {H : Type 0} ⦃hashing : Hashing H⦄ where
  open hashing use {keccak, empty}

  unfoldable pub zero_at : ℕ → H
  zero_at zero = empty
  zero_at (suc level) = keccak (zero_at level) (zero_at level)

  pub node_at-beyond :
      (f : ℕ → H) (n : ℕ)
      → ((k : ℕ) → n < k → f k ≡ empty)
      → (level j : ℕ) → shr level n < j
      → node_at level f j ≡ zero_at level
  unfolding node_at zero_at shr
  node_at-beyond f n rest zero j h = rest j h
  node_at-beyond f n rest (suc level) j h =
      ap₂ keccak (node_at-beyond f n rest level (2 * j) (omega arith))
        (node_at-beyond f n rest level (2 * j + 1) (omega arith))

  node_at-agree :
      (f g : ℕ → H) (n : ℕ)
      → ((k : ℕ) → k ≢ n → f k ≡ g k)
      → (level j : ℕ) → j ≢ shr level n
      → node_at level f j ≡ node_at level g j
  unfolding node_at shr
  node_at-agree f g n agree zero j h = agree j h
  node_at-agree f g n agree (suc level) j h =
      ap₂ keccak (node_at-agree f g n agree level (2 * j) (omega arith))
        (node_at-agree f g n agree level (2 * j + 1) (omega arith))

  pub length-climb :
      (frontier zeros : List H) (m : ℕ) (node : H)
      → length (climb frontier zeros m node).0 ≡ length frontier
  unfolding climb
  length-climb [] zeros m node = refl
  length-climb (x ∷ xs) [] m node = refl
  length-climb (x ∷ xs) (z ∷ zeros) m node = ap suc (length-climb xs zeros (m / 2) _)

  -- At each level where the shifted index is odd, the frontier holds the node before it.
  abbrev pub IsFrontier : (ℕ → H) → ℕ → ℕ → List H → Type 0
  IsFrontier f level m [] = Unit
  IsFrontier f level m (x ∷ xs) =
      (m % 2 ≡ 1 → x ≡ node_at level f (m - 1)) × IsFrontier f (suc level) (m / 2) xs

  -- `g` is `f` with a leaf at position `n`, behind which all leaves are empty.
  module _ (f g : ℕ → H) (n : ℕ) (agree : (k : ℕ) → k ≢ n → f k ≡ g k)
      (rest : (k : ℕ) → n < k → g k ≡ empty) where
    pair_even :
        (level m : ℕ) (node : H)
        → m % 2 ≡ 0
        → m ≡ shr level n
        → node ≡ node_at level g m
        → keccak node (zero_at level) ≡ node_at (suc level) g (m / 2)
    unfolding node_at
    pair_even level m node even e h =
        ap₂ keccak (h ∙ ap (node_at level g) (omega arith))
          (sym (node_at-beyond g n rest level (2 * (m / 2) + 1) (omega arith)))

    pair_odd :
        (level m : ℕ) (x node : H)
        → m % 2 ≡ 1
        → m ≡ shr level n
        → x ≡ node_at level f (m - 1)
        → node ≡ node_at level g m
        → keccak x node ≡ node_at (suc level) g (m / 2)
    unfolding node_at
    pair_odd level m x node odd e before h =
        ap₂ keccak
          (before
            ∙ node_at-agree f g n agree level (m - 1) (omega arith)
            ∙ ap (node_at level g) (omega arith))
          (h ∙ ap (node_at level g) (omega arith))

    pub climb-root :
        (frontier : List H) (level m top : ℕ) (node : H)
        → m ≡ shr level n
        → node ≡ node_at level g m
        → IsFrontier f level m frontier
        → level + length frontier ≡ top
        → m < 2 ^ length frontier
        → (climb frontier (zeros_from (length frontier) (zero_at level)) m node).1 ≡ node_at top g 0
    unfolding climb zeros_from zero_at shr
    climb-root [] level m top node e h fr t lt =
        h ∙ ap₂ (λ l j. node_at l g j) (omega arith) (omega arith)
    climb-root (x ∷ xs) level m top node e h fr t lt = elim (parity m) [
      | inl (test, even) ↦ rw test (
          climb-root xs (suc level) (m / 2) top (keccak node (zero_at level)) (ap (λ k. k / 2) e)
            (pair_even level m node even e h) fr.1 (omega arith)
            (omega (arith, two-pow-suc (length xs))))
      | inr (test, odd) ↦ rw test (
          climb-root xs (suc level) (m / 2) top (keccak x node) (ap (λ k. k / 2) e)
            (pair_odd level m x node odd e (fr.0 odd) h) fr.1 (omega arith)
            (omega (arith, two-pow-suc (length xs))))
    ]

    -- Where no lower bit carries, the new frontier serves the same index.
    climb-IsFrontier_still :
        (frontier : List H) (level m : ℕ) (z node : H)
        → m ≡ shr level n
        → IsFrontier f level m frontier
        → IsFrontier g level m (climb frontier (zeros_from (length frontier) z) m node).0
    unfolding climb zeros_from shr
    climb-IsFrontier_still [] level m z node e fr = tt
    climb-IsFrontier_still (x ∷ xs) level m z node e fr = elim (parity m) [
      | inl (test, even) ↦ rw test (
        λ odd. absurd (omega arith),
        climb-IsFrontier_still xs (suc level) (m / 2) (keccak z z) (keccak node z)
            (ap (λ k. k / 2) e) fr.1,
      )
      | inr (test, odd) ↦ rw test (
        λ _. fr.0 odd ∙ node_at-agree f g n agree level (m - 1) (omega arith),
        climb-IsFrontier_still xs (suc level) (m / 2) (keccak z z) (keccak x node)
            (ap (λ k. k / 2) e) fr.1,
      )
    ]

    -- Where all lower bits carry, it serves the next index.
    pub climb-IsFrontier :
        (frontier : List H) (level m m' : ℕ) (node : H)
        → m ≡ shr level n
        → m' ≡ m + 1
        → node ≡ node_at level g m
        → IsFrontier f level m frontier
        → IsFrontier g level m'
            (climb frontier (zeros_from (length frontier) (zero_at level)) m node).0
    unfolding climb zeros_from zero_at shr
    climb-IsFrontier [] level m m' node e e' h fr = tt
    climb-IsFrontier (x ∷ xs) level m m' node e e' h fr = elim (parity m) [
      | inl (test, even) ↦ rw test (
        λ _. h ∙ ap (node_at level g) (omega arith),
        subst
            (λ k.
              IsFrontier g (suc level) k
                (climb xs (zeros_from (length xs) (zero_at (suc level))) (m / 2)
                  (keccak node (zero_at level))).0)
            (omega arith)
            (climb-IsFrontier_still xs (suc level) (m / 2) (zero_at (suc level))
              (keccak node (zero_at level)) (ap (λ k. k / 2) e) fr.1),
      )
      | inr (test, odd) ↦ rw test (
        λ odd'. absurd (omega arith),
        climb-IsFrontier xs (suc level) (m / 2) (m' / 2) (keccak x node) (ap (λ k. k / 2) e)
            (omega arith) (pair_odd level m x node odd e (fr.0 odd) h) fr.1,
      )
    ]
