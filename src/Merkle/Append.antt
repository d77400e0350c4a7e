-- ===== src/Merkle/Append.antt =====
-- internal/proof/incremental.go against the complete tree: Append keeps the root of the tree over
-- all the leaves appended so far.
use mathlib.Core.Path.{ap₂}
use mathlib.Core.List.{append-nil, append_assoc}
use native.Mathlib.Decide.{dec_lt}
use trust_map_prototype.Common.{
  ℕ, zero, suc, ◌+◌, ◌*◌, ◌^◌, ◌≤◌, ◌<◌, ◌≡◌, ◌≢◌, refl, sym, ap, ◌∙◌, List, [], ◌∷◌, ◌++◌, length,
  length-append, length-replicate, get_or, replicate, ok, err, ◌>>=◌, arith,
}
use trust_map_prototype.Merkle.{
  Hashing, IncrementalTree, tree_full, max_tree_depth, validate_depth, zeros_from, zero_hashes,
  new_incremental_tree, climb, append, append_all,
}
use trust_map_prototype.Merkle.Reference.{node_at, padded}
use trust_map_prototype.Merkle.Frontier.{
  shr, zero_at, IsFrontier, length-climb, climb-root, climb-IsFrontier,
}

module _ {ℓ} {A : Type ℓ} where
  get_or-concat_last : (xs : List A) (x d : A) → get_or (xs ++ x ∷ []) (length xs) d ≡ x
  get_or-concat_last [] x d = refl
  get_or-concat_last (y ∷ xs) x d = get_or-concat_last xs x d

  get_or-concat_ne :
      (xs : List A) (x d : A) (k : ℕ) → k ≢ length xs → get_or xs k d ≡ get_or (xs ++ x ∷ []) k d
  get_or-concat_ne [] x d zero h = absurd (h refl)
  get_or-concat_ne [] x d (suc k) h = refl
  get_or-concat_ne (y ∷ xs) x d zero h = refl
  get_or-concat_ne (y ∷ xs) x d (suc k) h = get_or-concat_ne xs x d k (λ e. h (ap suc e))

  get_or-beyond : (xs : List A) (d : A) (k : ℕ) → length xs ≤ k → get_or xs k d ≡ d
  get_or-beyond [] d k h = refl
  get_or-beyond (y ∷ xs) d zero h = absurd (omega arith)
  get_or-beyond (y ∷ xs) d (suc k) h = get_or-beyond xs d k (omega arith)

module _ {H : Type 0} ⦃hashing : Hashing H⦄ where
  open hashing use {keccak, empty}

  -- The tree holds the leaves: the state that a run of Append calls has reached.
  pub record HoldsLeaves (tree : IncrementalTree H) (leaves : List H) : Type 0 where
    pub full : tree.capacity ≡ 2 ^ tree.depth
    pub counted : tree.next_index ≡ length leaves
    pub levels : length tree.frontier ≡ tree.depth
    pub zeroed : tree.zeros ≡ zeros_from tree.depth empty
    pub served : IsFrontier (padded leaves) 0 (length leaves) tree.frontier
    pub rooted : tree.root ≡ node_at tree.depth (padded leaves) 0

  -- What a successful Append leaves behind.
  abbrev grown : IncrementalTree H → H → IncrementalTree H
  grown tree leaf =
      let (frontier, root) = climb tree.frontier tree.zeros tree.next_index leaf in
      record tree { frontier = frontier; root = root; next_index = tree.next_index + 1 }

  append-eq-ok :
      (tree : IncrementalTree H) (leaf : H)
      → tree.next_index < tree.capacity
      → append tree leaf ≡ ok (grown tree leaf)
  unfolding append
  append-eq-ok tree leaf h = ground arith

  module _ (tree : IncrementalTree H) (leaves : List H) (leaf : H) (h : HoldsLeaves tree leaves)
      (room : length leaves < 2 ^ tree.depth) where
    agree : (k : ℕ) → k ≢ length leaves → padded leaves k ≡ padded (leaves ++ leaf ∷ []) k
    agree k = get_or-concat_ne leaves leaf empty k

    rest : (k : ℕ) → length leaves < k → padded (leaves ++ leaf ∷ []) k ≡ empty
    rest k lt =
        get_or-beyond (leaves ++ leaf ∷ []) empty k
          (omega (arith, length-append leaves (leaf ∷ [])))

    zeros_eq : tree.zeros ≡ zeros_from (length tree.frontier) (zero_at 0)
    unfolding zero_at
    zeros_eq = h.zeroed ∙ ap (λ d. zeros_from d empty) (sym h.levels)

    grown-HoldsLeaves : HoldsLeaves (grown tree leaf) (leaves ++ leaf ∷ [])
    unfolding node_at shr
    grown-HoldsLeaves =
        let last = sym (get_or-concat_last leaves leaf empty) in
        record {
          full = h.full;
          counted = omega (arith, length-append leaves (leaf ∷ []), h.counted);
          levels = length-climb tree.frontier tree.zeros tree.next_index leaf ∙ h.levels;
          zeroed = h.zeroed;
          served =
              rw (zeros_eq, h.counted)
                (climb-IsFrontier (padded leaves) (padded (leaves ++ leaf ∷ [])) (length leaves)
                  agree rest tree.frontier 0 (length leaves) (length (leaves ++ leaf ∷ [])) leaf
                  refl (omega (arith, length-append leaves (leaf ∷ []))) last h.served);
          rooted =
              rw (zeros_eq, h.counted)
                (climb-root (padded leaves) (padded (leaves ++ leaf ∷ [])) (length leaves) agree
                  rest tree.frontier 0 (length leaves) tree.depth leaf refl last h.served
                  (omega (arith, h.levels)) (rw h.levels room));
        }

    append-HoldsLeaves :
        (append tree leaf ≡ ok (grown tree leaf))
        × HoldsLeaves (grown tree leaf) (leaves ++ leaf ∷ [])
    append-HoldsLeaves =
        (append-eq-ok tree leaf (omega (arith, h.counted, h.full)), grown-HoldsLeaves)

  append_all_lem :
      (tree : IncrementalTree H) (xs ys : List H)
      → HoldsLeaves tree xs
      → length xs + length ys ≤ 2 ^ tree.depth
      → (t : IncrementalTree H) × (append_all tree ys ≡ ok t)
        × (t.depth ≡ tree.depth)
        × HoldsLeaves t (xs ++ ys)
  unfolding append_all
  append_all_lem tree xs [] h room = (tree, refl, refl, rw append-nil h)
  append_all_lem tree xs (y ∷ ys) h room =
      let (step, holds) = append-HoldsLeaves tree xs y h (omega arith) in
      let (t, runs, deep, all) =
        append_all_lem (grown tree y) (xs ++ y ∷ []) ys holds
          (omega (arith, length-append xs (y ∷ []))) in
      (t, rw step runs, deep, rw append_assoc at all)

  append_all-full_from :
      (tree : IncrementalTree H) (xs ys : List H)
      → HoldsLeaves tree xs
      → length xs ≤ 2 ^ tree.depth
      → 2 ^ tree.depth < length xs + length ys
      → append_all tree ys ≡ err tree_full
  unfolding append_all append
  append_all-full_from tree xs [] h fits over = absurd (omega arith)
  append_all-full_from tree xs (y ∷ ys) h fits over = elim (dec_lt (length xs) (2 ^ tree.depth)) [
    | yes room ↦
        let (step, holds) = append-HoldsLeaves tree xs y h room in
        rw step (
          append_all-full_from (grown tree y) (xs ++ y ∷ []) ys holds
            (omega (arith, length-append xs (y ∷ []))) (omega (arith, length-append xs (y ∷ []))))
    | no none_left ↦ ground (arith, h.counted, h.full)
  ]

  node_at-empty :
      (f : ℕ → H) → ((k : ℕ) → f k ≡ empty) → (level j : ℕ) → node_at level f j ≡ zero_at level
  unfolding node_at zero_at
  node_at-empty f blank zero j = blank j
  node_at-empty f blank (suc level) j =
      ap₂ keccak (node_at-empty f blank level (2 * j)) (node_at-empty f blank level (2 * j + 1))

  get_or-zeros_from :
      (levels level top : ℕ)
      → level + levels ≡ top
      → get_or (zeros_from levels (zero_at level)) levels empty ≡ zero_at top
  unfolding zeros_from zero_at
  get_or-zeros_from zero level top e = ap zero_at (omega arith)
  get_or-zeros_from (suc levels) level top e =
      get_or-zeros_from levels (suc level) top (omega arith)

  IsFrontier-zero : (f : ℕ → H) (level : ℕ) (xs : List H) → IsFrontier f level 0 xs
  IsFrontier-zero f level [] = tt
  IsFrontier-zero f level (x ∷ xs) = (λ odd. absurd (omega arith), IsFrontier-zero f (suc level) xs)

  abbrev fresh : ℕ → IncrementalTree H
  fresh depth = record {
    depth = depth;
    capacity = 2 ^ depth;
    next_index = 0;
    frontier = replicate depth empty;
    zeros = zeros_from depth empty;
    root = get_or (zeros_from depth empty) depth empty;
  }

  fresh-HoldsLeaves : (depth : ℕ) → HoldsLeaves (fresh depth) []
  unfolding zero_at
  fresh-HoldsLeaves depth = record {
    full = refl;
    counted = refl;
    levels = length-replicate depth empty;
    zeroed = refl;
    served = IsFrontier-zero (padded []) 0 (replicate depth empty);
    rooted =
        get_or-zeros_from depth 0 depth (omega arith)
        ∙ sym (node_at-empty (padded []) (λ k. refl) depth 0);
  }

  new_incremental_tree-eq-ok :
      (depth : ℕ)
      → 0 < depth
      → depth ≤ max_tree_depth
      → new_incremental_tree depth ≡ ok (fresh depth)
  unfolding new_incremental_tree zero_hashes validate_depth
  new_incremental_tree-eq-ok depth positive bounded = ground arith

  -- A new tree of a depth from 1 to 32 takes any list of at most 2 ^ depth leaves, one Append for
  -- each. Its root is then that of the complete binary tree over those leaves, in order, padded by
  -- empty leaves, and the next index is their number.
  pub append_all-root :
      (depth : ℕ) (leaves : List H)
      → 0 < depth
      → depth ≤ max_tree_depth
      → length leaves ≤ 2 ^ depth
      → (t : IncrementalTree H) × ((new_incremental_tree depth >>= λ tree. append_all tree leaves)
          ≡ ok t)
        × (t.root ≡ node_at depth (padded leaves) 0)
        × (t.next_index ≡ length leaves)
  append_all-root depth leaves positive bounded fits =
      let (t, runs, deep, holds) =
        append_all_lem (fresh depth) [] leaves (fresh-HoldsLeaves depth) (omega arith) in
      (
        t,
        rw (new_incremental_tree-eq-ok depth positive bounded) runs,
        rw deep at holds.rooted,
        holds.counted,
      )

  -- A new tree of a depth from 1 to 32 refuses every list of more than 2 ^ depth leaves: one of
  -- its Append calls returns ErrTreeFull.
  pub append_all-full :
      (depth : ℕ) (leaves : List H)
      → 0 < depth
      → depth ≤ max_tree_depth
      → 2 ^ depth < length leaves
      → (new_incremental_tree depth >>= λ tree. append_all tree leaves) ≡ err tree_full
  append_all-full depth leaves positive bounded over =
      rw (new_incremental_tree-eq-ok depth positive bounded) (
        append_all-full_from (fresh depth) [] leaves (fresh-HoldsLeaves depth) (omega arith)
          (omega arith))
