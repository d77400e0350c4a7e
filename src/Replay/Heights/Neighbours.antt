-- ===== src/Replay/Heights/Neighbours.antt =====
-- Neighbours of the treap: the nearest heights on both sides.
use trust_map_prototype.Common.{
  ℕ, ◌≤◌, ◌<◌, ◌≡◌, refl, sym, true, false, ltb, List, [], ◌∷◌, All, All-imp, Bool-cases, ltb→lt,
  subst, ◌⊎◌, inl, inr, Option, none, some, arith,
}
use trust_map_prototype.Replay.Heights.{Treap, nil, node, neighbours_from, neighbours}
use trust_map_prototype.Replay.Heights.Keys.{
  has_key, last_below, first_above, IsIncreasing, IsIncreasing-IsSplit, has_key-append,
  last_below-append, first_above-append, last_below_above, first_above_below,
}
use trust_map_prototype.Replay.Heights.Order.{keys, IsOrdered}

neighbours_from-keys :
    (t : Treap) (key : ℕ) (before after : Option ℕ)
    → IsOrdered t
    → has_key key (keys t) ≡ false
    → neighbours_from before after t key
      ≡ (last_below before key (keys t), first_above after key (keys t))
unfolding neighbours_from keys last_below first_above
neighbours_from-keys nil key before after h absent = refl
neighbours_from-keys (node l k p r) key before after h absent =
    let s = IsIncreasing-IsSplit (keys l) k (keys r) h in
    ground (
      arith,
      neighbours_from-keys l key before (some k) s.left,
      neighbours_from-keys r key (some k) after s.right,
      has_key-append key k (keys r) (keys l),
      last_below-append key k (keys r) (keys l) before,
      first_above-append key k (keys r) (keys l) after,
      last_below_above key k (keys r) (last_below before key (keys l)),
      first_above_below key k (keys l) (first_above after key (keys r)),
    )

-- The height is in the list, below `key`, and no height of the list lies between; so for above.
abbrev pub IsPredecessor : ℕ → List ℕ → Option ℕ → Type 0
IsPredecessor key xs none = All (λ y. key < y) xs
IsPredecessor key xs (some x) =
    (has_key x xs ≡ true) × (x < key) × All (λ y. (y ≤ x) ⊎ (key < y)) xs

abbrev pub IsSuccessor : ℕ → List ℕ → Option ℕ → Type 0
IsSuccessor key xs none = All (λ y. y < key) xs
IsSuccessor key xs (some x) = (has_key x xs ≡ true) × (key < x) × All (λ y. (y < key) ⊎ (x ≤ y)) xs

-- The predecessor among `b` and the heights of the list, which are above `b`.
abbrev IsPredecessorFrom : ℕ → ℕ → List ℕ → Option ℕ → Type 0
IsPredecessorFrom b key xs none = ⊥
IsPredecessorFrom b key xs (some x) =
    ((x ≡ b) ⊎ (has_key x xs ≡ true)) × (b ≤ x) × (x < key) × All (λ y. (y ≤ x) ⊎ (key < y)) xs

IsPredecessorFrom-cons :
    (b key y : ℕ) (ys : List ℕ) (r : Option ℕ)
    → b ≤ y
    → IsPredecessorFrom y key ys r
    → IsPredecessorFrom b key (y ∷ ys) r
unfolding has_key
IsPredecessorFrom-cons b key y ys none h p = p
IsPredecessorFrom-cons b key y ys (some x) h p = ground arith

last_below-from :
    (b key : ℕ) (xs : List ℕ)
    → b < key
    → All (λ y. b < y) xs
    → IsIncreasing xs
    → has_key key xs ≡ false
    → IsPredecessorFrom b key xs (last_below (some b) key xs)
unfolding last_below has_key
last_below-from b key [] h over inc absent = (inl refl, omega arith, h, tt)
last_below-from b key (y ∷ ys) h over (above, inc) absent = elim (Bool-cases (ltb y key)) [
  | inl lower ↦
      let e : last_below (some b) key (y ∷ ys) ≡ last_below (some y) key ys = ground arith in
      subst (IsPredecessorFrom b key (y ∷ ys)) (sym e) (
        IsPredecessorFrom-cons b key y ys (last_below (some y) key ys) (omega arith)
          (last_below-from y key ys (ltb→lt y key lower) above inc (ground arith)))
  | inr higher ↦
      let e : last_below (some b) key (y ∷ ys) ≡ some b =
        ground (arith, last_below_above key y ys (some b)) in
      let beyond : key < y = ground arith in
      subst (IsPredecessorFrom b key (y ∷ ys)) (sym e)
        (inl refl, omega arith, h, (inr beyond, All-imp ys (λ z lt. inr (omega arith)) above))
]

IsPredecessor-from :
    (b key : ℕ) (xs : List ℕ) (r : Option ℕ)
    → IsPredecessorFrom b key xs r
    → IsPredecessor key (b ∷ xs) r
unfolding has_key
IsPredecessor-from b key xs none p = absurd p
IsPredecessor-from b key xs (some x) p = ground arith

last_below-IsPredecessor :
    (key : ℕ) (xs : List ℕ)
    → IsIncreasing xs
    → has_key key xs ≡ false
    → IsPredecessor key xs (last_below none key xs)
unfolding last_below has_key
last_below-IsPredecessor key [] inc absent = tt
last_below-IsPredecessor key (y ∷ ys) (above, inc) absent = elim (Bool-cases (ltb y key)) [
  | inl lower ↦
      let e : last_below none key (y ∷ ys) ≡ last_below (some y) key ys = ground arith in
      subst (IsPredecessor key (y ∷ ys)) (sym e) (
        IsPredecessor-from y key ys (last_below (some y) key ys)
          (last_below-from y key ys (ltb→lt y key lower) above inc (ground arith)))
  | inr higher ↦
      let e : last_below none key (y ∷ ys) ≡ none =
        ground (arith, last_below_above key y ys none) in
      let beyond : key < y = ground arith in
      subst (IsPredecessor key (y ∷ ys)) (sym e) (beyond, All-imp ys (λ z lt. omega arith) above)
]

IsSuccessor-cons :
    (key y : ℕ) (ys : List ℕ) (r : Option ℕ)
    → y < key
    → IsSuccessor key ys r
    → IsSuccessor key (y ∷ ys) r
unfolding has_key
IsSuccessor-cons key y ys none h p = (h, p)
IsSuccessor-cons key y ys (some x) h p = ground arith

first_above-IsSuccessor :
    (key : ℕ) (xs : List ℕ)
    → IsIncreasing xs
    → has_key key xs ≡ false
    → IsSuccessor key xs (first_above none key xs)
unfolding first_above has_key
first_above-IsSuccessor key [] inc absent = tt
first_above-IsSuccessor key (y ∷ ys) (above, inc) absent = elim (Bool-cases (ltb key y)) [
  | inl higher ↦
      let e : first_above none key (y ∷ ys) ≡ some y = ground arith in
      let self : has_key y (y ∷ ys) ≡ true = ground arith in
      subst (IsSuccessor key (y ∷ ys)) (sym e) (
        self,
        ltb→lt key y higher,
        (inr (omega arith), All-imp ys (λ z lt. inr (omega arith)) above),
      )
  | inr lower ↦
      let e : first_above none key (y ∷ ys) ≡ first_above none key ys = ground arith in
      subst (IsSuccessor key (y ∷ ys)) (sym e) (
        IsSuccessor-cons key y ys (first_above none key ys) (ground arith)
          (first_above-IsSuccessor key ys inc (ground arith)))
]

-- For a height that a treap in search order does not hold, Neighbours yields the nearest height of
-- the treap on each side: a height of the treap below (above) it such that no height of the treap
-- lies between, or nothing where the treap has no height on that side.
pub neighbours_nearest :
    (t : Treap) (key : ℕ)
    → IsOrdered t
    → has_key key (keys t) ≡ false
    → IsPredecessor key (keys t) (neighbours t key).0
      × IsSuccessor key (keys t) (neighbours t key).1
unfolding neighbours
neighbours_nearest t key h absent =
    rw (neighbours_from-keys t key none none h absent) (
      last_below-IsPredecessor key (keys t) h absent,
      first_above-IsSuccessor key (keys t) h absent,
    )
