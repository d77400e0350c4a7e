-- ===== src/Replay/Heights/Keys.antt =====
-- Strictly increasing lists of heights: the abstract view of the treap of Replay/Heights.
use Prim.Native.Nat.{compare}
use Prim.Native.Nat.Ordering.{lt, eq, gt}
use trust_map_prototype.Common.{
  ℕ, ◌≤◌, ◌<◌, ◌≡◌, refl, Bool, false, ◌||◌, ◌==◌, ltb, if◌then◌else◌, List, [], ◌∷◌, ◌++◌, All,
  All-imp, Option, some, arith,
}

-- Insertion into an increasing list; a height that is there is not inserted again.
unfoldable pub insert_key : ℕ → List ℕ → List ℕ
insert_key key [] = key ∷ []
insert_key key (x ∷ xs) = elim (compare key x) [
  | lt ↦ key ∷ x ∷ xs
  | eq ↦ x ∷ xs
  | gt ↦ x ∷ insert_key key xs
]

unfoldable pub has_key : ℕ → List ℕ → Bool
has_key key [] = false
has_key key (x ∷ xs) = key == x || has_key key xs

-- The last height below `key`, or `before` if there is none.
unfoldable pub last_below : Option ℕ → ℕ → List ℕ → Option ℕ
last_below before key [] = before
last_below before key (x ∷ xs) = last_below (if ltb x key then some x else before) key xs

-- The first height above `key`, or `after` if there is none.
unfoldable pub first_above : Option ℕ → ℕ → List ℕ → Option ℕ
first_above after key [] = after
first_above after key (x ∷ xs) = if ltb key x then some x else first_above after key xs

abbrev pub IsIncreasing : List ℕ → Type 0
IsIncreasing [] = Unit
IsIncreasing (x ∷ xs) = All (λ y. x < y) xs × IsIncreasing xs

-- The parts of an increasing list around one of its heights.
pub record IsSplit (xs : List ℕ) (y : ℕ) (ys : List ℕ) : Type 0 where
  pub below : All (λ x. x < y) xs
  pub above : All (λ x. y < x) ys
  pub left : IsIncreasing xs
  pub right : IsIncreasing ys

All-mid :
    (P : ℕ → Type 0) (xs : List ℕ) (y : ℕ) (ys : List ℕ) → All P (xs ++ y ∷ ys) → All P xs × P y
All-mid P [] y ys h = (tt, h.0)
All-mid P (x ∷ xs) y ys h = let (p, q) = All-mid P xs y ys h.1 in ((h.0, p), q)

pub IsIncreasing-IsSplit :
    (xs : List ℕ) (y : ℕ) (ys : List ℕ) → IsIncreasing (xs ++ y ∷ ys) → IsSplit xs y ys
IsIncreasing-IsSplit [] y ys h = record { below = tt; above = h.0; left = tt; right = h.1 }
IsIncreasing-IsSplit (x ∷ xs) y ys h =
    let s = IsIncreasing-IsSplit xs y ys h.1 in
    let (p, q) = All-mid (λ z. x < z) xs y ys h.0 in
    record { below = (q, s.below); above = s.above; left = (p, s.left); right = s.right }

All-insert_key :
    (P : ℕ → Type 0) (key : ℕ) (xs : List ℕ) → P key → All P xs → All P (insert_key key xs)
unfolding insert_key
All-insert_key P key [] p h = (p, tt)
All-insert_key P key (x ∷ xs) p h = ground (arith, All-insert_key P key xs p h.1)

pub insert_key-IsIncreasing :
    (key : ℕ) (xs : List ℕ) → IsIncreasing xs → IsIncreasing (insert_key key xs)
unfolding insert_key
insert_key-IsIncreasing key [] h = (tt, tt)
insert_key-IsIncreasing key (x ∷ xs) h = ground (
  arith,
  insert_key-IsIncreasing key xs h.1,
  All-insert_key (λ y. x < y) key xs,
  λ (lt : key < x). All-imp {P = λ y. x < y} {Q = λ y. key < y} xs (λ y q. omega arith) h.0,
)

module _ (key y : ℕ) (ys : List ℕ) where
  pub insert_key_left :
      (xs : List ℕ) → key < y → insert_key key (xs ++ y ∷ ys) ≡ insert_key key xs ++ y ∷ ys
  unfolding insert_key
  insert_key_left [] h = ground arith
  insert_key_left (x ∷ xs) h = ground (arith, insert_key_left xs h)

  pub insert_key_right :
      (xs : List ℕ)
      → y < key
      → All (λ x. x < y) xs
      → insert_key key (xs ++ y ∷ ys) ≡ xs ++ y ∷ insert_key key ys
  unfolding insert_key
  insert_key_right [] h b = ground arith
  insert_key_right (x ∷ xs) h b = ground (arith, insert_key_right xs h b.1)

  pub insert_key_at :
      (xs : List ℕ) → key ≡ y → All (λ x. x < y) xs → insert_key key (xs ++ y ∷ ys) ≡ xs ++ y ∷ ys
  unfolding insert_key
  insert_key_at [] h b = ground arith
  insert_key_at (x ∷ xs) h b = ground (arith, insert_key_at xs h b.1)

  pub has_key-append :
      (xs : List ℕ) → has_key key (xs ++ y ∷ ys) ≡ (has_key key xs || (key == y || has_key key ys))
  unfolding has_key
  has_key-append [] = refl
  has_key-append (x ∷ xs) = ground (arith, has_key-append xs)

  pub last_below-append :
      (xs : List ℕ) (before : Option ℕ)
      → last_below before key (xs ++ y ∷ ys) ≡ last_below (last_below before key xs) key (y ∷ ys)
  unfolding last_below
  last_below-append [] before = refl
  last_below-append (x ∷ xs) before = last_below-append xs (if ltb x key then some x else before)

  pub first_above-append :
      (xs : List ℕ) (after : Option ℕ)
      → first_above after key (xs ++ y ∷ ys) ≡ first_above (first_above after key (y ∷ ys)) key xs
  unfolding first_above
  first_above-append [] after = refl
  first_above-append (x ∷ xs) after = ground (arith, first_above-append xs after)

pub has_key_above :
    (key y : ℕ) (ys : List ℕ) → key ≤ y → All (λ x. y < x) ys → has_key key ys ≡ false
unfolding has_key
has_key_above key y [] h a = refl
has_key_above key y (x ∷ ys) h a = ground (arith, has_key_above key y ys h a.1)

pub has_key_below :
    (key y : ℕ) (ys : List ℕ) → y ≤ key → All (λ x. x < y) ys → has_key key ys ≡ false
unfolding has_key
has_key_below key y [] h a = refl
has_key_below key y (x ∷ ys) h a = ground (arith, has_key_below key y ys h a.1)

pub last_below_above :
    (key y : ℕ) (ys : List ℕ) (before : Option ℕ)
    → key ≤ y
    → All (λ x. y < x) ys
    → last_below before key ys ≡ before
unfolding last_below
last_below_above key y [] before h a = refl
last_below_above key y (x ∷ ys) before h a = ground (arith, last_below_above key y ys before h a.1)

pub first_above_below :
    (key y : ℕ) (ys : List ℕ) (after : Option ℕ)
    → y ≤ key
    → All (λ x. x < y) ys
    → first_above after key ys ≡ after
unfolding first_above
first_above_below key y [] after h a = refl
first_above_below key y (x ∷ ys) after h a = ground (arith, first_above_below key y ys after h a.1)
