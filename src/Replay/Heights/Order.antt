-- ===== src/Replay/Heights/Order.antt =====
-- Insert and Contains of the treap refine insertion and membership of an increasing list.
use mathlib.Core.List.{append_assoc}
use native.Mathlib.Omega.{arith}
use trust_map_prototype.Common.{ℕ, ◌≡◌, refl, sym, subst, List, [], ◌∷◌, ◌++◌}
use trust_map_prototype.Replay.Heights.{
  Treap, nil, node, rotate_height_right, rotate_height_left, settle_left, settle_right,
  insert_height_node, insert, contains, mix_height,
}
use trust_map_prototype.Replay.Heights.Keys.{
  insert_key, has_key, IsIncreasing, IsIncreasing-IsSplit, insert_key-IsIncreasing, insert_key_left,
  insert_key_right, insert_key_at, has_key-append, has_key_above, has_key_below,
}

-- The heights of a treap from left to right.
unfoldable pub keys : Treap → List ℕ
keys nil = []
keys (node l k p r) = keys l ++ k ∷ keys r

-- The search order.
abbrev pub IsOrdered : Treap → Type 0
IsOrdered t = IsIncreasing (keys t)

keys-settle_left : (t : Treap) → keys (settle_left t) ≡ keys t
unfolding settle_left rotate_height_right keys
keys-settle_left nil = refl
keys-settle_left (node nil y q c) = refl
keys-settle_left (node (node a x p b) y q c) =
    ground (arith, append_assoc (keys a) (x ∷ keys b) (y ∷ keys c))

keys-settle_right : (t : Treap) → keys (settle_right t) ≡ keys t
unfolding settle_right rotate_height_left keys
keys-settle_right nil = refl
keys-settle_right (node a x p nil) = refl
keys-settle_right (node a x p (node b y q c)) =
    ground (arith, append_assoc (keys a) (x ∷ keys b) (y ∷ keys c))

keys-insert_height_node :
    (t : Treap) (key priority : ℕ)
    → IsOrdered t
    → keys (insert_height_node t key priority) ≡ insert_key key (keys t)
unfolding insert_height_node keys insert_key
keys-insert_height_node nil key priority h = refl
keys-insert_height_node (node l k p r) key priority h =
    let s = IsIncreasing-IsSplit (keys l) k (keys r) h in
    ground (
      arith,
      keys-settle_left (node (insert_height_node l key priority) k p r),
      keys-settle_right (node l k p (insert_height_node r key priority)),
      keys-insert_height_node l key priority s.left,
      keys-insert_height_node r key priority s.right,
      insert_key_left key k (keys r) (keys l),
      insert_key_right key k (keys r) (keys l),
      insert_key_at key k (keys r) (keys l),
    )

-- Insert of the treap is insertion into its increasing list of heights, and keeps the search order.
pub keys-insert :
    (t : Treap) (key : ℕ)
    → IsOrdered t
    → (keys (insert t key) ≡ insert_key key (keys t)) × IsOrdered (insert t key)
unfolding insert
keys-insert t key h =
    let e = keys-insert_height_node t key (mix_height key) h in
    (e, subst IsIncreasing (sym e) (insert_key-IsIncreasing key (keys t) h))

-- In a treap in search order Contains finds exactly the heights of the treap.
pub contains-has_key : (t : Treap) (key : ℕ) → IsOrdered t → contains t key ≡ has_key key (keys t)
unfolding contains keys has_key
contains-has_key nil key h = refl
contains-has_key (node l k p r) key h =
    let s = IsIncreasing-IsSplit (keys l) k (keys r) h in
    ground (
      arith,
      contains-has_key l key s.left,
      contains-has_key r key s.right,
      has_key-append key k (keys r) (keys l),
      has_key_above key k (keys r),
      has_key_below key k (keys l),
    )
