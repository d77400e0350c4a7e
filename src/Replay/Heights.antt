-- ===== src/Replay/Heights.antt =====
-- orderedHeightIndex of Mapnode/replay/replay_trust_view.go: a treap of block heights, whose
-- priorities are a mix of the height. A nil pointer is `nil`, and what an update of the node graph
-- leaves reachable from the root is the new tree.
use Prim.Native.Nat.{bit_xor, compare, Ordering}
use Prim.Native.Nat.Ordering.{lt, eq, gt}
use trust_map_prototype.Common.{
  ℕ, ◌+◌, ◌*◌, ◌/◌, ◌%◌, Bool, true, false, Option, none, some, ltb, ◌==◌, ◌&&◌, ◌||◌,
  if◌then◌else◌,
}
use trust_map_prototype.Replay.Cost.{u64}
pub mod Keys
pub mod Order
pub mod Priority
pub mod Neighbours

pub data Treap : Type 0 where
  nil : Treap
  node : Treap → ℕ → ℕ → Treap → Treap

-- The key and the priority of a node stand between its two subtrees.
unfoldable pub mix_height : ℕ → ℕ
mix_height height =
    let value = u64 (height + 0x9e3779b97f4a7c15) in
    let value' = u64 (bit_xor value (value / 1073741824) * 0xbf58476d1ce4e5b9) in
    let value'' = u64 (bit_xor value' (value' / 134217728) * 0x94d049bb133111eb) in
    bit_xor value'' (value'' / 2147483648)

pub height_priority_less : ℕ → ℕ → ℕ → ℕ → Bool
height_priority_less left_priority left_key right_priority right_key =
    ltb left_priority right_priority || left_priority == right_priority && ltb left_key right_key

-- A rotation dereferences the child, which is not nil where it is called.
pub rotate_height_right : Treap → Treap
rotate_height_right (node (node a x p b) y q c) = node a x p (node b y q c)
rotate_height_right t = t

pub rotate_height_left : Treap → Treap
rotate_height_left (node a x p (node b y q c)) = node (node a x p b) y q c
rotate_height_left t = t

-- The test after the insertion into the left subtree, and the rotation; so for the right.
pub settle_left : Treap → Treap
unfolding rotate_height_right
settle_left (node (node a x p b) y q c) =
    if height_priority_less p x q y
    then rotate_height_right (node (node a x p b) y q c)
    else node (node a x p b) y q c
settle_left t = t

pub settle_right : Treap → Treap
unfolding rotate_height_left
settle_right (node a x p (node b y q c)) =
    if height_priority_less q y p x
    then rotate_height_left (node a x p (node b y q c))
    else node a x p (node b y q c)
settle_right t = t

pub insert_height_node : Treap → ℕ → ℕ → Treap
insert_height_node nil key priority = node nil key priority nil
insert_height_node (node l k p r) key priority = elim (compare key k) [
  | lt ↦ settle_left (node (insert_height_node l key priority) k p r)
  | eq ↦ node l k p r
  | gt ↦ settle_right (node l k p (insert_height_node r key priority))
]

unfoldable pub insert : Treap → ℕ → Treap
unfolding mix_height insert_height_node settle_left settle_right height_priority_less
insert root key = insert_height_node root key (mix_height key)

unfoldable pub contains : Treap → ℕ → Bool
contains nil key = false
contains (node l k p r) key = elim (compare key k) [
  | lt ↦ contains l key
  | eq ↦ true
  | gt ↦ contains r key
]

-- The loop of Neighbours: a result and its `has` flag are one option.
unfoldable pub neighbours_from : Option ℕ → Option ℕ → Treap → ℕ → Option ℕ × Option ℕ
neighbours_from predecessor successor nil key = (predecessor, successor)
neighbours_from predecessor successor (node l k p r) key = elim (compare key k) [
  | lt ↦ neighbours_from predecessor (some k) l key
  | eq ↦ (predecessor, successor)
  | gt ↦ neighbours_from (some k) successor r key
]

unfoldable pub neighbours : Treap → ℕ → Option ℕ × Option ℕ
unfolding neighbours_from
neighbours root key = neighbours_from none none root key
