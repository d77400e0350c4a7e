-- ===== src/Replay/Heights/Priority.antt =====
-- The heap order of the treap's priorities: no node comes before its parent.
use trust_map_prototype.Common.{ℕ, ◌≡◌, true, false, ◌⊎◌, inl, inr, arith, Bool-cases}
use trust_map_prototype.Replay.Heights.{
  Treap, nil, node, height_priority_less, rotate_height_right, rotate_height_left, settle_left,
  settle_right, insert_height_node, insert, mix_height,
}

-- Every node satisfies `P` of its key and priority.
abbrev pub AllNodes : (ℕ → ℕ → Type 0) → Treap → Type 0
AllNodes P nil = Unit
AllNodes P (node l k p r) = AllNodes P l × P k p × AllNodes P r

-- The node of key `x` and priority `p` does not come before that of `y` and `q`.
abbrev NotBefore : ℕ → ℕ → ℕ → ℕ → Type 0
NotBefore y q x p = height_priority_less p x q y ≡ false

abbrev pub IsHeap : Treap → Type 0
IsHeap nil = Unit
IsHeap (node l y q r) =
    AllNodes (NotBefore y q) l × AllNodes (NotBefore y q) r × IsHeap l × IsHeap r

AllNodes-imp :
    {P Q : ℕ → ℕ → Type 0} (t : Treap) → ((x p : ℕ) → P x p → Q x p) → AllNodes P t → AllNodes Q t
AllNodes-imp nil f h = tt
AllNodes-imp (node l k p r) f (hl, h, hr) = (AllNodes-imp l f hl, f k p h, AllNodes-imp r f hr)

NotBefore-trans :
    (y q x p z s : ℕ) → height_priority_less p x q y ≡ true → NotBefore y q z s → NotBefore x p z s
unfolding height_priority_less
NotBefore-trans y q x p z s before h = ground arith

NotBefore-chain : (y q x p z s : ℕ) → NotBefore y q x p → NotBefore x p z s → NotBefore y q z s
unfolding height_priority_less
NotBefore-chain y q x p z s h k = ground arith

NotBefore-asym : (y q x p : ℕ) → height_priority_less p x q y ≡ true → NotBefore x p y q
unfolding height_priority_less
NotBefore-asym y q x p before = ground arith

-- What an insertion leaves at the root and below it: if the nodes of the old tree satisfied `P`,
-- then so does the new root, or all nodes below it do.
abbrev RootOrRest : (ℕ → ℕ → Type 0) → Treap → Type 0
RootOrRest P nil = Unit
RootOrRest P (node l k p r) = P k p ⊎ AllNodes P l × AllNodes P r

AllNodes-settle_left : (P : ℕ → ℕ → Type 0) (t : Treap) → AllNodes P t → AllNodes P (settle_left t)
unfolding settle_left rotate_height_right
AllNodes-settle_left P nil h = tt
AllNodes-settle_left P (node nil y q c) h = h
AllNodes-settle_left P (node (node a x p b) y q c) h = ground arith

AllNodes-settle_right :
    (P : ℕ → ℕ → Type 0) (t : Treap) → AllNodes P t → AllNodes P (settle_right t)
unfolding settle_right rotate_height_left
AllNodes-settle_right P nil h = tt
AllNodes-settle_right P (node a x p nil) h = h
AllNodes-settle_right P (node a x p (node b y q c)) h = ground arith

AllNodes-insert_height_node :
    (P : ℕ → ℕ → Type 0) (t : Treap) (key priority : ℕ)
    → P key priority
    → AllNodes P t
    → AllNodes P (insert_height_node t key priority)
unfolding insert_height_node
AllNodes-insert_height_node P nil key priority p h = (tt, p, tt)
AllNodes-insert_height_node P (node l y q r) key priority p h = ground (
  arith,
  AllNodes-insert_height_node P l key priority p h.0,
  AllNodes-insert_height_node P r key priority p h.2,
  AllNodes-settle_left P (node (insert_height_node l key priority) y q r),
  AllNodes-settle_right P (node l y q (insert_height_node r key priority)),
)

RootOrRest-settle_left :
    (P : ℕ → ℕ → Type 0) (l : Treap) (y q : ℕ) (r : Treap)
    → RootOrRest P l
    → P y q
    → AllNodes P r
    → RootOrRest P (settle_left (node l y q r))
unfolding settle_left rotate_height_right
RootOrRest-settle_left P nil y q r h p hr = inl p
RootOrRest-settle_left P (node a x s b) y q r h p hr = ground arith

RootOrRest-settle_right :
    (P : ℕ → ℕ → Type 0) (l : Treap) (y q : ℕ) (r : Treap)
    → RootOrRest P r
    → P y q
    → AllNodes P l
    → RootOrRest P (settle_right (node l y q r))
unfolding settle_right rotate_height_left
RootOrRest-settle_right P l y q nil h p hl = inl p
RootOrRest-settle_right P l y q (node a x s b) h p hl = ground arith

RootOrRest-insert_height_node :
    (P : ℕ → ℕ → Type 0) (t : Treap) (key priority : ℕ)
    → AllNodes P t
    → RootOrRest P (insert_height_node t key priority)
unfolding insert_height_node
RootOrRest-insert_height_node P nil key priority h = inr (tt, tt)
RootOrRest-insert_height_node P (node l y q r) key priority (hl, h, hr) = ground (
  arith,
  RootOrRest-insert_height_node P l key priority hl,
  RootOrRest-insert_height_node P r key priority hr,
  RootOrRest-settle_left P (insert_height_node l key priority) y q r,
  RootOrRest-settle_right P l y q (insert_height_node r key priority),
)

rest_of_before :
    (y q : ℕ) (a : Treap) (x p : ℕ) (b : Treap)
    → RootOrRest (NotBefore y q) (node a x p b)
    → height_priority_less p x q y ≡ true
    → AllNodes (NotBefore y q) a × AllNodes (NotBefore y q) b
rest_of_before y q a x p b (inl h) before = cc
rest_of_before y q a x p b (inr h) before = h

IsHeap-settle_left :
    (l : Treap) (y q : ℕ) (r : Treap)
    → RootOrRest (NotBefore y q) l
    → AllNodes (NotBefore y q) r
    → IsHeap l
    → IsHeap r
    → IsHeap (settle_left (node l y q r))
unfolding settle_left rotate_height_right
IsHeap-settle_left nil y q r h hr il ir = (tt, hr, tt, ir)
IsHeap-settle_left (node a x p b) y q r h hr (ha, hb, ia, ib) ir =
    elim (Bool-cases (height_priority_less p x q y)) [
      | inl before ↦
          let (la, lb) = rest_of_before y q a x p b h before in
          let through = λ (z s : ℕ). NotBefore-trans y q x p z s before in
          rw before (
            ha,
            (hb, NotBefore-asym y q x p before, AllNodes-imp r through hr),
            ia,
            (lb, hr, ib, ir),
          )
      | inr later ↦
          let through = λ (z s : ℕ). NotBefore-chain y q x p z s later in
          rw later (
            (AllNodes-imp a through ha, later, AllNodes-imp b through hb),
            hr,
            (ha, hb, ia, ib),
            ir,
          )
    ]

IsHeap-settle_right :
    (l : Treap) (y q : ℕ) (r : Treap)
    → RootOrRest (NotBefore y q) r
    → AllNodes (NotBefore y q) l
    → IsHeap l
    → IsHeap r
    → IsHeap (settle_right (node l y q r))
unfolding settle_right rotate_height_left
IsHeap-settle_right l y q nil h hl il ir = (hl, tt, il, tt)
IsHeap-settle_right l y q (node a x p b) h hl il (ha, hb, ia, ib) =
    elim (Bool-cases (height_priority_less p x q y)) [
      | inl before ↦
          let (la, lb) = rest_of_before y q a x p b h before in
          let through = λ (z s : ℕ). NotBefore-trans y q x p z s before in
          rw before (
            (AllNodes-imp l through hl, NotBefore-asym y q x p before, ha),
            hb,
            (hl, la, il, ia),
            ib,
          )
      | inr later ↦
          let through = λ (z s : ℕ). NotBefore-chain y q x p z s later in
          rw later (
            hl,
            (AllNodes-imp a through ha, later, AllNodes-imp b through hb),
            il,
            (ha, hb, ia, ib),
          )
    ]

IsHeap-insert_height_node :
    (t : Treap) (key priority : ℕ) → IsHeap t → IsHeap (insert_height_node t key priority)
unfolding insert_height_node
IsHeap-insert_height_node nil key priority h = (tt, tt, tt, tt)
IsHeap-insert_height_node (node l y q r) key priority (hl, hr, il, ir) = ground (
  arith,
  IsHeap-settle_left (insert_height_node l key priority) y q r
      (RootOrRest-insert_height_node (NotBefore y q) l key priority hl) hr
      (IsHeap-insert_height_node l key priority il) ir,
  IsHeap-settle_right l y q (insert_height_node r key priority)
      (RootOrRest-insert_height_node (NotBefore y q) r key priority hr) hl il
      (IsHeap-insert_height_node r key priority ir),
)

-- Insert keeps the heap order of the priorities: no node of the treap comes before one above it,
-- by priority and then by height.
pub insert-IsHeap : (t : Treap) (key : ℕ) → IsHeap t → IsHeap (insert t key)
unfolding insert
insert-IsHeap t key h = IsHeap-insert_height_node t key (mix_height key) h
