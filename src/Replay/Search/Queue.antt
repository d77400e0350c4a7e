-- ===== src/Replay/Search/Queue.antt =====
-- The queue of the search of Mapnode/replay/replay_dijkstra.go: Pop takes a nearest item.
use trust_map_prototype.Common.{
  ℕ, suc, ◌≤◌, ◌≡◌, refl, ap, inl, inr, true, false, List, [], ◌∷◌, length, All, All-imp,
  Bool-cases, arith,
}
use trust_map_prototype.Replay.Scratch.{QueueItem}
use trust_map_prototype.Replay.Search.{less, pop_least}
use trust_map_prototype.Replay.Search.Walks.{Queued}

less-cost : (a b : QueueItem) → less a b ≡ true → a.cost ≤ b.cost
unfolding less
less-cost a b h = ground arith

not_less-cost : (a b : QueueItem) → less a b ≡ false → b.cost ≤ a.cost
unfolding less
not_less-cost a b h = ground arith

-- An item taken from a list: the items are those of the list, and none is nearer.
pub record IsPopped (whole : List QueueItem) (least : QueueItem) (others : List QueueItem)
    : Type 1 where
  pub keeps : (P : QueueItem → Type 0) → All P whole → P least × All P others
  pub nearest : All (λ x. least.cost ≤ x.cost) others
  pub queued : (i d : ℕ) → Queued i d whole → Queued i d (least ∷ others)
  pub shorter : length whole ≡ suc (length others)

pub pop_least-IsPopped :
    (item : QueueItem) (rest : List QueueItem)
    → let (least, others) = pop_least item rest in IsPopped (item ∷ rest) least others
unfolding pop_least
pop_least-IsPopped item [] = record {
  keeps = λ P h. h;
  nearest = tt;
  queued = λ i d h. h;
  shorter = refl;
}
pop_least-IsPopped item (next ∷ rest) =
    let h = pop_least-IsPopped next rest in
    let (least, others) = pop_least next rest in
    elim (Bool-cases (less least item)) [
      | inl lower ↦ rw lower (record {
        keeps = λ P a. let (l, o) = h.keeps P a.1 in (l, (a.0, o));
        nearest = (less-cost least item lower, h.nearest);
        queued = λ i d (queued : Queued i d (item ∷ next ∷ rest)). elim queued [
          | inl here ↦ inr (inl here)
          | inr there ↦ elim (h.queued i d there) [
            | inl found ↦ inl found
            | inr behind ↦ inr (inr behind)
          ]
        ];
        shorter = ap suc h.shorter;
      })
      | inr higher ↦
          let near = not_less-cost least item higher in
          rw higher (record {
            keeps = λ P a. (a.0, h.keeps P a.1);
            nearest = (near, All-imp others (λ x le. omega (arith, near, le)) h.nearest);
            queued = λ i d (queued : Queued i d (item ∷ next ∷ rest)). elim queued [
              | inl here ↦ inl here
              | inr there ↦ inr (h.queued i d there)
            ];
            shorter = ap suc h.shorter;
          })
    ]
