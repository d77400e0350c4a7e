-- ===== src/Replay/Scratch.antt =====
-- replaySearchScratch of Mapnode/replay/replay_dijkstra.go: the distances and predecessors of a
-- search by node number, in arrays that a generation stamp keeps from being cleared. A slice is a
-- list; an index out of range, which panics, is not written.
use trust_map_prototype.Common.{
  ℕ, zero, suc, ◌+◌, ◌-◌, ◌≤◌, ◌<◌, ◌≡◌, refl, ap, ◌&&◌, ltb, ◌==◌, Option, none, some, List, [],
  ◌∷◌, ◌++◌, length, length-append, length-replicate, get_or, replicate, if◌then◌else◌, arith,
}
use trust_map_prototype.Replay.Cost.{max_uint64}
use trust_map_prototype.Replay.View.{BlockKey}

pub record QueueItem : Type 0 where
  pub id : ℕ
  pub key : BlockKey
  pub cost : ℕ

pub record Scratch : Type 0 where
  pub generation : ℕ
  pub distances : List ℕ
  pub distance_generations : List ℕ
  pub predecessors : List ℕ
  pub predecessor_generations : List ℕ
  pub queue : List QueueItem

-- `append(xs, make([]T, size-len(xs))...)` where the slice is shorter than `size`.
unfoldable pub grow : List ℕ → ℕ → List ℕ
grow xs size = if ltb (length xs) size then xs ++ replicate (size - length xs) 0 else xs

-- The built-in `clear`.
unfoldable pub clear : List ℕ → List ℕ
clear xs = replicate (length xs) 0

unfoldable pub set_at : List ℕ → ℕ → ℕ → List ℕ
set_at [] i v = []
set_at (x ∷ xs) zero v = v ∷ xs
set_at (x ∷ xs) (suc i) v = x ∷ set_at xs i v

unfoldable pub begin : Scratch → ℕ → Scratch
unfolding grow clear
begin scratch size =
    let stamps = grow scratch.distance_generations size in
    let stamps' = grow scratch.predecessor_generations size in
    let last = scratch.generation == max_uint64 in
    record {
      generation = if last then 1 else scratch.generation + 1;
      distances = grow scratch.distances size;
      distance_generations = if last then clear stamps else stamps;
      predecessors = grow scratch.predecessors size;
      predecessor_generations = if last then clear stamps' else stamps';
      queue = [];
    }

unfoldable pub get_distance : Scratch → ℕ → Option ℕ
get_distance scratch id =
    if ltb id (length scratch.distance_generations)
      && get_or scratch.distance_generations id 0 == scratch.generation
    then some (get_or scratch.distances id 0)
    else none

unfoldable pub set_distance : Scratch → ℕ → ℕ → Scratch
unfolding set_at
set_distance scratch id distance = record scratch {
  distances = set_at scratch.distances id distance;
  distance_generations = set_at scratch.distance_generations id scratch.generation;
}

unfoldable pub get_predecessor : Scratch → ℕ → Option ℕ
get_predecessor scratch id =
    if ltb id (length scratch.predecessor_generations)
      && get_or scratch.predecessor_generations id 0 == scratch.generation
    then some (get_or scratch.predecessors id 0)
    else none

unfoldable pub set_predecessor : Scratch → ℕ → ℕ → Scratch
unfolding set_at
set_predecessor scratch id predecessor = record scratch {
  predecessors = set_at scratch.predecessors id predecessor;
  predecessor_generations = set_at scratch.predecessor_generations id scratch.generation;
}

-- The arrays have a place for each of `size` nodes.
pub record IsSized (scratch : Scratch) (size : ℕ) : Type 0 where
  pub distances : size ≤ length scratch.distances
  pub distance_generations : size ≤ length scratch.distance_generations
  pub predecessors : size ≤ length scratch.predecessors
  pub predecessor_generations : size ≤ length scratch.predecessor_generations

-- No stamp is later than the generation, which is a uint64.
pub record IsStamped (scratch : Scratch) : Type 0 where
  pub bounded : scratch.generation ≤ max_uint64
  pub distances : (i : ℕ) → get_or scratch.distance_generations i 0 ≤ scratch.generation
  pub predecessors : (i : ℕ) → get_or scratch.predecessor_generations i 0 ≤ scratch.generation

length-set_at : (xs : List ℕ) (i v : ℕ) → length (set_at xs i v) ≡ length xs
unfolding set_at
length-set_at [] i v = refl
length-set_at (x ∷ xs) zero v = refl
length-set_at (x ∷ xs) (suc i) v = ap suc (length-set_at xs i v)

get_or-set_at :
    (xs : List ℕ) (i j v : ℕ)
    → i < length xs
    → get_or (set_at xs i v) j 0 ≡ (if i == j then v else get_or xs j 0)
unfolding set_at
get_or-set_at [] i j v h = absurd (omega arith)
get_or-set_at (x ∷ xs) zero zero v h = refl
get_or-set_at (x ∷ xs) zero (suc j) v h = ground arith
get_or-set_at (x ∷ xs) (suc i) zero v h = ground arith
get_or-set_at (x ∷ xs) (suc i) (suc j) v h = ground (arith, get_or-set_at xs i j v (omega arith))

length-grow : (xs : List ℕ) (size : ℕ) → size ≤ length (grow xs size)
unfolding grow
length-grow xs size = ground (
  arith,
  length-append xs (replicate (size - length xs) 0),
  length-replicate {A = ℕ} (size - length xs) 0,
)

get_or-replicate : (n i : ℕ) → get_or {A = ℕ} (replicate n 0) i 0 ≡ 0
get_or-replicate zero i = refl
get_or-replicate (suc n) zero = refl
get_or-replicate (suc n) (suc i) = get_or-replicate n i

get_or-append : (xs : List ℕ) (n i : ℕ) → get_or (xs ++ replicate n 0) i 0 ≡ get_or xs i 0
get_or-append [] n i = get_or-replicate n i
get_or-append (x ∷ xs) n zero = refl
get_or-append (x ∷ xs) n (suc i) = get_or-append xs n i

get_or-grow : (xs : List ℕ) (size i : ℕ) → get_or (grow xs size) i 0 ≡ get_or xs i 0
unfolding grow
get_or-grow xs size i = ground (arith, get_or-append xs (size - length xs) i)

get_or-clear : (xs : List ℕ) (i : ℕ) → get_or (clear xs) i 0 ≡ 0
unfolding clear
get_or-clear xs i = get_or-replicate (length xs) i

length-clear : (xs : List ℕ) → length (clear xs) ≡ length xs
unfolding clear
length-clear xs = length-replicate (length xs) 0

pub get_distance-set_distance :
    (s : Scratch) (n id d j : ℕ)
    → IsSized s n
    → id < n
    → get_distance (set_distance s id d) j ≡ (if id == j then some d else get_distance s j)
unfolding get_distance set_distance
get_distance-set_distance s n id d j h b = ground (
  arith,
  h.distances,
  h.distance_generations,
  get_or-set_at s.distances id j d (omega (arith, h.distances)),
  get_or-set_at s.distance_generations id j s.generation (omega (arith, h.distance_generations)),
  length-set_at s.distance_generations id s.generation,
)

pub get_predecessor-set_predecessor :
    (s : Scratch) (n id p j : ℕ)
    → IsSized s n
    → id < n
    → get_predecessor (set_predecessor s id p) j ≡ (if id == j then some p else get_predecessor s j)
unfolding get_predecessor set_predecessor
get_predecessor-set_predecessor s n id p j h b = ground (
  arith,
  h.predecessors,
  h.predecessor_generations,
  get_or-set_at s.predecessors id j p (omega (arith, h.predecessors)),
  get_or-set_at s.predecessor_generations id j s.generation
      (omega (arith, h.predecessor_generations)),
  length-set_at s.predecessor_generations id s.generation,
)

pub set_distance-IsSized :
    (s : Scratch) (n id d : ℕ) → IsSized s n → IsSized (set_distance s id d) n
unfolding set_distance
set_distance-IsSized s n id d h =
    ground
      (arith, length-set_at s.distances id d, length-set_at s.distance_generations id s.generation)

pub set_predecessor-IsSized :
    (s : Scratch) (n id p : ℕ) → IsSized s n → IsSized (set_predecessor s id p) n
unfolding set_predecessor
set_predecessor-IsSized s n id p h = ground (
  arith,
  length-set_at s.predecessors id p,
  length-set_at s.predecessor_generations id s.generation,
)

-- Begin on a scratch of whatever earlier searches, stamped up to its generation, makes room for
-- the nodes, leaves no distance and no predecessor of any node, and empties the queue; also where
-- the generation has reached the greatest uint64.
pub begin-fresh :
    (s : Scratch) (size : ℕ)
    → IsStamped s
    → IsStamped (begin s size)
      × IsSized (begin s size) size
      × ((id : ℕ)
          → (get_distance (begin s size) id ≡ none) × (get_predecessor (begin s size) id ≡ none))
      × ((begin s size).queue ≡ [])
unfolding begin get_distance get_predecessor
begin-fresh s size h =
    let d = λ (i : ℕ). get_or-grow s.distance_generations size i in
    let p = λ (i : ℕ). get_or-grow s.predecessor_generations size i in
    let cd = λ (i : ℕ). get_or-clear (grow s.distance_generations size) i in
    let cp = λ (i : ℕ). get_or-clear (grow s.predecessor_generations size) i in
    (
      record {
        bounded = ground (arith, h.bounded);
        distances = λ i. ground (arith, d i, cd i, h.distances i);
        predecessors = λ i. ground (arith, p i, cp i, h.predecessors i);
      },
      record {
        distances = length-grow s.distances size;
        distance_generations = ground (
          arith,
          length-grow s.distance_generations size,
          length-clear (grow s.distance_generations size),
        );
        predecessors = length-grow s.predecessors size;
        predecessor_generations = ground (
          arith,
          length-grow s.predecessor_generations size,
          length-clear (grow s.predecessor_generations size),
        );
      },
      λ id. (
        ground (arith, d id, cd id, h.distances id),
        ground (arith, p id, cp id, h.predecessors id),
      ),
      refl,
    )
