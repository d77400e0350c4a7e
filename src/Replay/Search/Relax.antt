-- ===== src/Replay/Search/Relax.antt =====
-- The loop over the neighbours of an item in ShortestPath (Mapnode/replay/replay_dijkstra.go).
use trust_map_prototype.Common.{
  ℕ, zero, suc, ◌+◌, ◌≤◌, ◌<◌, ◌≡◌, subst, ◌⊎◌, inl, inr, true, false, not, ◌||◌, ltb, leb, some,
  List, [], ◌∷◌, length, get_elem?, ok, arith, Bool-cases, Option-cases, Result-cases,
}
use trust_map_prototype.Common.Maps.{lookup}
use trust_map_prototype.Replay.Cost.{checked_add, max_uint64}
use trust_map_prototype.Replay.View.{
  BlockKey, key_keyed, same_key, same_key_iff, ReplayEdge, ReplayTrustView,
}
use trust_map_prototype.Replay.Scratch.{
  QueueItem, Scratch, get_distance, set_distance, set_predecessor,
}
use trust_map_prototype.Replay.Search.{Query, node_ok, node_id_locked, relax_edge, is_reached}
use trust_map_prototype.Replay.Search.Walks.{Within}

get_elem?-lt : {A : Type 0} (xs : List A) (i : ℕ) {x : A} → get_elem? xs i ≡ some x → i < length xs
get_elem?-lt [] i h = absurd (cc)
get_elem?-lt (x ∷ xs) zero h = omega arith
get_elem?-lt (x ∷ xs) (suc i) h = omega (arith, get_elem?-lt xs i h)

pub node_id_locked-ok :
    (view : ReplayTrustView) (k : BlockKey) (id : ℕ)
    → node_id_locked view k ≡ ok id
    → (lookup k view.node_ids ≡ some id)
      × (get_elem? view.node_keys id ≡ some k)
      × (id < length view.node_keys)
unfolding node_id_locked
node_id_locked-ok view k id h = elim (Option-cases (lookup k view.node_ids)) [
  | inl missing ↦ absurd (cc (rw (node_id_locked, missing) at h))
  | inr (i, is) ↦ elim (Option-cases (get_elem? view.node_keys i)) [
    | inl out ↦ absurd (cc (rw (node_id_locked, is, out) at h))
    | inr (found, at) ↦ elim (Bool-cases (same_key found k)) [
      | inr other ↦ absurd (cc (rw (node_id_locked, is, at, other) at h))
      | inl it ↦
          let same : i ≡ id = ground (arith, rw (node_id_locked, is, at, it) at h) in
          let key : found ≡ k = (same_key_iff found k).0 it in
          let at' : get_elem? view.node_keys id ≡ some k = cc in
          (cc, at', get_elem?-lt view.node_keys id at')
    ]
  ]
]

checked_add-sum : (a b c : ℕ) → a ≤ max_uint64 → checked_add a b ≡ ok c → c ≡ a + b
unfolding checked_add
checked_add-sum a b c bound h = ground arith

-- The scratch after a neighbour got a nearer distance over the item.
abbrev pub marked : QueueItem → Scratch → ℕ → BlockKey → ℕ → Scratch
marked item s id neighbour candidate =
    record (set_predecessor (set_distance s id candidate) id item.id) {
      queue = record { id = id; key = neighbour; cost = candidate } ∷ s.queue;
    }

-- The ways through the body of the loop.
pub data Relaxed (q : Query) (item : QueueItem) (s : Scratch) (t : BlockKey) (c : ℕ) (s' : Scratch)
    : Type 0 where
  skipped : (q.cutoff < c) ⊎ (node_ok q t ≡ false) → s ≡ s' → Relaxed q item s t c s'
  kept :
      (id : ℕ)
      → lookup t q.view.node_ids ≡ some id
      → Within s id c
      → s ≡ s'
      → Relaxed q item s t c s'
  nearer :
      (id : ℕ)
      → lookup t q.view.node_ids ≡ some id
      → get_elem? q.view.node_keys id ≡ some t
      → id < length q.view.node_keys
      → ((x : ℕ) → get_distance s id ≡ some x → c < x)
      → c ≤ q.cutoff
      → marked item s id t c ≡ s'
      → Relaxed q item s t c s'

is_reached-Within :
    (s : Scratch) (id c : ℕ) → is_reached (get_distance s id) c ≡ true → Within s id c
is_reached-Within s id c h = elim (Option-cases (get_distance s id)) [
  | inl new ↦ absurd (cc (rw new at h))
  | inr (x, old) ↦ let near : leb x c ≡ true = rw old at h in (x, old, ground arith)
]

not_reached :
    (s : Scratch) (id c : ℕ)
    → is_reached (get_distance s id) c ≡ false
    → (x : ℕ) → get_distance s id ≡ some x
    → c < x
not_reached s id c h x old = let far : leb x c ≡ false = rw old at h in ground arith

pub relax_edge-Relaxed :
    (q : Query) (item : QueueItem) (s : Scratch) (t : BlockKey) (e : ReplayEdge) (s' : Scratch)
    → item.cost ≤ max_uint64
    → relax_edge q item s (t, e) ≡ ok s'
    → Relaxed q item s t (item.cost + e.weight) s'
unfolding relax_edge
relax_edge-Relaxed q item s t e s' b run = elim (Result-cases (checked_add item.cost e.weight)) [
  | inr (_, over) ↦ absurd (cc (rw (relax_edge, over) at run))
  | inl (c, added) ↦
      subst (λ n. Relaxed q item s t n s') (checked_add-sum item.cost e.weight c b added)
        (elim (Bool-cases (ltb q.cutoff c || not (node_ok q t))) [
          | inl out ↦ skipped (ground arith) (ground (arith, rw (relax_edge, added, out) at run))
          | inr inside ↦
              let run₁ = rw (relax_edge, added, inside) at run in
              elim (Result-cases (node_id_locked q.view t)) [
                | inr (_, lost) ↦ absurd (cc (rw lost at run₁))
                | inl (id, found) ↦
                    let (is, at, low) = node_id_locked-ok q.view t id found in
                    let run₂ = rw found at run₁ in
                    elim (Bool-cases (is_reached (get_distance s id) c)) [
                      | inl near ↦
                          kept id is (is_reached-Within s id c near)
                            (ground (arith, rw near at run₂))
                      | inr far ↦
                          nearer id is at low (not_reached s id c far) (ground arith)
                            (ground (arith, rw far at run₂))
                    ]
              ]
        ])
]
