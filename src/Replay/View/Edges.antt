-- ===== src/Replay/View/Edges.antt =====
-- The edges of the replay graph under setEdgeLocked and deleteEdgeLocked, and the edge counter.
use trust_map_prototype.Common.{
  ℕ, ◌+◌, ◌≡◌, refl, ap, ◌∙◌, Bool, ◌&&◌, Option, none, some, List, [], ◌∷◌, length, if◌then◌else◌,
  arith, Bool-cases, inl, inr,
}
use trust_map_prototype.Common.Maps.{
  Map, lookup, insert, delete, IsUnique, lookup-insert, lookup-delete, length-insert, length-delete,
  insert-IsUnique, delete-IsUnique, is_some,
}
use trust_map_prototype.Replay.Cost.{u64}
use trust_map_prototype.Replay.View.{
  BlockKey, same_key, same_key_iff, key_keyed, ReplayEdge, ReplayTrustView, or_empty,
  set_edge_locked, delete_edge_locked, PendingEdge, set_edges,
}

abbrev pub Adjacency : Type 0
Adjacency = Map BlockKey (Map BlockKey ReplayEdge)

abbrev pub edge_at : Adjacency → BlockKey → BlockKey → Option ReplayEdge
edge_at a from to = lookup to (or_empty (lookup from a))

-- The number of edges.
unfoldable pub total : Adjacency → ℕ
total [] = 0
total ((k, m) ∷ a) = length m + total a

-- One entry for each node and for each of its neighbours, and the edges counted as a uint64.
pub record IsConsistent (view : ReplayTrustView) : Type 0 where
  pub outer : IsUnique view.adjacency
  pub inner : (k : BlockKey) → IsUnique (or_empty (lookup k view.adjacency))
  pub counted : view.edge_count ≡ u64 (total view.adjacency)

total-insert :
    (k : BlockKey) (m : Map BlockKey ReplayEdge) (a : Adjacency)
    → total (insert k m a) + length (or_empty (lookup k a)) ≡ total a + length m
unfolding total insert lookup
total-insert k m [] = omega arith
total-insert k m ((j, n) ∷ a) = ground (arith, total-insert k m a)

abbrev pub same_pair : BlockKey → BlockKey → BlockKey → BlockKey → Bool
same_pair from to f t = same_key from f && same_key to t

pub edge_at-set_edge_locked :
    (view : ReplayTrustView) (from to : BlockKey) (e : ReplayEdge) (f t : BlockKey)
    → edge_at (set_edge_locked view from to e).adjacency f t
      ≡ (if same_pair from to f t then some e else edge_at view.adjacency f t)
unfolding set_edge_locked
edge_at-set_edge_locked view from to e f t =
    let a = view.adjacency in
    let m = or_empty (lookup from a) in
    ground
      (arith, lookup-insert from f (insert to e m) a, lookup-insert to t e m, same_key_iff from f)

pub edge_at-delete_edge_locked :
    (view : ReplayTrustView) (from to f t : BlockKey)
    → IsConsistent view
    → edge_at (delete_edge_locked view from to).adjacency f t
      ≡ (if same_pair from to f t then none else edge_at view.adjacency f t)
unfolding delete_edge_locked
edge_at-delete_edge_locked view from to f t h =
    let a = view.adjacency in
    let m = or_empty (lookup from a) in
    ground (
      arith,
      lookup-insert from f (delete to m) a,
      lookup-delete to t m (h.inner from),
      same_key_iff from f,
      same_key_iff to t,
    )

pub set_edge_locked-IsConsistent :
    (view : ReplayTrustView) (from to : BlockKey) (e : ReplayEdge)
    → IsConsistent view
    → IsConsistent (set_edge_locked view from to e)
unfolding set_edge_locked
set_edge_locked-IsConsistent view from to e h =
    let a = view.adjacency in
    let m = or_empty (lookup from a) in
    record {
      outer = insert-IsUnique from (insert to e m) a h.outer;
      inner = λ k. ground (
        arith,
        lookup-insert from k (insert to e m) a,
        insert-IsUnique to e m (h.inner from),
        h.inner k,
      );
      counted =
          ground (arith, total-insert from (insert to e m) a, length-insert to e m, h.counted);
    }

pub delete_edge_locked-IsConsistent :
    (view : ReplayTrustView) (from to : BlockKey)
    → IsConsistent view
    → IsConsistent (delete_edge_locked view from to)
unfolding delete_edge_locked
delete_edge_locked-IsConsistent view from to h =
    let a = view.adjacency in
    let m = or_empty (lookup from a) in
    elim (Bool-cases (is_some (lookup to m))) [
      | inl here ↦ rw here (record {
        outer = insert-IsUnique from (delete to m) a h.outer;
        inner = λ k. ground (
          arith,
          lookup-insert from k (delete to m) a,
          delete-IsUnique to m (h.inner from),
          h.inner k,
        );
        counted = ground (arith, total-insert from (delete to m) a, length-delete to m, h.counted);
      })
      | inr gone ↦ rw gone h
    ]

pub set_edges-IsConsistent :
    (ps : List PendingEdge) (view : ReplayTrustView)
    → IsConsistent view
    → IsConsistent (set_edges view ps)
unfolding set_edges
set_edges-IsConsistent [] view h = h
set_edges-IsConsistent (p ∷ ps) view h =
    set_edges-IsConsistent ps (set_edge_locked view p.from p.to p.edge)
      (set_edge_locked-IsConsistent view p.from p.to p.edge h)

-- The edge that the last pending one from `f` to `t` sets, or the one that was there.
abbrev pub last_set : List PendingEdge → BlockKey → BlockKey → Option ReplayEdge → Option ReplayEdge
last_set [] f t old = old
last_set (p ∷ ps) f t old = last_set ps f t (if same_pair p.from p.to f t then some p.edge else old)

pub edge_at-set_edges :
    (ps : List PendingEdge) (view : ReplayTrustView) (f t : BlockKey)
    → edge_at (set_edges view ps).adjacency f t ≡ last_set ps f t (edge_at view.adjacency f t)
unfolding set_edges
edge_at-set_edges [] view f t = refl
edge_at-set_edges (p ∷ ps) view f t =
    edge_at-set_edges ps (set_edge_locked view p.from p.to p.edge) f t
    ∙ ap (last_set ps f t) (edge_at-set_edge_locked view p.from p.to p.edge f t)
