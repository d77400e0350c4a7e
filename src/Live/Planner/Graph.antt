-- ===== src/Live/Planner/Graph.antt =====
-- The graph that Mapnode/planner/planner.go searches: the walks along the edges of a snapshot, and the
-- edges out of a node.
use mathlib.Core.List.{Memᴰ}
use mathlib.Core.List.Memᴰ.{head, tail, append_left, append_right}
use trust_map_prototype.Common.{
  ℕ, suc, ◌+◌, ◌≡◌, refl, sym, ap, subst, ◌∙◌, ◌⊎◌, inl, inr, false, List, [], ◌∷◌, ◌++◌, All,
  length, length-append, if◌then◌else◌, Bool-cases, arith, All-append,
}
use trust_map_prototype.Common.Maps.{lookup, insert, lookup-insert}
use trust_map_prototype.Replay.Text.{Text, text_eq, text_eq_iff, text_keyed}
use trust_map_prototype.Live.View.{TrustEdge, sort_by, insert_sorted}
use trust_map_prototype.Live.View.Sorting.{sort_by-Mem, All-sort_by}
use trust_map_prototype.Live.Planner.{Adjacency, out_edges, group_edges, sort_edges, adjacency_of}

-- A path along edges of the list, and the sum of their costs.
pub data IsWalk (edges : List TrustEdge) : Text → Text → List TrustEdge → ℕ → Type 0 where
  stay : (k : Text) → IsWalk edges k k [] 0
  move :
      (e : TrustEdge) (to : Text) (path : List TrustEdge) (w : ℕ)
      → Memᴰ e edges
      → IsWalk edges e.to to path w
      → IsWalk edges e.from to (e ∷ path) (e.path_step_cost + w)

-- A walk from the first node to the second.
abbrev pub IsReachable : List TrustEdge → Text → Text → Type 0
IsReachable edges start k = (path : List TrustEdge) × (w : ℕ) × IsWalk edges start k path w

-- A walk and one more edge.
pub extend :
    (edges : List TrustEdge) {from via : Text} {path : List TrustEdge} {w : ℕ} (e : TrustEdge)
    → IsWalk edges from via path w
    → Memᴰ e edges
    → e.from ≡ via
    → IsWalk edges from e.to (path ++ e ∷ []) (w + e.path_step_cost)
extend edges e (stay k) m at =
    subst (λ j. IsWalk edges j e.to (e ∷ []) (0 + e.path_step_cost)) at
      (subst (λ w. IsWalk edges e.from e.to (e ∷ []) w) (omega arith)
        (move e e.to [] 0 m (stay e.to)))
extend edges e (move e₀ to path w m₀ walk) m at =
    subst (λ v. IsWalk edges e₀.from e.to (e₀ ∷ path ++ e ∷ []) v) (omega arith)
      (move e₀ e.to (path ++ e ∷ []) (w + e.path_step_cost) m₀ (extend edges e walk m at))

-- The edges out of a node are edges of the list that leave it.
abbrev pub IsOut : List TrustEdge → Adjacency → Type 0
IsOut edges a = (k : Text) → All (λ e. Memᴰ e edges × (e.from ≡ k)) (out_edges a k)

-- Every edge is among those out of its node.
abbrev pub HasOut : List TrustEdge → Adjacency → Type 0
HasOut edges a = (e : TrustEdge) → Memᴰ e edges → Memᴰ e (out_edges a e.from)

out_edges-insert :
    (k j : Text) (es : List TrustEdge) (a : Adjacency)
    → out_edges (insert k es a) j ≡ (if text_eq k j then es else out_edges a j)
out_edges-insert k j es a = ground (arith, lookup-insert k j es a)

pub All-Mem {ℓ} : {A : Type ℓ} (P : A → Type 0) {x : A} (l : List A) → All P l → Memᴰ x l → P x
All-Mem P [] h m = elim m [ ]
All-Mem P (a ∷ l) h (head e) = subst P (sym e) h.0
All-Mem P (a ∷ l) h (tail m) = All-Mem P l h.1 m

group_edges-IsOut :
    (edges : List TrustEdge) (a : Adjacency) (es : List TrustEdge)
    → IsOut edges a
    → All (λ e. Memᴰ e edges) es
    → IsOut edges (group_edges a es)
unfolding group_edges
group_edges-IsOut edges a [] h inside = h
group_edges-IsOut edges a (e ∷ es) h inside =
    group_edges-IsOut edges (insert e.from (out_edges a e.from ++ e ∷ []) a) es
      (λ k. rw (out_edges-insert e.from k (out_edges a e.from ++ e ∷ []) a) (grown k)) inside.1
  where
    grown :
        (k : Text)
        → All
            (λ x. Memᴰ x edges × (x.from ≡ k))
            (if text_eq e.from k then out_edges a e.from ++ e ∷ [] else out_edges a k)
    grown k = elim (Bool-cases (text_eq e.from k)) [
      | inr other ↦ rw other (h k)
      | inl it ↦
          let same : e.from ≡ k = (text_eq_iff e.from k).0 it in
          let old = h e.from in
          rw it (
            subst (λ j. All (λ x. Memᴰ x edges × (x.from ≡ j)) (out_edges a e.from ++ e ∷ [])) same
              (All-append (λ x. Memᴰ x edges × (x.from ≡ e.from)) (out_edges a e.from) (e ∷ []) old
                ((inside.0, refl), tt)))
    ]

group_edges-keeps :
    (a : Adjacency) (es : List TrustEdge) (x : TrustEdge)
    → Memᴰ x (out_edges a x.from) ⊎ Memᴰ x es
    → Memᴰ x (out_edges (group_edges a es) x.from)
unfolding group_edges
group_edges-keeps a [] x (inl m) = m
group_edges-keeps a [] x (inr m) = elim m [ ]
group_edges-keeps a (e ∷ es) x h =
    group_edges-keeps (insert e.from (out_edges a e.from ++ e ∷ []) a) es x (sort_out h)
  where
    sort_out :
        Memᴰ x (out_edges a x.from) ⊎ Memᴰ x (e ∷ es)
        → Memᴰ x (out_edges (insert e.from (out_edges a e.from ++ e ∷ []) a) x.from) ⊎ Memᴰ x es
    sort_out h = elim (Bool-cases (text_eq e.from x.from)) [
      | inl it ↦
          let same : e.from ≡ x.from = (text_eq_iff e.from x.from).0 it in
          let at = out_edges-insert e.from x.from (out_edges a e.from ++ e ∷ []) a in
          placed h (λ m. subst (λ l. Memᴰ x l) (sym (at ∙ rw it refl)) m)
            (λ m. subst (λ k. Memᴰ x (out_edges a k)) (sym same) m)
      | inr other ↦
          let at = out_edges-insert e.from x.from (out_edges a e.from ++ e ∷ []) a in
          passed h
            (subst (λ l. Memᴰ x (out_edges a x.from) → Memᴰ x l) (sym (at ∙ rw other refl))
              (λ m. m))
            other
    ]
      where
        placed :
            Memᴰ x (out_edges a x.from) ⊎ Memᴰ x (e ∷ es)
            → (Memᴰ x (out_edges a e.from ++ e ∷ [])
                → Memᴰ x (out_edges (insert e.from (out_edges a e.from ++ e ∷ []) a) x.from))
            → (Memᴰ x (out_edges a x.from) → Memᴰ x (out_edges a e.from))
            → Memᴰ x (out_edges (insert e.from (out_edges a e.from ++ e ∷ []) a) x.from) ⊎ Memᴰ x es
        placed (inl m) put back = inl (put (append_left (e ∷ []) (back m)))
        placed (inr (head same)) put back =
            inl (put (append_right (out_edges a e.from) (head same)))
        placed (inr (tail m)) put back = inr m

        passed :
            Memᴰ x (out_edges a x.from) ⊎ Memᴰ x (e ∷ es)
            → (Memᴰ x (out_edges a x.from)
                → Memᴰ x (out_edges (insert e.from (out_edges a e.from ++ e ∷ []) a) x.from))
            → text_eq e.from x.from ≡ false
            → Memᴰ x (out_edges (insert e.from (out_edges a e.from ++ e ∷ []) a) x.from) ⊎ Memᴰ x es
        passed (inl m) keep other = inl (keep m)
        passed (inr (head same)) keep other =
            absurd (cc (other, (text_eq_iff e.from x.from).1 (ap (λ y. y.from) (sym same))))
        passed (inr (tail m)) keep other = inr m

out_edges-sort_edges :
    (a : Adjacency) (k : Text) → out_edges (sort_edges a) k ≡ sort_by (λ e. e.id) (out_edges a k)
unfolding sort_edges lookup sort_by
out_edges-sort_edges [] k = refl
out_edges-sort_edges ((from, es) ∷ rest) k = elim (Bool-cases (text_eq from k)) [
  | inl it ↦ ground (arith, it)
  | inr other ↦ ground (arith, other, out_edges-sort_edges rest k)
]

pub All-of {ℓ} : {A : Type ℓ} (P : A → Type 0) (l : List A) → ((x : A) → Memᴰ x l → P x) → All P l
All-of P [] h = tt
All-of P (a ∷ l) h = (h a (head refl), All-of P l (λ x m. h x (tail m)))

pub adjacency_of-IsOut : (edges : List TrustEdge) → IsOut edges (adjacency_of edges)
unfolding lookup
adjacency_of-IsOut edges k =
    subst (λ l. All (λ e. Memᴰ e edges × (e.from ≡ k)) l)
      (sym (out_edges-sort_edges (group_edges [] edges) k))
      (All-sort_by (λ e. e.id) (λ e. Memᴰ e edges × (e.from ≡ k))
        (out_edges (group_edges [] edges) k)
        (group_edges-IsOut edges [] edges (λ j. tt) (All-of (λ e. Memᴰ e edges) edges (λ e m. m))
          k))

pub adjacency_of-HasOut : (edges : List TrustEdge) → HasOut edges (adjacency_of edges)
adjacency_of-HasOut edges e m =
    subst (λ l. Memᴰ e l) (sym (out_edges-sort_edges (group_edges [] edges) e.from))
      (sort_by-Mem (λ e. e.id) (out_edges (group_edges [] edges) e.from)
        (group_edges-keeps [] edges e (inr m)))

-- The number of edges that leave a node.
abbrev pub count : Text → List TrustEdge → ℕ
count k [] = 0
count k (e ∷ es) = if text_eq e.from k then suc (count k es) else count k es

length-insert_sorted :
    (e : TrustEdge) (es : List TrustEdge)
    → length (insert_sorted (λ e. e.id) e es) ≡ suc (length es)
unfolding insert_sorted
length-insert_sorted e [] = refl
length-insert_sorted e (x ∷ xs) = ground (arith, length-insert_sorted e xs)

length-sort_by : (es : List TrustEdge) → length (sort_by (λ e. e.id) es) ≡ length es
unfolding sort_by
length-sort_by [] = refl
length-sort_by (e ∷ es) =
    length-insert_sorted e (sort_by (λ e. e.id) es) ∙ ap suc (length-sort_by es)

length-group_edges :
    (a : Adjacency) (es : List TrustEdge) (k : Text)
    → length (out_edges (group_edges a es) k) ≡ length (out_edges a k) + count k es
unfolding group_edges
length-group_edges a [] k = omega arith
length-group_edges a (e ∷ es) k =
    let grown = out_edges a e.from ++ e ∷ [] in
    length-group_edges (insert e.from grown a) es k ∙ elim (Bool-cases (text_eq e.from k)) [
      | inl it ↦
          let same = (text_eq_iff e.from k).0 it in
          rw (out_edges-insert e.from k grown a, it)
            (omega (
              arith,
              length-append (out_edges a e.from) (e ∷ []),
              ap (λ j. length (out_edges a j)) same,
            ))
      | inr other ↦ rw (out_edges-insert e.from k grown a, other) refl
    ]

pub length-out_edges :
    (edges : List TrustEdge) (k : Text) → length (out_edges (adjacency_of edges) k) ≡ count k edges
unfolding lookup
length-out_edges edges k =
    ap length (out_edges-sort_edges (group_edges [] edges) k)
    ∙ length-sort_by (out_edges (group_edges [] edges) k)
    ∙ length-group_edges [] edges k
    ∙ omega arith
