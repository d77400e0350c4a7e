-- ===== src/Live/Planner/Ranks.antt =====
-- compareCandidate of Mapnode/planner/planner.go as an order, and heap.Pop by it.
use mathlib.Core.List.{Memᴰ}
use mathlib.Core.List.Memᴰ.{head, tail, cases_cons}
use trust_map_prototype.Common.{
  suc, ◌≤◌, ◌≡◌, ◌≢◌, refl, sym, ap, subst, ◌∙◌, ◌⊎◌, inl, inr, true, false, List, [], ◌∷◌, ◌++◌,
  map, All, length, length-append, Bool-cases, arith,
}
use trust_map_prototype.Common.Orders.{
  Order, less, same, more, flip, or_else, is_less, compare_nat, compare_lists, IsOrder,
  compare_nat-IsOrder, compare_lists-IsOrder, Order-cases,
}
use trust_map_prototype.Replay.Text.{Text}
use trust_map_prototype.Live.View.{TrustEdge, compare_bytes}
use trust_map_prototype.Live.View.Sorting.{compare_bytes-IsOrder}
use trust_map_prototype.Live.Planner.Graph.{All-Mem, All-of}
use trust_map_prototype.Live.Planner.{Candidate, compare_candidate, pop_least, extended}

abbrev ids : Candidate → List Text
ids c = map (λ e. e.id) c.path

-- What the comparison reads, one after the other.
abbrev rank : Candidate → List Text
rank c = (c.cost ∷ []) ∷ (length c.path ∷ []) ∷ (ids c ++ c.node ∷ [])

or_else-same : (o : Order) → or_else o same ≡ o
or_else-same less = refl
or_else-same same = refl
or_else-same more = refl

or_else_assoc : (a b c : Order) → or_else (or_else a b) c ≡ or_else a (or_else b c)
or_else_assoc less b c = refl
or_else_assoc same b c = refl
or_else_assoc more b c = refl

compare_lists-last :
    (xs ys : List Text) (m n : Text)
    → length xs ≡ length ys
    → compare_lists compare_bytes (xs ++ m ∷ []) (ys ++ n ∷ [])
      ≡ or_else (compare_lists compare_bytes xs ys) (compare_bytes m n)
compare_lists-last [] [] m n e = or_else-same (compare_bytes m n)
compare_lists-last [] (y ∷ ys) m n e = absurd (omega arith)
compare_lists-last (x ∷ xs) [] m n e = absurd (omega arith)
compare_lists-last (x ∷ xs) (y ∷ ys) m n e =
    ap (or_else (compare_bytes x y)) (compare_lists-last xs ys m n (omega arith))
    ∙ sym
        (or_else_assoc (compare_bytes x y) (compare_lists compare_bytes xs ys) (compare_bytes m n))

length-ids : (path : List TrustEdge) → length (map (λ e. e.id) path) ≡ length path
length-ids [] = refl
length-ids (e ∷ es) = ap suc (length-ids es)

compare_candidate-rank :
    (l r : Candidate) → compare_candidate l r ≡ compare_lists compare_bytes (rank l) (rank r)
unfolding compare_candidate
compare_candidate-rank l r =
    let after = compare_lists compare_bytes (ids l ++ l.node ∷ []) (ids r ++ r.node ∷ []) in
    let lengths = compare_nat (length l.path) (length r.path) in
    let tie : or_else lengths
          (or_else (compare_lists compare_bytes (ids l) (ids r)) (compare_bytes l.node r.node))
        ≡ or_else (or_else lengths same) after =
      elim (Order-cases lengths) [
        | inl e ↦ rw e refl
        | inr (inl e) ↦
            let long : length (ids l) ≡ length (ids r) =
              length-ids l.path
              ∙ compare_nat-IsOrder.agrees (length l.path) (length r.path) e
              ∙ sym (length-ids r.path) in
            rw e (sym (compare_lists-last (ids l) (ids r) l.node r.node long))
        | inr (inr e) ↦ rw e refl
      ] in
    rw (or_else-same (compare_nat l.cost r.cost)) (ap (or_else (compare_nat l.cost r.cost)) tie)

ranks : IsOrder (compare_lists compare_bytes)
ranks = compare_lists-IsOrder compare_bytes compare_bytes-IsOrder

pub compare-flip : (a b : Candidate) → compare_candidate b a ≡ flip (compare_candidate a b)
compare-flip a b =
    rw (compare_candidate-rank a b, compare_candidate-rank b a) (ranks.flips (rank a) (rank b))

pub compare-chain :
    (a b c : Candidate)
    → compare_candidate a b ≡ less
    → compare_candidate b c ≡ less
    → compare_candidate a c ≡ less
compare-chain a b c h k =
    compare_candidate-rank a c
    ∙ ranks.chains (rank a) (rank b) (rank c) (sym (compare_candidate-rank a b) ∙ h)
        (sym (compare_candidate-rank b c) ∙ k)

rank-same : (a b : Candidate) → compare_candidate a b ≡ same → rank a ≡ rank b
rank-same a b h = ranks.agrees (rank a) (rank b) (sym (compare_candidate-rank a b) ∙ h)

-- Candidates that compare as the same compare with others alike.
pub compare-same :
    (a b c : Candidate)
    → compare_candidate a b ≡ same
    → compare_candidate a c ≡ compare_candidate b c
compare-same a b c h =
    compare_candidate-rank a c
    ∙ ap (λ r. compare_lists compare_bytes r (rank c)) (rank-same a b h)
    ∙ sym (compare_candidate-rank b c)

last_part : List Text → Text
last_part [] = []
last_part (x ∷ []) = x
last_part (x ∷ y ∷ ys) = last_part (y ∷ ys)

last_part-append : (xs : List Text) (n : Text) → last_part (xs ++ n ∷ []) ≡ n
unfolding last_part
last_part-append [] n = refl
last_part-append (x ∷ []) n = refl
last_part-append (x ∷ y ∷ ys) n = last_part-append (y ∷ ys) n

pub same-node : (a b : Candidate) → compare_candidate a b ≡ same → a.node ≡ b.node
unfolding last_part
same-node a b h =
    let whole : last_part (ids a ++ a.node ∷ []) ≡ last_part (ids b ++ b.node ∷ []) =
      ap (λ r. last_part (drop_two r)) (rank-same a b h) in
    sym (last_part-append (ids a) a.node) ∙ whole ∙ last_part-append (ids b) b.node
  where
    drop_two : List Text → List Text
    drop_two [] = []
    drop_two (x ∷ []) = []
    drop_two (x ∷ y ∷ ys) = ys

-- What is not below costs no less.
pub compare-cost : (a b : Candidate) → is_less (compare_candidate a b) ≡ false → b.cost ≤ a.cost
unfolding compare_candidate
compare-cost a b h = ground arith

-- A longer path is above.
pub extended-above : (c : Candidate) (e : TrustEdge) → compare_candidate c (extended c e) ≡ less
unfolding compare_candidate
extended-above c e = ground (arith, length-append c.path (e ∷ []))

pub not_less :
    (a b : Candidate) → compare_candidate a b ≡ less → is_less (compare_candidate b a) ≡ false
not_less a b h = rw (compare-flip a b, h) refl

-- No two items compare as the same.
abbrev pub IsApart : List Candidate → Type 0
IsApart [] = Unit
IsApart (c ∷ cs) = All (λ d. compare_candidate c d ≢ same) cs × IsApart cs

-- A least item of the queue, and the others.
pub record IsPopped (queue : List Candidate) (item : Candidate) (others : List Candidate)
    : Type 1 where
  pub shorter : suc (length others) ≡ length queue
  pub all : (P : Candidate → Type 0) → All P queue → P item × All P others
  pub least : All (λ c. compare_candidate item c ≡ less) others
  pub apart : IsApart others
  pub covers : (c : Candidate) → Memᴰ c queue → (c ≡ item) ⊎ Memᴰ c others

pub apart-flip : (a b : Candidate) → compare_candidate a b ≢ same → compare_candidate b a ≢ same
apart-flip a b h e = absurd (h (compare-flip b a ∙ ap flip e))

-- Of two items that are apart, one that is not above is below.
pub apart-below :
    (a b : Candidate)
    → compare_candidate a b ≢ same
    → is_less (compare_candidate b a) ≡ false
    → compare_candidate a b ≡ less
apart-below a b differ h = elim (Order-cases (compare_candidate b a)) [
  | inl e ↦ absurd (cc (rw e at h))
  | inr (inl e) ↦ absurd (differ (compare-flip b a ∙ ap flip e))
  | inr (inr e) ↦ compare-flip b a ∙ ap flip e
]

pub is_less-less : (o : Order) → is_less o ≡ true → o ≡ less
is_less-less less h = refl
is_less-less same h = absurd (cc)
is_less-less more h = absurd (cc)

pub pop_least-IsPopped :
    (c : Candidate) (cs : List Candidate)
    → IsApart (c ∷ cs)
    → let (item, others) = pop_least c cs in IsPopped (c ∷ cs) item others
unfolding pop_least
pop_least-IsPopped c [] a = record {
  shorter = refl;
  all = λ P h. (h.0, tt);
  least = tt;
  apart = tt;
  covers = λ x m. elim (cases_cons m) [ inl e ↦ inl e | inr m' ↦ inr m' ];
}
pop_least-IsPopped c (d ∷ ds) a =
    let (item, others) = pop_least d ds in
    let p = pop_least-IsPopped d ds a.1 in
    let (from_item, from_others) = p.all (λ x. compare_candidate c x ≢ same) a.0 in
    elim (Bool-cases (is_less (compare_candidate item c))) [
      | inl lower ↦
          rw (pop_least, lower)
            (record {
              shorter = omega (arith, p.shorter);
              all = λ P h. let (x, xs) = p.all P h.1 in (x, (h.0, xs));
              least = (is_less-less (compare_candidate item c) lower, p.least);
              apart = (from_others, p.apart);
              covers = λ x m. covered x m (p.covers x);
            })
      | inr higher ↦
          let first = apart-below c item from_item higher in
          rw (pop_least, higher)
            (record {
              shorter = refl;
              all = λ P h. (h.0, h.1);
              least = spread first p;
              apart = a.1;
              covers = λ x m. cases_cons m;
            })
    ]
  where
    covered :
        {item : Candidate} {others : List Candidate} (x : Candidate)
        → Memᴰ x (c ∷ d ∷ ds)
        → (Memᴰ x (d ∷ ds) → (x ≡ item) ⊎ Memᴰ x others)
        → (x ≡ item) ⊎ Memᴰ x (c ∷ others)
    covered x (head e) go = inr (head e)
    covered x (tail m) go = elim (go m) [ inl e ↦ inl e | inr m' ↦ inr (tail m') ]

    spread :
        {item : Candidate} {others : List Candidate}
        → compare_candidate c item ≡ less
        → IsPopped (d ∷ ds) item others
        → All (λ x. compare_candidate c x ≡ less) (d ∷ ds)
    spread {item} {others} first p =
        All-of (λ x. compare_candidate c x ≡ less) (d ∷ ds)
          (λ x m. elim (p.covers x m) [
            | inl e ↦ subst (λ y. compare_candidate c y ≡ less) (sym e) first
            | inr m' ↦
                compare-chain c item x first
                  (All-Mem (λ x. compare_candidate item x ≡ less) others p.least m')
          ])
