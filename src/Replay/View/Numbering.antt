-- ===== src/Replay/View/Numbering.antt =====
-- The nodes of ReplayTrustView (Mapnode/replay/replay_trust_view.go): the height indexes of the
-- chains, the node numbers and the list of the numbered keys speak of the same blocks.
use trust_map_prototype.Common.{
  ℕ, zero, suc, ◌≤◌, ◌≡◌, refl, ap, sym, subst, ◌∙◌, Bool, ◌==◌, ◌||◌, none, some, List, [], ◌∷◌,
  ◌++◌, All, length, get_elem?, arith, if◌then◌else◌, Bool-cases, Option-cases, inl, inr,
}
use trust_map_prototype.Common.Maps.{Map, lookup, insert, lookup-insert, is_some}
use trust_map_prototype.Replay.Text.{text_keyed, Text, text_eq, text_eq_iff}
use trust_map_prototype.Replay.Cost.{max_uint64}
use trust_map_prototype.Replay.Heights.{Treap, nil, contains, neighbours}
use trust_map_prototype.Replay.Heights
use trust_map_prototype.Replay.Heights.Keys.{has_key, insert_key}
use trust_map_prototype.Replay.Heights.Order.{keys, IsOrdered, contains-has_key, keys-insert}
use trust_map_prototype.Replay.Heights.Priority.{IsHeap, insert-IsHeap}
use trust_map_prototype.Replay.View.{
  BlockKey, same_key, same_key_iff, key_keyed, ReplayTrustView, add_node, open_index,
}
use trust_map_prototype.Replay.View.Placement.{IsIndex}

abbrev pub index_in : Map Text Treap → Text → Treap
index_in heights chain = elim (lookup chain heights) [ none ↦ nil | some index ↦ index ]

-- The block's height is in the index of its chain.
abbrev pub is_active : Map Text Treap → BlockKey → Bool
is_active heights key = contains (index_in heights key.chain) key.height

-- What `IsSound` says of the parts of a view that activation of a node changes.
pub record IsNumbered (heights : Map Text Treap) (node_ids : Map BlockKey ℕ)
    (node_keys : List BlockKey) : Type 0 where
  pub indexed : (chain : Text) → IsIndex (index_in heights chain)
  pub heaped : (chain : Text) → IsHeap (index_in heights chain)
  pub numbered :
      (key : BlockKey) (i : ℕ) → lookup key node_ids ≡ some i → get_elem? node_keys i ≡ some key
  pub registered : (key : BlockKey) → is_some (lookup key node_ids) ≡ is_active heights key

pub index_in-insert :
    (heights : Map Text Treap) (chain c : Text) (index : Treap)
    → index_in (insert chain index heights) c
      ≡ (if text_eq chain c then index else index_in heights c)
index_in-insert heights chain c index = ground (arith, lookup-insert chain c index heights)

-- What holds of every index and of the one stored holds of every index afterwards.
index_in-insert_keeps {ℓ} :
    (P : Treap → Type ℓ) (heights : Map Text Treap) (chain : Text) (index : Treap)
    → P index
    → ((c : Text) → P (index_in heights c))
    → (c : Text) → P (index_in (insert chain index heights) c)
index_in-insert_keeps P heights chain index p all c =
    let e = index_in-insert heights chain c index in
    elim (Bool-cases (text_eq chain c)) [
      | inl yes_ ↦ subst P (sym (e ∙ ap (λ b. if b then index else index_in heights c) yes_)) p
      | inr no_ ↦ subst P (sym (e ∙ ap (λ b. if b then index else index_in heights c) no_)) (all c)
    ]

has_key-insert_key :
    (h x : ℕ) (xs : List ℕ) → has_key x (insert_key h xs) ≡ (x == h || has_key x xs)
unfolding has_key insert_key
has_key-insert_key h x [] = ground arith
has_key-insert_key h x (y ∷ ys) = ground (arith, has_key-insert_key h x ys)

pub contains-insert :
    (index : Treap) (h x : ℕ)
    → IsOrdered index
    → contains (Heights.insert index h) x ≡ (x == h || contains index x)
contains-insert index h x o =
    let (e, o') = keys-insert index h o in
    contains-has_key (Heights.insert index h) x o'
    ∙ ap (has_key x) e
    ∙ has_key-insert_key h x (keys index)
    ∙ ap (λ b. x == h || b) (sym (contains-has_key index x o))

All-insert_key : (P : ℕ → Type 0) (h : ℕ) (xs : List ℕ) → P h → All P xs → All P (insert_key h xs)
unfolding insert_key
All-insert_key P h [] p a = (p, tt)
All-insert_key P h (x ∷ xs) p a = ground (arith, All-insert_key P h xs p a.1)

insert-IsIndex :
    (index : Treap) (h : ℕ) → h ≤ max_uint64 → IsIndex index → IsIndex (Heights.insert index h)
insert-IsIndex index h b i =
    let (e, o') = keys-insert index h i.ordered in
    record {
      ordered = o';
      bounded =
          subst (All (λ k. k ≤ max_uint64)) (sym e)
            (All-insert_key (λ k. k ≤ max_uint64) h (keys index) b i.bounded);
    }

module _ {ℓ} {A : Type ℓ} where
  get_elem?-append :
      (xs ys : List A) (i : ℕ) {x : A} → get_elem? xs i ≡ some x → get_elem? (xs ++ ys) i ≡ some x
  get_elem?-append [] ys i e = cc
  get_elem?-append (y ∷ xs) ys zero e = e
  get_elem?-append (y ∷ xs) ys (suc i) e = get_elem?-append xs ys i e

  get_elem?-last : (xs : List A) (x : A) → get_elem? (xs ++ x ∷ []) (length xs) ≡ some x
  get_elem?-last [] x = refl
  get_elem?-last (y ∷ xs) x = get_elem?-last xs x

pub add_node-IsNumbered :
    (view : ReplayTrustView) (key : BlockKey)
    → key.height ≤ max_uint64
    → IsNumbered view.heights view.node_ids view.node_keys
    → let w = add_node view key (index_in view.heights key.chain) in
      IsNumbered w.heights w.node_ids w.node_keys
unfolding add_node same_key
add_node-IsNumbered view key b n =
    let index = index_in view.heights key.chain in
    let grown = Heights.insert index key.height in
    let at = λ (c : Text). index_in-insert view.heights key.chain c grown in
    record {
      indexed =
          index_in-insert_keeps IsIndex view.heights key.chain grown
            (insert-IsIndex index key.height b (n.indexed key.chain)) n.indexed;
      heaped =
          index_in-insert_keeps IsHeap view.heights key.chain grown
            (insert-IsHeap index key.height (n.heaped key.chain)) n.heaped;
      numbered = λ k i e.
          let found = lookup-insert key k (length view.node_keys) view.node_ids in
          elim (Bool-cases (same_key key k)) [
            | inl it ↦ ground (arith, found, same_key_iff key k, get_elem?-last view.node_keys key)
            | inr other ↦
                get_elem?-append view.node_keys (key ∷ []) i
                  (n.numbered k i (ground (arith, found)))
          ];
      registered = λ k. ground (
        arith,
        at k.chain,
        lookup-insert key k (length view.node_keys) view.node_ids,
        text_eq_iff key.chain k.chain,
        contains-insert index key.height k.height (n.indexed key.chain).ordered,
        n.registered k,
      );
    }

index_in-insert_nil :
    (heights : Map Text Treap) (chain c : Text)
    → lookup chain heights ≡ none
    → index_in (insert chain nil heights) c ≡ index_in heights c
index_in-insert_nil heights chain c e =
    ground (arith, index_in-insert heights chain c nil, text_eq_iff chain c)

pub open_index-IsNumbered :
    (view : ReplayTrustView) (chain : Text)
    → IsNumbered view.heights view.node_ids view.node_keys
    → let w = (open_index view chain).0 in
      (IsNumbered w.heights w.node_ids w.node_keys)
      × ((c : Text) → index_in w.heights c ≡ index_in view.heights c)
      × (w.adjacency ≡ view.adjacency)
unfolding open_index
open_index-IsNumbered view chain n = elim (Option-cases (lookup chain view.heights)) [
  | inr (index, e) ↦ rw (e, open_index) (n, λ key. refl, refl)
  | inl e ↦
      let at = λ (c : Text). index_in-insert_nil view.heights chain c e in
      rw (e, open_index)
        (
          record {
            indexed = λ c. subst IsIndex (sym (at c)) (n.indexed c);
            heaped = λ c. subst IsHeap (sym (at c)) (n.heaped c);
            numbered = n.numbered;
            registered = λ k. n.registered k ∙ ap (λ t. contains t k.height) (sym (at k.chain));
          },
          at,
          refl,
        )
]
