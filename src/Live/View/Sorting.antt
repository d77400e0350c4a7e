-- ===== src/Live/View/Sorting.antt =====
-- sort.Slice of Go's library as Mapnode/trustview and Mapnode/planner use it: by distinct byte strings.
use mathlib.Core.List.{Memᴰ}
use mathlib.Core.List.Memᴰ.{head, tail}
use trust_map_prototype.Common.{
  ◌≡◌, ◌≢◌, sym, ap, ◌∙◌, inl, inr, true, false, List, [], ◌∷◌, All, All-imp, Bool-cases,
}
use trust_map_prototype.Common.Orders.{
  less, flip, is_less, compare_nat, compare_nat-IsOrder, IsOrder, compare_lists-IsOrder,
  Order-cases,
}
use trust_map_prototype.Replay.Text.{Text}
use trust_map_prototype.Live.View.{compare_bytes, insert_sorted, sort_by}

pub compare_bytes-IsOrder : IsOrder compare_bytes
compare_bytes-IsOrder = compare_lists-IsOrder compare_nat compare_nat-IsOrder

module _ {ℓ} {A : Type ℓ} (key : A → Text) where
  -- Every key is strictly below the later ones.
  abbrev pub IsAscending : List A → Type 0
  IsAscending [] = Unit
  IsAscending (a ∷ as') = All (λ b. compare_bytes (key a) (key b) ≡ less) as' × IsAscending as'

  -- No two elements have one key.
  abbrev pub IsDistinct : List A → Type 0
  IsDistinct [] = Unit
  IsDistinct (a ∷ as') = All (λ b. key a ≢ key b) as' × IsDistinct as'

  pub insert_sorted-Mem :
      {x : A} (a : A) (l : List A) → Memᴰ x (a ∷ l) → Memᴰ x (insert_sorted key a l)
  unfolding insert_sorted
  insert_sorted-Mem a [] h = h
  insert_sorted-Mem {x} a (b ∷ bs) h = elim (Bool-cases (is_less (compare_bytes (key b) (key a)))) [
    | inr stop ↦ rw (insert_sorted, stop) h
    | inl on ↦ rw (insert_sorted, on) (pass (λ m. insert_sorted-Mem a bs m) h)
  ]
    where
      pass :
          (Memᴰ x (a ∷ bs) → Memᴰ x (insert_sorted key a bs))
          → Memᴰ x (a ∷ b ∷ bs)
          → Memᴰ x (b ∷ insert_sorted key a bs)
      pass go (head e) = tail (go (head e))
      pass go (tail (head e)) = head e
      pass go (tail (tail m)) = tail (go (tail m))

  pub sort_by-Mem : {x : A} (l : List A) → Memᴰ x l → Memᴰ x (sort_by key l)
  unfolding sort_by
  sort_by-Mem [] m = elim m [ ]
  sort_by-Mem (a ∷ l) (head e) = insert_sorted-Mem a (sort_by key l) (head e)
  sort_by-Mem (a ∷ l) (tail m) = insert_sorted-Mem a (sort_by key l) (tail (sort_by-Mem l m))

  pub All-insert_sorted {κ} :
      (P : A → Type κ) (a : A) (l : List A) → P a → All P l → All P (insert_sorted key a l)
  unfolding insert_sorted
  All-insert_sorted P a [] p h = (p, tt)
  All-insert_sorted P a (b ∷ bs) p h = elim (Bool-cases (is_less (compare_bytes (key b) (key a)))) [
    | inr stop ↦ rw (insert_sorted, stop) (p, h)
    | inl on ↦ rw (insert_sorted, on) (h.0, All-insert_sorted P a bs p h.1)
  ]

  pub All-sort_by {κ} : (P : A → Type κ) (l : List A) → All P l → All P (sort_by key l)
  unfolding sort_by
  All-sort_by P [] h = tt
  All-sort_by P (a ∷ l) h = All-insert_sorted P a (sort_by key l) h.0 (All-sort_by P l h.1)

  -- Of two different keys the one that is not above is below.
  below :
      (a b : A)
      → key a ≢ key b
      → is_less (compare_bytes (key b) (key a)) ≡ false
      → compare_bytes (key a) (key b) ≡ less
  below a b differ h = elim (Order-cases (compare_bytes (key b) (key a))) [
    | inl e ↦ absurd (cc (rw e at h))
    | inr (inl e) ↦ absurd (differ (sym (compare_bytes-IsOrder.agrees (key b) (key a) e)))
    | inr (inr e) ↦ compare_bytes-IsOrder.flips (key b) (key a) ∙ ap flip e
  ]

  above :
      (a b : A)
      → is_less (compare_bytes (key b) (key a)) ≡ true
      → compare_bytes (key b) (key a) ≡ less
  above a b h = elim (Order-cases (compare_bytes (key b) (key a))) [
    | inl e ↦ e
    | inr (inl e) ↦ absurd (cc (rw e at h))
    | inr (inr e) ↦ absurd (cc (rw e at h))
  ]

  insert_sorted-IsAscending :
      (a : A) (l : List A)
      → All (λ b. key a ≢ key b) l
      → IsAscending l
      → IsAscending (insert_sorted key a l)
  unfolding insert_sorted
  insert_sorted-IsAscending a [] d h = (tt, tt)
  insert_sorted-IsAscending a (b ∷ bs) d h =
      elim (Bool-cases (is_less (compare_bytes (key b) (key a)))) [
        | inr stop ↦
            let first = below a b d.0 stop in
            rw (insert_sorted, stop)
              (
                (
                  first,
                  All-imp bs
                      (λ c later. compare_bytes-IsOrder.chains (key a) (key b) (key c) first later)
                      h.0,
                ),
                h,
              )
        | inl on ↦
            rw (insert_sorted, on)
              (
                All-insert_sorted (λ c. compare_bytes (key b) (key c) ≡ less) a bs (above a b on)
                    h.0,
                insert_sorted-IsAscending a bs d.1 h.1,
              )
      ]

  pub sort_by-IsAscending : (l : List A) → IsDistinct l → IsAscending (sort_by key l)
  unfolding sort_by
  sort_by-IsAscending [] d = tt
  sort_by-IsAscending (a ∷ l) d =
      insert_sorted-IsAscending a (sort_by key l) (All-sort_by (λ b. key a ≢ key b) l d.0)
        (sort_by-IsAscending l d.1)
