-- ===== src/Common/Orders.antt =====
-- Three-way comparisons: the -1, 0 and +1 of Go's compare functions, and their order laws.
use Prim.Native.Nat.{ℕ}
use mathlib.Core.Path.{◌≡◌, refl}
use mathlib.Core.Logic.{◌⊎◌, inl, inr}
use mathlib.Core.Bool.{Bool, true, false}
use mathlib.Core.List.{List, [], ◌∷◌}
use native.Mathlib.Omega.{arith}
use trust_map_prototype.Common.Tests.{if◌then◌else◌, ltb}

pub data Order : Type 0 where
  less same more : Order

abbrev pub is_less : Order → Bool
is_less less = true
is_less _ = false

abbrev pub is_same : Order → Bool
is_same same = true
is_same _ = false

abbrev pub flip : Order → Order
flip less = more
flip same = same
flip more = less

-- The first comparison that tells the two sides apart.
abbrev pub or_else : Order → Order → Order
or_else same o = o
or_else less o = less
or_else more o = more

abbrev pub compare_nat : ℕ → ℕ → Order
compare_nat a b = if ltb a b then less else if ltb b a then more else same

abbrev pub compare_lists {ℓ} : {A : Type ℓ} → (A → A → Order) → List A → List A → Order
compare_lists cmp [] [] = same
compare_lists cmp [] (b ∷ bs) = less
compare_lists cmp (a ∷ as') [] = more
compare_lists cmp (a ∷ as') (b ∷ bs) = or_else (cmp a b) (compare_lists cmp as' bs)

pub record IsOrder {ℓ} {A : Type ℓ} (cmp : A → A → Order) : Type ℓ where
  pub flips : (a b : A) → cmp b a ≡ flip (cmp a b)
  pub agrees : (a b : A) → cmp a b ≡ same → a ≡ b
  pub chains : (a b c : A) → cmp a b ≡ less → cmp b c ≡ less → cmp a c ≡ less

-- To split on a comparison and keep the equation.
pub Order-cases : (o : Order) → (o ≡ less) ⊎ (o ≡ same) ⊎ (o ≡ more)
Order-cases less = inl refl
Order-cases same = inr (inl refl)
Order-cases more = inr (inr refl)

pub compare_nat-IsOrder : IsOrder compare_nat
compare_nat-IsOrder = record {
  flips = λ a b. ground arith;
  agrees = λ a b h. ground arith;
  chains = λ a b c h k. ground arith;
}

module _ {ℓ} {A : Type ℓ} (cmp : A → A → Order) (o : IsOrder cmp) where
  flips-lists : (as' bs : List A) → compare_lists cmp bs as' ≡ flip (compare_lists cmp as' bs)
  flips-lists [] [] = refl
  flips-lists [] (b ∷ bs) = refl
  flips-lists (a ∷ as') [] = refl
  flips-lists (a ∷ as') (b ∷ bs) =
      rw (o.flips a b, flips-lists as' bs) (flip-or_else (cmp a b) (compare_lists cmp as' bs))
    where
      flip-or_else : (x y : Order) → or_else (flip x) (flip y) ≡ flip (or_else x y)
      flip-or_else less y = refl
      flip-or_else same y = refl
      flip-or_else more y = refl

  agrees-lists : (as' bs : List A) → compare_lists cmp as' bs ≡ same → as' ≡ bs
  agrees-lists [] [] h = refl
  agrees-lists [] (b ∷ bs) h = absurd (cc)
  agrees-lists (a ∷ as') [] h = absurd (cc)
  agrees-lists (a ∷ as') (b ∷ bs) h = elim (Order-cases (cmp a b)) [
    | inl e ↦ absurd (cc (rw e at h))
    | inr (inl e) ↦ cc (o.agrees a b e, agrees-lists as' bs (rw e at h))
    | inr (inr e) ↦ absurd (cc (rw e at h))
  ]

  chains-lists :
      (as' bs cs : List A)
      → compare_lists cmp as' bs ≡ less
      → compare_lists cmp bs cs ≡ less
      → compare_lists cmp as' cs ≡ less
  chains-lists [] [] cs h k = absurd (cc)
  chains-lists [] (b ∷ bs) [] h k = absurd (cc)
  chains-lists [] (b ∷ bs) (c ∷ cs) h k = refl
  chains-lists (a ∷ as') [] cs h k = absurd (cc)
  chains-lists (a ∷ as') (b ∷ bs) [] h k = absurd (cc)
  chains-lists (a ∷ as') (b ∷ bs) (c ∷ cs) h k = elim (Order-cases (cmp a b)) [
    | inl e ↦ elim (Order-cases (cmp b c)) [
      | inl f ↦ rw (o.chains a b c e f) refl
      | inr (inl f) ↦ rw (← o.agrees b c f, e) refl
      | inr (inr f) ↦ absurd (cc (rw f at k))
    ]
    | inr (inl e) ↦ elim (Order-cases (cmp b c)) [
      | inl f ↦ rw (o.agrees a b e, f) refl
      | inr (inl f) ↦ rw (o.agrees a b e, f) (chains-lists as' bs cs (rw e at h) (rw f at k))
      | inr (inr f) ↦ absurd (cc (rw f at k))
    ]
    | inr (inr e) ↦ absurd (cc (rw e at h))
  ]

  pub compare_lists-IsOrder : IsOrder (compare_lists cmp)
  compare_lists-IsOrder = record {
    flips = flips-lists;
    agrees = agrees-lists;
    chains = chains-lists;
  }
