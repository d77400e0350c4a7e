-- ===== src/Common/Entries.antt =====
-- The entries of a Go map: what holds of all of them, and the list of their values.
use mathlib.Core.List.{Memᴰ}
use mathlib.Core.List.Memᴰ.{head, tail}
use mathlib.Core.Path.{◌≡◌, refl, sym, ◌∙◌, subst}
use mathlib.Core.Logic.{inl, inr}
use mathlib.Core.Option.{none, some}
use mathlib.Core.List.{List, [], ◌∷◌, map}
use trust_map_prototype.Common.Tests.{Bool-cases}
use trust_map_prototype.Common.Lists.{All, All-imp}
use trust_map_prototype.Common.Maps.{Keyed, Map, lookup, insert, lookup-insert}

module _ {ℓ κ} {K : Type ℓ} {V : Type κ} ⦃keyed : Keyed K⦄ where
  open keyed use {same, same_iff}

  -- The values, in the order of the iteration.
  abbrev pub values : Map K V → List V
  values m = map (λ e. e.1) m

  pub All-insert {μ} :
      (P : K × V → Type μ) (k : K) (v : V) (m : Map K V) → P (k, v) → All P m → All P (insert k v m)
  unfolding insert
  All-insert P k v [] p h = (p, tt)
  All-insert P k v ((j, w) ∷ m) p h = elim (Bool-cases (same j k)) [
    | inl it ↦ rw (insert, it) (subst (λ x. P (x, v)) (sym ((same_iff j k).0 it)) p, h.1)
    | inr other ↦ rw (insert, other) (h.0, All-insert P k v m p h.1)
  ]

  pub All-lookup {μ} :
      (P : K × V → Type μ) (k : K) {v : V} (m : Map K V) → All P m → lookup k m ≡ some v → P (k, v)
  unfolding lookup
  All-lookup P k [] h at = absurd (cc)
  All-lookup P k {v} ((j, w) ∷ m) h at = elim (Bool-cases (same j k)) [
    | inl it ↦
        let key : j ≡ k = (same_iff j k).0 it in
        let value : w ≡ v = cc (rw (lookup, it) at at) in
        subst (λ x. P (k, x)) value (subst (λ x. P (x, w)) key h.0)
    | inr other ↦ All-lookup P k m h.1 (rw (lookup, other) at at)
  ]

  pub lookup-Mem : (k : K) {v : V} (m : Map K V) → lookup k m ≡ some v → Memᴰ v (values m)
  unfolding lookup
  lookup-Mem k [] at = absurd (cc)
  lookup-Mem k {v} ((j, w) ∷ m) at = elim (Bool-cases (same j k)) [
    | inl it ↦ let value : v ≡ w = cc (rw (lookup, it) at at) in head value
    | inr other ↦ tail (lookup-Mem k m (rw (lookup, other) at at))
  ]

  pub All-values {μ} : (P : V → Type μ) (m : Map K V) → All (λ e. P e.1) m → All P (values m)
  All-values P [] h = tt
  All-values P (e ∷ m) h = (h.0, All-values P m h.1)

  -- Every element is the entry of its key.
  abbrev pub IsCovered : (V → K) → Map K V → List V → Type κ
  IsCovered key m vs = All (λ v. lookup (key v) m ≡ some v) vs

  pub insert-IsCovered :
      (key : V → K) (m : Map K V) (v : V) (vs : List V)
      → lookup (key v) m ≡ none
      → IsCovered key m vs
      → IsCovered key (insert (key v) v m) (v ∷ vs)
  insert-IsCovered key m v vs new h = (
    lookup-insert (key v) (key v) v m ∙ rw ((same_iff (key v) (key v)).1 refl) refl,
    All-imp {P = λ w. lookup (key w) m ≡ some w} vs
        (λ w at. elim (Bool-cases (same (key v) (key w))) [
          | inl it ↦
              let e : key v ≡ key w = (same_iff (key v) (key w)).0 it in
              let gone : lookup (key w) m ≡ none = subst (λ k. lookup k m ≡ none) e new in
              absurd (cc (gone, at))
          | inr other ↦ lookup-insert (key v) (key w) v m ∙ rw other at
        ])
        h,
  )

  pub covered-Mem :
      (key : V → K) (m : Map K V) {v : V} (vs : List V)
      → IsCovered key m vs
      → Memᴰ v vs
      → Memᴰ v (values m)
  covered-Mem key m [] h mem = elim mem [ ]
  covered-Mem key m {v} (w ∷ ws) h (head e) =
      lookup-Mem (key v) m (subst (λ x. lookup (key x) m ≡ some x) (sym e) h.0)
  covered-Mem key m (w ∷ ws) h (tail mem) = covered-Mem key m ws h.1 mem
