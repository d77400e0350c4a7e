-- ===== src/Replay/Checkpoints.antt =====
-- CheckpointPolicy of Mapnode/replay/replay_checkpoint_policy.go: the period of the checkpoints of
-- each configured chain. The Go map that NewCheckpointPolicy ranges over is the list of its entries
-- in the order of the iteration.
use native.Mathlib.Nat.{mul-mod_left, div-mul-le_self, lt-div-mul-add}
use trust_map_prototype.Common.{
  ℕ, ◌+◌, ◌*◌, ◌/◌, ◌%◌, ◌≤◌, ◌<◌, ◌≡◌, ◌≢◌, sym, refl, ◌∙◌, Bool-cases, subst, not, ◌==◌, Option,
  none, some, List, [], ◌∷◌, length, Result, ok, ◌>>=◌, ◌>>◌, require, arith, inl, inr,
  Result-cases, All,
}
use trust_map_prototype.Common.Maps.{
  Map, lookup, insert, lookup-insert, is_some, IsUnique, insert-IsUnique,
}
use trust_map_prototype.Replay.Text.{
  Text, text_eq, text_eq_iff, canonical_chain, canonical_chain_twice, text_keyed,
}

pub data PolicyError : Type 0 where
  policy_chain_empty policy_period_zero policy_chain_duplicate : PolicyError

pub record CheckpointPolicy : Type 0 where
  pub periods : Map Text ℕ

-- The zero value.
abbrev pub no_checkpoints : CheckpointPolicy
no_checkpoints = record { periods = [] }

-- One round of the loop of NewCheckpointPolicy.
unfoldable pub add_period : Map Text ℕ → Text → ℕ → Result PolicyError (Map Text ℕ)
add_period canonical chain period = do
  let name = canonical_chain chain
  require (not (text_eq name [])) policy_chain_empty
  require (not (period == 0)) policy_period_zero
  require (not (is_some (lookup name canonical))) policy_chain_duplicate
  ok (insert name period canonical)

unfoldable pub add_periods : Map Text ℕ → List (Text × ℕ) → Result PolicyError (Map Text ℕ)
unfolding add_period
add_periods canonical [] = ok canonical
add_periods canonical ((chain, period) ∷ rest) = do
  canonical' ← add_period canonical chain period
  add_periods canonical' rest

unfoldable pub new_checkpoint_policy : List (Text × ℕ) → Result PolicyError CheckpointPolicy
unfolding add_periods
new_checkpoint_policy periods = do
  canonical ← add_periods [] periods
  ok (record { periods = canonical })

unfoldable pub period : CheckpointPolicy → Text → Option ℕ
period policy chain = lookup (canonical_chain chain) policy.periods

-- A period of a policy is not 0, so the division is defined; the product is at most the height.
unfoldable pub checkpoint_height : CheckpointPolicy → Text → ℕ → Option ℕ
checkpoint_height policy chain original_height =
    elim (lookup (canonical_chain chain) policy.periods) [
      | none ↦ none
      | some p ↦ some (original_height / p * p)
    ]

unfoldable pub configured_chain_count : CheckpointPolicy → ℕ
configured_chain_count policy = length policy.periods

-- Every period is positive, and the name of its chain is canonical and not empty.
pub record IsPolicy (periods : Map Text ℕ) : Type 0 where
  pub unique : IsUnique periods
  pub positive : (name : Text) (p : ℕ) → lookup name periods ≡ some p → 0 < p
  pub named : (name : Text) (p : ℕ) → lookup name periods ≡ some p → canonical_chain name ≡ name
  pub filled : (name : Text) (p : ℕ) → lookup name periods ≡ some p → name ≢ []

-- What AddPeriod does to a policy under construction.
record Adds (canonical : Map Text ℕ) (chain : Text) (p : ℕ) (canonical' : Map Text ℕ) : Type 0 where
  policy : IsPolicy canonical'
  added : lookup (canonical_chain chain) canonical' ≡ some p
  kept : (name : Text) (q : ℕ) → lookup name canonical ≡ some q → lookup name canonical' ≡ some q

name-filled :
    (canonical : Map Text ℕ) (chain : Text) (p : ℕ) {canonical' : Map Text ℕ}
    → add_period canonical chain p ≡ ok canonical'
    → canonical_chain chain ≢ []
unfolding add_period
name-filled canonical chain p run = ground (arith, text_eq_iff (canonical_chain chain) [])

add_period-Adds :
    (canonical : Map Text ℕ) (chain : Text) (p : ℕ) (canonical' : Map Text ℕ)
    → IsPolicy canonical
    → add_period canonical chain p ≡ ok canonical'
    → Adds canonical chain p canonical'
unfolding add_period
add_period-Adds canonical chain p canonical' h run =
    let name = canonical_chain chain in
    let same : insert name p canonical ≡ canonical' = ground arith in
    subst (Adds canonical chain p) same (record {
      policy = record {
        unique = insert-IsUnique name p canonical h.unique;
        positive = λ n q e. ground (arith, lookup-insert name n p canonical, h.positive n q);
        named = λ n q e. ground (
          arith,
          lookup-insert name n p canonical,
          h.named n q,
          canonical_chain_twice chain,
          text_eq_iff name n,
        );
        filled = λ n q e. elim (Bool-cases (text_eq name n)) [
          | inl it ↦
              subst (λ x. x ≢ []) ((text_eq_iff name n).0 it) (name-filled canonical chain p run)
          | inr other ↦ h.filled n q (sym (lookup-insert name n p canonical ∙ rw other refl) ∙ e)
        ];
      };
      added = ground (arith, lookup-insert name name p canonical, text_eq_iff name name);
      kept = λ n q e. ground (arith, lookup-insert name n p canonical, text_eq_iff name n);
    })

add_periods_lem :
    (entries : List (Text × ℕ)) (canonical canonical' : Map Text ℕ)
    → IsPolicy canonical
    → add_periods canonical entries ≡ ok canonical'
    → IsPolicy canonical'
      × ((name : Text) (q : ℕ) → lookup name canonical ≡ some q → lookup name canonical' ≡ some q)
      × All (λ e. lookup (canonical_chain e.0) canonical' ≡ some e.1) entries
unfolding add_periods
add_periods_lem [] canonical canonical' h run =
    let same : canonical ≡ canonical' = ground arith in (subst IsPolicy same h, λ name q e. cc, tt)
add_periods_lem ((chain, p) ∷ rest) canonical canonical' h run =
    elim (Result-cases (add_period canonical chain p)) [
      | inr (_, e) ↦ absurd (cc (rw (add_periods, e) at run))
      | inl (next, e) ↦
          let a = add_period-Adds canonical chain p next h e in
          let (policy, kept, all) =
            add_periods_lem rest next canonical' a.policy (rw (add_periods, e) at run) in
          (policy, λ name q old. kept name q (a.kept name q old), (kept _ p a.added, all))
    ]

empty-IsPolicy : IsPolicy []
unfolding lookup
empty-IsPolicy = record {
  unique = tt;
  positive = λ name p e. absurd (cc);
  named = λ name p e. absurd (cc);
  filled = λ name p e. absurd (cc);
}

-- If NewCheckpointPolicy accepts the entries of a map, its policy has exactly one period for each
-- of its chains, positive and under a canonical name that is not empty, and Period finds for the chain of each entry
-- the period of that entry.
pub new_checkpoint_policy-IsPolicy :
    (entries : List (Text × ℕ)) (policy : CheckpointPolicy)
    → new_checkpoint_policy entries ≡ ok policy
    → IsPolicy policy.periods × All (λ e. period policy e.0 ≡ some e.1) entries
unfolding new_checkpoint_policy period
new_checkpoint_policy-IsPolicy entries policy run = elim (Result-cases (add_periods [] entries)) [
  | inr (_, e) ↦ absurd (cc (rw (new_checkpoint_policy, e) at run))
  | inl (canonical, e) ↦
      let run' = rw (new_checkpoint_policy, e) at run in
      let same : canonical ≡ policy.periods = ground arith in
      let (made, _, all) = add_periods_lem entries [] canonical empty-IsPolicy e in
      subst (λ m. IsPolicy m × All (λ x. lookup (canonical_chain x.0) m ≡ some x.1) entries) same
        (made, all)
]

-- The checkpoint height of a configured chain is the last multiple of the chain's period that is
-- not above the height.
pub checkpoint_height_nearest :
    (policy : CheckpointPolicy) (chain : Text) (height p : ℕ)
    → IsPolicy policy.periods
    → period policy chain ≡ some p
    → (c : ℕ) × (checkpoint_height policy chain height ≡ some c)
      × (c % p ≡ 0)
      × (c ≤ height)
      × (height < c + p)
unfolding checkpoint_height period
checkpoint_height_nearest policy chain height p h e =
    let positive = h.positive (canonical_chain chain) p e in
    (
      height / p * p,
      ground (arith, e),
      mul-mod_left (height / p) p,
      div-mul-le_self height p,
      lt-div-mul-add {a = height} positive,
    )
