-- ===== src/Replay/View/Splice.antt =====
-- The edges around a block that activateLocked adds (Mapnode/replay/replay_trust_view.go): it is
-- spliced in between its neighbours on the chain.
use trust_map_prototype.Common.{
  ℕ, ◌+◌, ◌-◌, ◌*◌, ◌≤◌, ◌<◌, ◌≡◌, ◌≢◌, refl, Bool, true, false, ◌||◌, Option, none, some, List, [],
  ◌∷◌, ◌++◌, if◌then◌else◌, ok, arith, Result-cases, inl, inr,
}
use trust_map_prototype.Replay.Text.{text_keyed, Text, text_eq_iff}
use trust_map_prototype.Replay.Cost.{CostProfile, checked_cost, checked_cost-ok, max_uint64, u64}
use trust_map_prototype.Replay.View.{
  BlockKey, same_key, same_key_iff, key_keyed, ReplayEdge, intra_chain_up, intra_chain_down,
  ReplayTrustView, PendingEdge, pair_edges, lower_edges, upper_edges, pending_edges, split_edges,
}
use trust_map_prototype.Replay.View.Edges.{
  Adjacency, edge_at, IsConsistent, same_pair, edge_at-delete_edge_locked,
  delete_edge_locked-IsConsistent, last_set,
}

abbrev pub at_height : Text → ℕ → BlockKey
at_height chain height = record { chain = chain; height = height }

-- The edges between two heights of a chain, by the step costs of the profile.
abbrev pub up_edge : CostProfile → ℕ → ℕ → ReplayEdge
up_edge profile lower higher = record {
  kind = intra_chain_up;
  weight = (higher - lower) * profile.direct_step_cost;
}

abbrev pub down_edge : CostProfile → ℕ → ℕ → ReplayEdge
down_edge profile lower higher = record {
  kind = intra_chain_down;
  weight = (higher - lower) * profile.path_step_cost;
}

abbrev pub pair_of : CostProfile → Text → ℕ → ℕ → List PendingEdge
pair_of profile chain lower higher =
    record {
      from = at_height chain lower;
      to = at_height chain higher;
      edge = up_edge profile lower higher;
    }
    ∷ record {
      from = at_height chain higher;
      to = at_height chain lower;
      edge = down_edge profile lower higher;
    }
    ∷ []

pair_edges-ok :
    (profile : CostProfile) (chain : Text) (lower higher : ℕ) {edges : List PendingEdge}
    → lower ≤ higher
    → higher ≤ max_uint64
    → pair_edges profile chain lower higher ≡ ok edges
    → edges ≡ pair_of profile chain lower higher
unfolding pair_edges
pair_edges-ok profile chain lower higher ordered bounded h =
    let delta : u64 (higher + max_uint64 + 1 - lower) ≡ higher - lower = omega arith in
    elim (Result-cases (checked_cost (higher - lower) profile.direct_step_cost)) [
      | inr (_, e) ↦ absurd (ground (arith, delta))
      | inl (up, e) ↦ elim (Result-cases (checked_cost (higher - lower) profile.path_step_cost)) [
        | inr (_, e') ↦ absurd (ground (arith, delta))
        | inl (down, e') ↦ ground (
          arith,
          delta,
          checked_cost-ok (higher - lower) profile.direct_step_cost e,
          checked_cost-ok (higher - lower) profile.path_step_cost e',
        )
      ]
    ]

-- The pairs between the two neighbours, which a new block parts.
abbrev pub is_cut : Text → Option ℕ → Option ℕ → BlockKey → BlockKey → Bool
is_cut chain (some p) (some s) f t =
    same_pair (at_height chain p) (at_height chain s) f t
    || same_pair (at_height chain s) (at_height chain p) f t
is_cut chain _ _ f t = false

pub edge_at-split_edges :
    (view : ReplayTrustView) (chain : Text) (p s : Option ℕ) (f t : BlockKey)
    → IsConsistent view
    → edge_at (split_edges view chain p s).adjacency f t
      ≡ (if is_cut chain p s f t then none else edge_at view.adjacency f t)
unfolding split_edges
edge_at-split_edges view chain (some p) (some s) f t h =
    let low = at_height chain p in
    let high = at_height chain s in
    ground (
      arith,
      edge_at-delete_edge_locked view low high f t h,
      edge_at-delete_edge_locked _ high low f t (delete_edge_locked-IsConsistent view low high h),
    )
edge_at-split_edges view chain (some p) none f t h = refl
edge_at-split_edges view chain none s f t h = refl

abbrev pub lower_pair : CostProfile → BlockKey → Option ℕ → List PendingEdge
lower_pair profile key none = []
lower_pair profile key (some p) = pair_of profile key.chain p key.height

abbrev pub upper_pair : CostProfile → BlockKey → Option ℕ → List PendingEdge
upper_pair profile key none = []
upper_pair profile key (some s) = pair_of profile key.chain key.height s

-- The neighbours stand on their sides of the height, and all are uint64 values.
abbrev pub Surround : ℕ → Option ℕ → Option ℕ → Type 0
Surround height none none = height ≤ max_uint64
Surround height (some p) none = (p < height) × (height ≤ max_uint64)
Surround height none (some s) = (height < s) × (s ≤ max_uint64)
Surround height (some p) (some s) = (p < height) × (height < s) × (s ≤ max_uint64)

pub pending_edges-ok :
    (profile : CostProfile) (key : BlockKey) (p s : Option ℕ) {edges : List PendingEdge}
    → Surround key.height p s
    → pending_edges profile key p s ≡ ok edges
    → edges ≡ lower_pair profile key p ++ upper_pair profile key s
unfolding pending_edges lower_edges upper_edges
pending_edges-ok profile key none none h e = ground arith
pending_edges-ok profile key (some p) none h e =
    elim (Result-cases (pair_edges profile key.chain p key.height)) [
      | inr (_, bad) ↦ absurd (ground arith)
      | inl (low, good) ↦ ground (
        arith,
        pair_edges-ok profile key.chain p key.height {edges = low} (omega arith) (omega arith) good,
      )
    ]
pending_edges-ok profile key none (some s) h e =
    elim (Result-cases (pair_edges profile key.chain key.height s)) [
      | inr (_, bad) ↦ absurd (ground arith)
      | inl (high, good) ↦ ground (
        arith,
        pair_edges-ok profile key.chain key.height s {edges = high} (omega arith) (omega arith)
            good,
      )
    ]
pending_edges-ok profile key (some p) (some s) h e =
    elim (Result-cases (pair_edges profile key.chain p key.height)) [
      | inr (_, bad) ↦ absurd (ground arith)
      | inl (low, good) ↦ elim (Result-cases (pair_edges profile key.chain key.height s)) [
        | inr (_, bad) ↦ absurd (ground arith)
        | inl (high, good') ↦ ground (
          arith,
          pair_edges-ok profile key.chain p key.height {edges = low} (omega arith) (omega arith)
              good,
          pair_edges-ok profile key.chain key.height s {edges = high} (omega arith) (omega arith)
              good',
        )
      ]
    ]

abbrev pub JoinsLower : CostProfile → BlockKey → Option ℕ → Adjacency → Type 0
JoinsLower profile key none a = Unit
JoinsLower profile key (some p) a =
    (edge_at a (at_height key.chain p) key ≡ some (up_edge profile p key.height))
    × (edge_at a key (at_height key.chain p) ≡ some (down_edge profile p key.height))

abbrev pub JoinsUpper : CostProfile → BlockKey → Option ℕ → Adjacency → Type 0
JoinsUpper profile key none a = Unit
JoinsUpper profile key (some s) a =
    (edge_at a key (at_height key.chain s) ≡ some (up_edge profile key.height s))
    × (edge_at a (at_height key.chain s) key ≡ some (down_edge profile key.height s))

-- The new edges lead both ways between the key and each of its neighbours, none is left between
-- the neighbours, and every other pair of nodes apart from the key has the edge that it had.
pub record IsSpliced (profile : CostProfile) (key : BlockKey) (p s : Option ℕ) (old new : Adjacency)
    : Type 0 where
  pub lower : JoinsLower profile key p new
  pub upper : JoinsUpper profile key s new
  pub parted : (f t : BlockKey) → is_cut key.chain p s f t ≡ true → edge_at new f t ≡ none
  pub others :
      (f t : BlockKey)
      → f ≢ key
      → t ≢ key
      → is_cut key.chain p s f t ≡ false
      → edge_at new f t ≡ edge_at old f t

-- Reading the edges that were set last, over `base`.
abbrev pub Reads : CostProfile → BlockKey → Option ℕ → Option ℕ → Adjacency → Adjacency → Type 0
Reads profile key p s old new =
    (f t : BlockKey)
    → edge_at new f t
      ≡ last_set (lower_pair profile key p ++ upper_pair profile key s) f t
          (if is_cut key.chain p s f t then none else edge_at old f t)

pub Reads-IsSpliced :
    (profile : CostProfile) (key : BlockKey) (p s : Option ℕ) (old new : Adjacency)
    → Surround key.height p s
    → Reads profile key p s old new
    → IsSpliced profile key p s old new
unfolding same_key
Reads-IsSpliced profile key none none old new h r = record {
  lower = tt;
  upper = tt;
  parted = λ f t e. ground (arith, r f t);
  others = λ f t nf nt e. ground (arith, r f t);
}
Reads-IsSpliced profile key (some p) none old new h r =
    let refl_chain = (text_eq_iff key.chain key.chain).1 refl in
    record {
      lower = (
        ground (arith, refl_chain, r (at_height key.chain p) key),
        ground (arith, refl_chain, r key (at_height key.chain p)),
      );
      upper = tt;
      parted = λ f t e. ground (arith, r f t);
      others = λ f t nf nt e. ground (arith, r f t, same_key_iff key f, same_key_iff key t);
    }
Reads-IsSpliced profile key none (some s) old new h r =
    let refl_chain = (text_eq_iff key.chain key.chain).1 refl in
    record {
      lower = tt;
      upper = (
        ground (arith, refl_chain, r key (at_height key.chain s)),
        ground (arith, refl_chain, r (at_height key.chain s) key),
      );
      parted = λ f t e. ground (arith, r f t);
      others = λ f t nf nt e. ground (arith, r f t, same_key_iff key f, same_key_iff key t);
    }
Reads-IsSpliced profile key (some p) (some s) old new h r =
    let refl_chain = (text_eq_iff key.chain key.chain).1 refl in
    record {
      lower = (
        ground (arith, refl_chain, r (at_height key.chain p) key),
        ground (arith, refl_chain, r key (at_height key.chain p)),
      );
      upper = (
        ground (arith, refl_chain, r key (at_height key.chain s)),
        ground (arith, refl_chain, r (at_height key.chain s) key),
      );
      parted = λ f t e. ground (arith, r f t);
      others = λ f t nf nt e. ground (arith, r f t, same_key_iff key f, same_key_iff key t);
    }
