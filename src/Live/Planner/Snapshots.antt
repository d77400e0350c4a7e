-- ===== src/Live/Planner/Snapshots.antt =====
-- Mapnode/planner/planner.go: what the checks of Planner.Plan accept.
use mathlib.Core.List.{Memᴰ}
use mathlib.Core.List.Memᴰ.{head, tail}
use trust_map_prototype.Common.{
  ◌≡◌, ◌≢◌, refl, sym, ap, ◌∙◌, inl, inr, Bool, Result, true, false, not, ◌&&◌, ◌==◌, ==_iff, some,
  List, [], ◌∷◌, length, ok, ◌>>◌, require, Bool-cases, Option-cases, Result-cases, arith,
}
use trust_map_prototype.Common.Maps.{is_some}
use trust_map_prototype.Replay.Text.{Text, text_eq, text_eq_iff}
use trust_map_prototype.Live.View.{
  TrustNode, TrustView, TrustViewSnapshot, new_trust_view, compute_snapshot_id,
}
use trust_map_prototype.Live.View.Checked.{IsView, new_trust_view-IsView}
use trust_map_prototype.Live.Planner.{Request, find_snapshot_node, PlannerError}
use trust_map_prototype.Live.Planner.Proposal.{check_snapshot}

-- A node of the snapshot with this ID.
pub find_snapshot_node-Mem :
    (nodes : List TrustNode) (id : Text) {n : TrustNode}
    → find_snapshot_node nodes id ≡ some n
    → Memᴰ n nodes × (n.id ≡ id)
unfolding find_snapshot_node
find_snapshot_node-Mem [] id h = absurd (cc)
find_snapshot_node-Mem (m ∷ ms) id {n} h = elim (Bool-cases (text_eq m.id id)) [
  | inl it ↦
      let same : m ≡ n = cc (rw (find_snapshot_node, it) at h) in
      (head (sym same), ap (λ x. x.id) (sym same) ∙ (text_eq_iff m.id id).0 it)
  | inr other ↦
      let (mem, at) = find_snapshot_node-Mem ms id (rw (find_snapshot_node, other) at h) in
      (tail mem, at)
]

-- The test of a guard, and what follows it.
required :
    (b : Bool) (e : PlannerError) (m : Result PlannerError (Unit {0}))
    → (require b e >> m) ≡ ok tt
    → (b ≡ true) × (m ≡ ok tt)
required true e m h = (refl, h)
required false e m h = absurd (cc)

required_last : (b : Bool) (e : PlannerError) → require b e ≡ ok tt → b ≡ true
required_last true e h = refl
required_last false e h = absurd (cc)

both : (a b : Bool) → (a && b) ≡ true → (a ≡ true) × (b ≡ true)
both a b h = ground arith

-- A snapshot that is sealed and bound to the request by its ID, between two different nodes of it;
-- its start node is on the home chain, with the home root that the snapshot was taken at; its nodes
-- and edges make a view as they are, none of them twice.
pub record IsChecked (keccak : Text → Text) (request : Request) (snapshot : TrustViewSnapshot)
    : Type 0 where
  pub sealed : snapshot.sealed ≡ true
  pub named : snapshot.id ≡ request.snapshot_id
  pub home_chain : snapshot.home_chain_id ≡ request.home_chain_id
  pub bound :
      compute_snapshot_id keccak request.id request.attempt snapshot.revision snapshot.start_node_id
        snapshot.target_node_id snapshot.home_trust_root
      ≡ snapshot.id
  pub apart : snapshot.start_node_id ≢ snapshot.target_node_id
  pub start :
      (n : TrustNode) × Memᴰ n snapshot.nodes
      × (n.id ≡ snapshot.start_node_id)
      × (n.key.chain_id ≡ request.home_chain_id)
      × (n.root ≡ snapshot.home_trust_root)
  pub target : (n : TrustNode) × Memᴰ n snapshot.nodes × (n.id ≡ snapshot.target_node_id)
  pub viewed :
      (view : TrustView) × IsView keccak snapshot.nodes snapshot.edges view
      × (length view.nodes ≡ length snapshot.nodes)
      × (length view.edges ≡ length snapshot.edges)

pub check_snapshot-IsChecked :
    (keccak : Text → Text) (request : Request) (snapshot : TrustViewSnapshot)
    → check_snapshot keccak request snapshot ≡ ok tt
    → IsChecked keccak request snapshot
unfolding check_snapshot
check_snapshot-IsChecked keccak request snapshot run =
    let id =
      compute_snapshot_id keccak request.id request.attempt snapshot.revision snapshot.start_node_id
        snapshot.target_node_id snapshot.home_trust_root in
    let view = new_trust_view keccak snapshot.revision snapshot.nodes snapshot.edges in
    let (sealed, r₁) = required snapshot.sealed _ _ run in
    let (named, r₂) =
      required
        (text_eq snapshot.id request.snapshot_id
          && text_eq snapshot.home_chain_id request.home_chain_id)
        _ _ r₁ in
    let (bound, r₃) = required (text_eq id snapshot.id) _ _ r₂ in
    let (apart, r₄) =
      required (not (text_eq snapshot.start_node_id snapshot.target_node_id)) _ _ r₃ in
    let (ends, r₅) =
      required
        (is_some (find_snapshot_node snapshot.nodes snapshot.start_node_id)
          && is_some (find_snapshot_node snapshot.nodes snapshot.target_node_id))
        _ _ r₄ in
    elim (Result-cases view) [
      | inr (_, e) ↦ absurd (cc (rw e at r₅))
      | inl (v, e) ↦
          let (counts, r₆) =
            required
              (length v.nodes == length snapshot.nodes && length v.edges == length snapshot.edges) _
              _ (rw e at r₅) in
          elim (Option-cases (find_snapshot_node snapshot.nodes snapshot.start_node_id)) [
            | inl gone ↦ absurd (cc (rw gone at r₆))
            | inr (n, at) ↦
                let (chain, r₇) =
                  required (text_eq n.key.chain_id request.home_chain_id) _ _ (rw at at r₆) in
                let root = required_last (text_eq n.root snapshot.home_trust_root) _ r₇ in
                record {
                  sealed = sealed;
                  named =
                      (text_eq_iff snapshot.id request.snapshot_id).0
                        (both (text_eq snapshot.id request.snapshot_id)
                          (text_eq snapshot.home_chain_id request.home_chain_id) named).0;
                  home_chain =
                      (text_eq_iff snapshot.home_chain_id request.home_chain_id).0
                        (both (text_eq snapshot.id request.snapshot_id)
                          (text_eq snapshot.home_chain_id request.home_chain_id) named).1;
                  bound = (text_eq_iff id snapshot.id).0 bound;
                  apart = λ same. absurd (
                      cc (
                        apart,
                        (text_eq_iff snapshot.start_node_id snapshot.target_node_id).1 same,
                      ));
                  start = (
                    n,
                    (find_snapshot_node-Mem snapshot.nodes snapshot.start_node_id at).0,
                    (find_snapshot_node-Mem snapshot.nodes snapshot.start_node_id at).1,
                    (text_eq_iff n.key.chain_id request.home_chain_id).0 chain,
                    (text_eq_iff n.root snapshot.home_trust_root).0 root,
                  );
                  target =
                      elim (Option-cases
                        (find_snapshot_node snapshot.nodes snapshot.target_node_id)) [
                          | inl gone ↦ absurd (
                              cc (
                                rw gone at
                                  (both
                                    (is_some
                                      (find_snapshot_node snapshot.nodes snapshot.start_node_id))
                                    (is_some
                                      (find_snapshot_node snapshot.nodes snapshot.target_node_id))
                                    ends).1))
                          | inr (m, at') ↦ (
                            m,
                            (find_snapshot_node-Mem snapshot.nodes snapshot.target_node_id at').0,
                            (find_snapshot_node-Mem snapshot.nodes snapshot.target_node_id at').1,
                          )
                        ];
                  viewed = (
                    v,
                    new_trust_view-IsView keccak snapshot.revision snapshot.nodes snapshot.edges v
                        e,
                    (==_iff (length v.nodes) (length snapshot.nodes)).0
                        (both (length v.nodes == length snapshot.nodes)
                          (length v.edges == length snapshot.edges) counts).0,
                    (==_iff (length v.edges) (length snapshot.edges)).0
                        (both (length v.nodes == length snapshot.nodes)
                          (length v.edges == length snapshot.edges) counts).1,
                  );
                }
          ]
    ]
