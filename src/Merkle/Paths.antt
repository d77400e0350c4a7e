-- ===== src/Merkle/Paths.antt =====
-- VerifyPath of internal/proof/merkle.go: which paths it accepts, and what an accepted path binds.
use mathlib.Core.Path.{ap₂}
use trust_map_prototype.Common.{
  ℕ, ◌+◌, ◌^◌, ◌≤◌, ◌<◌, ◌≡◌, ◌≢◌, refl, sym, ap, ◌∙◌, ◌⊎◌, inl, inr, List, [], ◌∷◌, map, length,
  Result, ok, err, map_err, Result-cases, arith,
}
use trust_map_prototype.Merkle.{
  Hashing, MembershipWitness, max_tree_depth, leaf_hash, root_from_witness, walk, hops, verify_path,
  validate_depth,
}
use trust_map_prototype.Merkle.Reference.{node_at, siblings_at}
use trust_map_prototype.Merkle.Witness.{
  Collision, keccak-binds, root_from_witness-binds, root_from_witness-siblings_at,
}

map_err-ok {ℓ κ μ} :
    {E : Type ℓ} {F : Type κ} {A : Type μ} (f : E → F) (m : Result E A) {a : A}
    → map_err f m ≡ ok a
    → m ≡ ok a
map_err-ok f (ok b) h = cc
map_err-ok f (err e) h = cc

module _ {H : Type 0} ⦃hashing : Hashing H⦄ where
  open hashing use {keccak, same, same_iff}

  -- Each hop's leaf stands at its leaf index in a tree with those siblings, whose root is the
  -- source root of the next hop; the last root is the home root.
  abbrev pub IsCommitted : ℕ → H → List (H × MembershipWitness H) → H → Type 0
  IsCommitted depth root [] home = root ≡ home
  IsCommitted depth root ((block_hash, witness) ∷ rest) home =
      (leaf : ℕ → H) × (leaf witness.leaf_index ≡ leaf_hash root block_hash)
      × (witness.leaf_index < 2 ^ depth)
      × (witness.siblings ≡ siblings_at depth leaf 0 witness.leaf_index)
      × IsCommitted depth (node_at depth leaf 0) rest home

  walk-IsCommitted :
      (depth : ℕ) (positive : 0 < depth) (bounded : depth ≤ max_tree_depth)
      (path : List (H × MembershipWitness H)) (i : ℕ) (root home : H)
      → IsCommitted depth root path home
      → walk depth i root path ≡ ok home
  unfolding walk
  walk-IsCommitted depth positive bounded [] i root home c = ap ok c
  walk-IsCommitted depth positive bounded ((b, w) ∷ rest) i root home
        (leaf, at, inside, sib, more) =
      let e = root_from_witness-siblings_at depth leaf w.leaf_index positive bounded inside in
      rw (sib, ← at, e) (walk-IsCommitted depth positive bounded rest (i + 1) _ home more)

  -- VerifyPath accepts every path of at least one hop, at a depth from 1 to 32, with one witness
  -- for each block hash, whose hops are committed: the leaf of each hop stands at its leaf index
  -- in a complete tree whose siblings the witness lists and whose root the next hop binds, and the
  -- last such root is the home root.
  pub verify_path-IsCommitted :
      (base : H) (blocks : List H) (witnesses : List (MembershipWitness H)) (home : H) (depth : ℕ)
      → 0 < depth
      → depth ≤ max_tree_depth
      → blocks ≢ []
      → length blocks ≡ length witnesses
      → IsCommitted depth base (hops blocks witnesses) home
      → verify_path base blocks witnesses home depth ≡ ok tt
  unfolding verify_path validate_depth
  verify_path-IsCommitted base blocks witnesses home depth positive bounded some_hop sized c =
      ground (
        arith,
        walk-IsCommitted depth positive bounded (hops blocks witnesses) 0 base home c,
        same_iff home home,
      )

  verify_path-ok :
      (base : H) (blocks : List H) (witnesses : List (MembershipWitness H)) (home : H) (depth : ℕ)
      → verify_path base blocks witnesses home depth ≡ ok tt
      → (length blocks ≡ length witnesses)
        × (root : H) × (walk depth 0 base (hops blocks witnesses) ≡ ok root)
        × (root ≡ home)
  unfolding verify_path validate_depth
  verify_path-ok base blocks witnesses home depth h =
      elim (Result-cases (walk depth 0 base (hops blocks witnesses))) [
        | inl (root, e) ↦
            let m : length blocks ≡ length witnesses = ground arith in
            (m, root, e, (same_iff root home).0 (ground arith))
        | inr (error, e) ↦ absurd (ground arith)
      ]

  blocks-hops :
      (bs : List H) (ws : List (MembershipWitness H))
      → length bs ≡ length ws
      → (map (λ h. h.0) (hops bs ws) ≡ bs)
        × (map (λ h. h.1) (hops bs ws) ≡ ws)
        × (map (λ h. h.1.leaf_index) (hops bs ws) ≡ map (λ w. w.leaf_index) ws)
  unfolding hops
  blocks-hops [] [] e = (refl, refl, refl)
  blocks-hops [] (w ∷ ws) e = absurd (omega arith)
  blocks-hops (b ∷ bs) [] e = absurd (omega arith)
  blocks-hops (b ∷ bs) (w ∷ ws) e =
      let (p, q, r) = blocks-hops bs ws (omega arith) in
      (ap (◌∷◌ b) p, ap (◌∷◌ w) q, ap (◌∷◌ w.leaf_index) r)

  walk-step :
      (depth i : ℕ) (a x home : H) (w : MembershipWitness H) (ps : List (H × MembershipWitness H))
      → walk depth i a ((x, w) ∷ ps) ≡ ok home
      → (r : H) × (root_from_witness (leaf_hash a x) w.leaf_index w.siblings depth ≡ ok r)
        × (walk depth (i + 1) r ps ≡ ok home)
  unfolding walk
  walk-step depth i a x home w ps h =
      elim (Result-cases (root_from_witness (leaf_hash a x) w.leaf_index w.siblings depth)) [
        | inl (r, e) ↦ (r, e, ground arith)
        | inr (error, e) ↦ absurd (ground arith)
      ]

  hop-binds :
      (depth : ℕ) (x y a b r : H) (w v : MembershipWitness H)
      → w.leaf_index ≡ v.leaf_index
      → root_from_witness (leaf_hash a x) w.leaf_index w.siblings depth ≡ ok r
      → root_from_witness (leaf_hash b y) v.leaf_index v.siblings depth ≡ ok r
      → (a ≡ b) × (x ≡ y) × (w ≡ v) ⊎ Collision hashing
  hop-binds depth x y a b r w v e p q =
      elim (root_from_witness-binds (leaf_hash a x) (leaf_hash b y) w.leaf_index w.siblings
        v.siblings depth r p (rw e q)) [
          | inl (leaf, sib) ↦ elim (keccak-binds a x b y leaf) [
            | inl (root, block) ↦ inl (root, block, ground arith)
            | inr c ↦ inr c
          ]
          | inr c ↦ inr c
        ]

  walk-binds :
      (depth : ℕ) (ps qs : List (H × MembershipWitness H)) (i : ℕ) (a b home : H)
      → map (λ h. h.1.leaf_index) ps ≡ map (λ h. h.1.leaf_index) qs
      → walk depth i a ps ≡ ok home
      → walk depth i b qs ≡ ok home
      → (a ≡ b) × (ps ≡ qs) ⊎ Collision hashing
  unfolding walk
  walk-binds depth [] [] i a b home e p q = inl (cc, refl)
  walk-binds depth [] (_ ∷ _) i a b home e p q = cc
  walk-binds depth (_ ∷ _) [] i a b home e p q = cc
  walk-binds depth ((x, w) ∷ ps) ((y, v) ∷ qs) i a b home e p q =
      let (r, first, p') = walk-step depth i a x home w ps p in
      let (t, second, q') = walk-step depth i b y home v qs q in
      elim (walk-binds depth ps qs (i + 1) r t home (cc) p' q') [
        | inl (root, rest) ↦
            elim (hop-binds depth x y a b r w v (cc) first (second ∙ ap ok (sym root))) [
              | inl (source, block, witness) ↦
                  inl (source, ap₂ ◌∷◌ (λ k. (block k, witness k)) rest)
              | inr c ↦ inr c
            ]
        | inr c ↦ inr c
      ]

  -- If VerifyPath accepts two paths against one home root at one depth, and the witnesses of the
  -- two have the same leaf indices in order, then the paths have the same base root, the same block
  -- hashes and the same witnesses, or two different pairs of words with one digest are at hand.
  pub verify_path-binds :
      (base base' : H) (blocks blocks' : List H) (witnesses witnesses' : List (MembershipWitness H))
      (home : H) (depth : ℕ)
      → map (λ w. w.leaf_index) witnesses ≡ map (λ w. w.leaf_index) witnesses'
      → verify_path base blocks witnesses home depth ≡ ok tt
      → verify_path base' blocks' witnesses' home depth ≡ ok tt
      → (base ≡ base') × (blocks ≡ blocks') × (witnesses ≡ witnesses') ⊎ Collision hashing
  verify_path-binds base base' blocks blocks' witnesses witnesses' home depth e p q =
      let (m, root, walks, last) = verify_path-ok base blocks witnesses home depth p in
      let (n, root', walks', last') = verify_path-ok base' blocks' witnesses' home depth q in
      let (bs, ws, js) = blocks-hops blocks witnesses m in
      let (cs, vs, ks) = blocks-hops blocks' witnesses' n in
      elim (walk-binds depth (hops blocks witnesses) (hops blocks' witnesses') 0 base base' home
        (js ∙ e ∙ sym ks) (walks ∙ ap ok last) (walks' ∙ ap ok last')) [
          | inl (source, same_hops) ↦ inl (
            source,
            sym bs ∙ ap (map (λ h. h.0)) same_hops ∙ cs,
            sym ws ∙ ap (map (λ h. h.1)) same_hops ∙ vs,
          )
          | inr c ↦ inr c
        ]
