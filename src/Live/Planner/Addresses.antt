-- ===== src/Live/Planner/Addresses.antt =====
-- ComputePlanID of Mapnode/planner/planner.go: what the ID of a plan binds.
use mathlib.Core.List.{append_assoc}
use trust_map_prototype.Common.{
  ℕ, ◌^◌, ◌<◌, ◌≡◌, refl, sym, ap, ◌∙◌, ◌⊎◌, inl, inr, Option, none, some, List, [], ◌∷◌, ◌++◌,
  length, All, replicate, Bool-cases, arith,
}
use trust_map_prototype.Replay.Text.{Text, text_eq, text_eq_iff}
use trust_map_prototype.Live.Domain.{zero_word, join, big_endian}
use trust_map_prototype.Live.Ids.Binding.{IsCollision, append-parts, append-same, big_endian-same}
use trust_map_prototype.Live.View.{uint64_word}
use trust_map_prototype.Live.Planner.{Plan}
use trust_map_prototype.Live.Planner.Encoding.{
  plan_domain, length_prefixed, option_word, encode_plan, compute_plan_id,
}

abbrev two_32 : ℕ
two_32 = 256 ^ 4

abbrev two_64 : ℕ
two_64 = 256 ^ 8

-- A value of the uint64 pointed to.
abbrev IsWord : Option ℕ → Type 0
IsWord none = Unit
IsWord (some n) = n < two_64

-- The widths of a plan's fields.
pub record IsPlan (p : Plan) : Type 0 where
  pub request_id : length p.request_id ≡ 32
  pub attempt : p.attempt < two_64
  pub snapshot_id : length p.snapshot_id ≡ 32
  pub profile_id : length p.profile_id < two_32
  pub profile_fingerprint : length p.profile_fingerprint ≡ 32
  pub home_node_id : length p.home_node_id ≡ 32
  pub target_node_id : length p.target_node_id ≡ 32
  pub hops : All (λ h. length h ≡ 32) p.hops
  pub hop_count : length p.hops < two_64
  pub path_step_cost : p.path_step_cost < two_64
  pub path_cost : IsWord p.path_cost
  pub direct_cost : IsWord p.direct_cost
  pub plan_type : length p.plan_type < two_32
  pub fallback_reason : length p.fallback_reason < two_32

uint64-parts :
    (m n : ℕ) {cs ds : Text}
    → m < two_64
    → n < two_64
    → uint64_word m ++ cs ≡ uint64_word n ++ ds
    → (m ≡ n) × (cs ≡ ds)
unfolding big_endian
uint64-parts m n hm hn e =
    let (word, rest) = append-parts (uint64_word m) (uint64_word n) refl e in
    (big_endian-same 8 m n hm hn (append-same (replicate 24 0) word), rest)

prefixed-parts :
    (a b : Text) {cs ds : Text}
    → length a < two_32
    → length b < two_32
    → length_prefixed a ++ cs ≡ length_prefixed b ++ ds
    → (a ≡ b) × (cs ≡ ds)
unfolding big_endian
prefixed-parts a b ha hb e =
    let (count, rest) = append-parts (big_endian 4 (length a)) (big_endian 4 (length b)) refl e in
    append-parts a b (big_endian-same 4 (length a) (length b) ha hb count) rest

option-parts :
    (a b : Option ℕ) {cs ds : Text}
    → IsWord a
    → IsWord b
    → option_word a ++ cs ≡ option_word b ++ ds
    → (a ≡ b) × (cs ≡ ds)
unfolding big_endian
option-parts none none ha hb e = (refl, append-same zero_word e)
option-parts none (some n) ha hb e = absurd (differs_first e)
  where
    differs_first : {xs ys : Text} → ◌≡◌ {A = Text} (0 ∷ xs) (1 ∷ ys) → ⊥
    differs_first h = absurd (cc)
option-parts (some m) none ha hb e = absurd (differs_first e)
  where
    differs_first : {xs ys : Text} → ◌≡◌ {A = Text} (1 ∷ xs) (0 ∷ ys) → ⊥
    differs_first h = absurd (cc)
option-parts (some m) (some n) ha hb e =
    let (word, rest) = append-parts (option_word (some m)) (option_word (some n)) refl e in
    (ap some (big_endian-same 8 m n ha hb (append-same (1 ∷ replicate 23 0) word)), rest)

join-hops :
    (hs gs : List Text) {cs ds : Text}
    → All (λ h. length h ≡ 32) hs
    → All (λ h. length h ≡ 32) gs
    → length hs ≡ length gs
    → join hs ++ cs ≡ join gs ++ ds
    → (hs ≡ gs) × (cs ≡ ds)
join-hops [] [] h g long e = (refl, e)
join-hops [] (y ∷ gs) h g long e = absurd (omega arith)
join-hops (x ∷ hs) [] h g long e = absurd (omega arith)
join-hops (x ∷ hs) (y ∷ gs) {cs} {ds} h g long e =
    let (first, e₁) =
      append-parts x y (h.0 ∙ sym g.0)
        (sym (append_assoc x (join hs) cs) ∙ e ∙ append_assoc y (join gs) ds) in
    let (others, rest) = join-hops hs gs h.1 g.1 (omega arith) e₁ in (cc (first, others), rest)

-- The fields behind the hops.
abbrev after_hops : Plan → Text
after_hops p =
    uint64_word p.path_step_cost
    ++ (option_word p.path_cost
        ++ (option_word p.direct_cost ++ (length_prefixed p.fallback_reason ++ [])))

after_hops-same :
    (p q : Plan)
    → IsPlan p
    → IsPlan q
    → after_hops p ≡ after_hops q
    → (p.path_step_cost ≡ q.path_step_cost)
      × (p.path_cost ≡ q.path_cost)
      × (p.direct_cost ≡ q.direct_cost)
      × (p.fallback_reason ≡ q.fallback_reason)
after_hops-same p q h g e =
    let (step, e₁) =
      uint64-parts p.path_step_cost q.path_step_cost h.path_step_cost g.path_step_cost e in
    let (path, e₂) = option-parts p.path_cost q.path_cost h.path_cost g.path_cost e₁ in
    let (direct, e₃) = option-parts p.direct_cost q.direct_cost h.direct_cost g.direct_cost e₂ in
    let (reason, _) =
      prefixed-parts p.fallback_reason q.fallback_reason h.fallback_reason g.fallback_reason e₃ in
    (step, path, direct, reason)

-- The content of a plan is that of another one: all but the ID and the time of creation.
encode_plan-same :
    (p q : Plan)
    → IsPlan p
    → IsPlan q
    → encode_plan p ≡ encode_plan q
    → record p { id = q.id; created_at = q.created_at } ≡ q
unfolding encode_plan
encode_plan-same p q h g e =
    let e₀ = append-same (length_prefixed plan_domain) e in
    let (request, e₁) =
      append-parts p.request_id q.request_id (h.request_id ∙ sym g.request_id) e₀ in
    let (attempt, e₂) = uint64-parts p.attempt q.attempt h.attempt g.attempt e₁ in
    let (snapshot, e₃) =
      append-parts p.snapshot_id q.snapshot_id (h.snapshot_id ∙ sym g.snapshot_id) e₂ in
    let (profile, e₄) = prefixed-parts p.profile_id q.profile_id h.profile_id g.profile_id e₃ in
    let (print, e₅) =
      append-parts p.profile_fingerprint q.profile_fingerprint
        (h.profile_fingerprint ∙ sym g.profile_fingerprint) e₄ in
    let (kind, e₆) = prefixed-parts p.plan_type q.plan_type h.plan_type g.plan_type e₅ in
    let (home, e₇) =
      append-parts p.home_node_id q.home_node_id (h.home_node_id ∙ sym g.home_node_id) e₆ in
    let (target, e₈) =
      append-parts p.target_node_id q.target_node_id (h.target_node_id ∙ sym g.target_node_id) e₇ in
    let (count, e₉) = uint64-parts (length p.hops) (length q.hops) h.hop_count g.hop_count e₈ in
    let (hops, last) = join-hops p.hops q.hops h.hops g.hops count e₉ in
    let (step, path, direct, reason) = after_hops-same p q h g last in
    ground (
      arith, request, attempt, snapshot, profile, print, kind, home, target, hops, step, path,
      direct, reason,
    )

-- Two plans with fields of their byte widths have one ID only where they agree in every field but the
-- ID and the time of creation, or there are two inputs of one hash.
pub compute_plan_id-binds :
    (keccak : Text → Text) (p q : Plan)
    → IsPlan p
    → IsPlan q
    → compute_plan_id keccak p ≡ compute_plan_id keccak q
    → (record p { id = q.id; created_at = q.created_at } ≡ q) ⊎ IsCollision keccak
unfolding compute_plan_id
compute_plan_id-binds keccak p q h g e =
    elim (Bool-cases (text_eq (encode_plan p) (encode_plan q))) [
      | inl equal ↦
          inl (encode_plan-same p q h g ((text_eq_iff (encode_plan p) (encode_plan q)).0 equal))
      | inr differ ↦ inr (
        encode_plan p,
        encode_plan q,
        (λ same. absurd (cc (differ, (text_eq_iff (encode_plan p) (encode_plan q)).1 same))),
        e,
      )
    ]
