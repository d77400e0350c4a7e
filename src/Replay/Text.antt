-- ===== src/Replay/Text.antt =====
-- strings.TrimSpace and strings.ToLower of Go's standard library over ASCII text, a list of byte
-- values, and canonicalChain of Mapnode/replay/replay_checkpoint_policy.go.
use trust_map_prototype.Common.{
  ℕ, ◌+◌, ◌≡◌, refl, ap, ◌∙◌, Bool, true, false, ◌&&◌, ◌||◌, ◌==◌, leb, List, [], ◌∷◌, map,
  if◌then◌else◌, Bool-cases, inl, inr, arith, ◌↔◌, ◌⊎◌, ◌≤◌, ◌<◌, ◌++◌, All,
}
use trust_map_prototype.Common.Maps.{Keyed}

abbrev pub Text : Type 0
Text = List ℕ

is_space : ℕ → Bool
is_space c = c == b' ' || leb 9 c && leb c 13

to_lower_byte : ℕ → ℕ
to_lower_byte c = if leb b'A' c && leb c b'Z' then c + 32 else c

trim_left : Text → Text
trim_left [] = []
trim_left (c ∷ cs) = if is_space c then trim_left cs else c ∷ cs

abbrev is_empty : Text → Bool
is_empty [] = true
is_empty (_ ∷ _) = false

trim_right : Text → Text
trim_right [] = []
trim_right (c ∷ cs) =
    let rest = trim_right cs in if is_space c && is_empty rest then [] else c ∷ rest

unfoldable pub trim_space : Text → Text
unfolding trim_left trim_right is_space
trim_space s = trim_right (trim_left s)

unfoldable pub canonical_chain : Text → Text
unfolding trim_space to_lower_byte
canonical_chain chain = map to_lower_byte (trim_space chain)

-- Go's `==` on strings.
unfoldable pub text_eq : Text → Text → Bool
text_eq [] [] = true
text_eq (a ∷ as') (b ∷ bs) = a == b && text_eq as' bs
text_eq _ _ = false

pub text_eq_iff : (s t : Text) → (text_eq s t ≡ true) ↔ (s ≡ t)
unfolding text_eq
text_eq_iff [] [] = (λ _. refl, λ _. refl)
text_eq_iff [] (b ∷ bs) = (λ e. cc, λ e. cc)
text_eq_iff (a ∷ as') [] = (λ e. cc, λ e. cc)
text_eq_iff (a ∷ as') (b ∷ bs) = ground (arith, text_eq_iff as' bs)

instance abbrev pub text_keyed : Keyed Text
text_keyed = record { same = text_eq; same_iff = text_eq_iff }

is_space-to_lower_byte : (c : ℕ) → is_space (to_lower_byte c) ≡ is_space c
unfolding is_space to_lower_byte
is_space-to_lower_byte c = ground arith

to_lower_byte_twice : (c : ℕ) → to_lower_byte (to_lower_byte c) ≡ to_lower_byte c
unfolding to_lower_byte
to_lower_byte_twice c = ground arith

-- The first byte, if any, is no space.
abbrev IsBare : Text → Type 0
IsBare [] = Unit
IsBare (c ∷ cs) = is_space c ≡ false

trim_left-IsBare : (s : Text) → IsBare (trim_left s)
unfolding trim_left
trim_left-IsBare [] = tt
trim_left-IsBare (c ∷ cs) = elim (Bool-cases (is_space c)) [
  | inl e ↦ rw e (trim_left-IsBare cs)
  | inr e ↦ rw e e
]

trim_left_of_bare : (s : Text) → IsBare s → trim_left s ≡ s
unfolding trim_left
trim_left_of_bare [] h = refl
trim_left_of_bare (c ∷ cs) h = rw h

trim_right-IsBare : (s : Text) → IsBare s → IsBare (trim_right s)
unfolding trim_right
trim_right-IsBare [] h = tt
trim_right-IsBare (c ∷ cs) h = rw h h

trim_right_twice : (s : Text) → trim_right (trim_right s) ≡ trim_right s
unfolding trim_right
trim_right_twice [] = refl
trim_right_twice (c ∷ cs) = ground (arith, trim_right_twice cs)

is_empty-map : (s : Text) → is_empty (map to_lower_byte s) ≡ is_empty s
is_empty-map [] = refl
is_empty-map (c ∷ cs) = refl

trim_right-map : (s : Text) → trim_right (map to_lower_byte s) ≡ map to_lower_byte (trim_right s)
unfolding trim_right
trim_right-map [] = refl
trim_right-map (c ∷ cs) =
    let blank = is_space c && is_empty (trim_right cs) in
    rw (trim_right-map cs, is_space-to_lower_byte, is_empty-map)
      (elim (Bool-cases blank) [ inl e ↦ rw e | inr e ↦ rw e ])

lower-IsBare : (s : Text) → IsBare s → IsBare (map to_lower_byte s)
lower-IsBare [] h = tt
lower-IsBare (c ∷ cs) h = is_space-to_lower_byte c ∙ h

lower_twice : (s : Text) → map to_lower_byte (map to_lower_byte s) ≡ map to_lower_byte s
lower_twice [] = refl
lower_twice (c ∷ cs) = cc (to_lower_byte_twice c, lower_twice cs)

-- A canonical chain name is its own canonical form.
pub canonical_chain_twice :
    (chain : Text) → canonical_chain (canonical_chain chain) ≡ canonical_chain chain
unfolding canonical_chain trim_space
canonical_chain_twice chain =
    let t = trim_right (trim_left chain) in
    let bare = trim_right-IsBare (trim_left chain) (trim_left-IsBare chain) in
    ap (λ s. map to_lower_byte (trim_right s))
      (trim_left_of_bare (map to_lower_byte t) (lower-IsBare t bare))
    ∙ ap (map to_lower_byte)
        (trim_right-map t ∙ ap (map to_lower_byte) (trim_right_twice (trim_left chain)))
    ∙ lower_twice t

-- A space of ASCII.
abbrev pub IsBlank : ℕ → Type 0
IsBlank c = (c ≡ 32) ⊎ (9 ≤ c) × (c ≤ 13)

-- The second byte is the first one in lower case.
abbrev pub IsLowerOf : ℕ → ℕ → Type 0
IsLowerOf b c = ((65 ≤ b) × (b ≤ 90) × (c ≡ b + 32)) ⊎ (((b < 65) ⊎ (90 < b)) × (c ≡ b))

abbrev pub IsLowered : Text → Text → Type 0
IsLowered [] [] = Unit
IsLowered (b ∷ bs) (c ∷ cs) = IsLowerOf b c × IsLowered bs cs
IsLowered _ _ = ⊥

-- The first and the last byte, if any, is no space.
abbrev pub StartsBare : Text → Type 0
StartsBare [] = Unit
StartsBare (c ∷ cs) = IsBlank c → ⊥

abbrev pub EndsBare : Text → Type 0
EndsBare [] = Unit
EndsBare (c ∷ []) = IsBlank c → ⊥
EndsBare (c ∷ d ∷ cs) = EndsBare (d ∷ cs)

-- A name without the spaces around it, in lower case.
pub record IsTrimmed (s name : Text) : Type 0 where
  pub before : Text
  pub core : Text
  pub after : Text
  pub parts : s ≡ before ++ (core ++ after)
  pub spaces_before : All IsBlank before
  pub spaces_after : All IsBlank after
  pub starts : StartsBare core
  pub ends : EndsBare core
  pub lowered : IsLowered core name
