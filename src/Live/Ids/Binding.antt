-- ===== src/Live/Ids/Binding.antt =====
-- What the IDs of Mapnode/evidence/id.go bind: parts of known lengths one after the other.
use trust_map_prototype.Common.{
  ℕ, ◌^◌, ◌<◌, ◌≡◌, ◌≢◌, refl, sym, ap, ◌∙◌, ◌⊎◌, inl, inr, List, [], ◌∷◌, ◌++◌, length, get_or,
  replicate, ok, arith, Bool-cases, Result-cases,
}
use trust_map_prototype.Replay.Text.{Text, text_eq, text_eq_iff}
use trust_map_prototype.Live.Domain.{join, big_endian, of_bytes-big_endian, of_bytes}
use trust_map_prototype.Live.Ids.{
  Locator, validate_locator, uint32_word, address_word, encode_locator, compute_id,
}

-- The parts of equal lists whose first parts are of one length.
pub append-parts :
    (as' bs : Text) {cs ds : Text}
    → length as' ≡ length bs
    → as' ++ cs ≡ bs ++ ds
    → (as' ≡ bs) × (cs ≡ ds)
append-parts [] [] long e = (refl, e)
append-parts [] (b ∷ bs) long e = absurd (omega arith)
append-parts (a ∷ as') [] long e = absurd (omega arith)
append-parts (a ∷ as') (b ∷ bs) long e =
    let (first, rest) = cons-parts e in
    let (same, after) = append-parts as' bs (omega arith) rest in (cc (first, same), after)
  where
    cons-parts : {x y : ℕ} {xs ys : Text} → ◌≡◌ {A = Text} (x ∷ xs) (y ∷ ys) → (x ≡ y) × (xs ≡ ys)
    cons-parts h = (cc, cc)

pub append-same : (as' : Text) {bs cs : Text} → as' ++ bs ≡ as' ++ cs → bs ≡ cs
append-same as' e = (append-parts as' as' refl e).1

-- As many parts, each as long as the other.
abbrev pub IsAligned : List Text → List Text → Type 0
IsAligned [] [] = Unit
IsAligned (p ∷ ps) (q ∷ qs) = (length p ≡ length q) × IsAligned ps qs
IsAligned _ _ = ⊥

pub join-parts : (ps qs : List Text) → IsAligned ps qs → join ps ≡ join qs → ps ≡ qs
join-parts [] [] a e = refl
join-parts [] (q ∷ qs) a e = absurd a
join-parts (p ∷ ps) [] a e = absurd a
join-parts (p ∷ ps) (q ∷ qs) a e =
    let (same, rest) = append-parts p q a.0 e in cc (same, join-parts ps qs a.1 rest)

-- Two inputs of one hash.
abbrev pub IsCollision : (Text → Text) → Type 0
IsCollision keccak = (a : Text) × (b : Text) × (a ≢ b) × (keccak a ≡ keccak b)

-- The byte lengths of a locator's fields.
pub record IsLocator (l : Locator) : Type 0 where
  pub chain_id : length l.chain_id ≡ 32
  pub contract_address : length l.contract_address ≡ 20
  pub block_number : length l.block_number ≡ 32
  pub block_hash : length l.block_hash ≡ 32
  pub tx_hash : length l.tx_hash ≡ 32
  pub tx_index : l.tx_index < 256 ^ 4
  pub log_index : l.log_index < 256 ^ 4
  pub payload_digest : length l.payload_digest ≡ 32

pub big_endian-same :
    (w m n : ℕ) → m < 256 ^ w → n < 256 ^ w → big_endian w m ≡ big_endian w n → m ≡ n
big_endian-same w m n hm hn e =
    sym (of_bytes-big_endian w m hm) ∙ ap (of_bytes 0) e ∙ of_bytes-big_endian w n hn

pub length-uint32_word : (n : ℕ) → length (uint32_word n) ≡ 32
unfolding big_endian
length-uint32_word n = refl

pub uint32_word-same : (m n : ℕ) → m < 256 ^ 4 → n < 256 ^ 4 → uint32_word m ≡ uint32_word n → m ≡ n
uint32_word-same m n hm hn e = big_endian-same 4 m n hm hn (append-same (replicate 28 0) e)

-- The parts of an encoded locator.
abbrev parts : Locator → Text → Text → Text → List Text
parts l tx index log =
    l.chain_id
    ∷ address_word l.contract_address
    ∷ l.block_number
    ∷ l.block_hash
    ∷ tx
    ∷ index
    ∷ log
    ∷ l.payload_digest
    ∷ []

parts-IsAligned :
    (l k : Locator) (tx tx' index index' log log' : Text)
    → IsLocator l
    → IsLocator k
    → length tx ≡ length tx'
    → length index ≡ length index'
    → length log ≡ length log'
    → IsAligned (parts l tx index log) (parts k tx' index' log')
parts-IsAligned l k tx tx' index index' log log' h g t i o =
    let address : length (address_word l.contract_address)
        ≡ length (address_word k.contract_address) =
      omega (arith, h.contract_address, g.contract_address) in
    (
      h.chain_id ∙ sym g.chain_id,
      (
        address,
        (
          h.block_number ∙ sym g.block_number,
          (
            h.block_hash ∙ sym g.block_hash,
            (t, (i, (o, (h.payload_digest ∙ sym g.payload_digest, tt)))),
          ),
        ),
      ),
    )

locator-same :
    (l k : Locator)
    → l.chain_id ≡ k.chain_id
    → l.contract_address ≡ k.contract_address
    → l.block_number ≡ k.block_number
    → l.block_hash ≡ k.block_hash
    → l.tx_hash ≡ k.tx_hash
    → l.tx_index ≡ k.tx_index
    → l.log_index ≡ k.log_index
    → l.payload_digest ≡ k.payload_digest
    → l ≡ k
locator-same l k a b c d e f g h = cc

encode_locator-same :
    (l k : Locator) → IsLocator l → IsLocator k → encode_locator l ≡ encode_locator k → l ≡ k
unfolding encode_locator
encode_locator-same l k h g e =
    let aligned =
      parts-IsAligned l k l.tx_hash k.tx_hash (uint32_word l.tx_index) (uint32_word k.tx_index)
        (uint32_word l.log_index) (uint32_word k.log_index) h g (h.tx_hash ∙ sym g.tx_hash)
        (length-uint32_word l.tx_index ∙ sym (length-uint32_word k.tx_index))
        (length-uint32_word l.log_index ∙ sym (length-uint32_word k.log_index)) in
    let same =
      join-parts (parts l l.tx_hash (uint32_word l.tx_index) (uint32_word l.log_index))
        (parts k k.tx_hash (uint32_word k.tx_index) (uint32_word k.log_index)) aligned e in
    let at = λ (n : ℕ). ap (λ ps. get_or ps n []) same in
    let index = uint32_word-same l.tx_index k.tx_index h.tx_index g.tx_index (at 5) in
    let log = uint32_word-same l.log_index k.log_index h.log_index g.log_index (at 6) in
    let address = append-same (replicate 12 0) (at 1) in
    locator-same l k (at 0) address (at 2) (at 3) (at 4) index log (at 7)

compute_id-hash :
    (keccak : Text → Text) (l : Locator) {id : Text}
    → compute_id keccak l ≡ ok id
    → keccak (encode_locator l) ≡ id
unfolding compute_id
compute_id-hash keccak l run = elim (Result-cases (validate_locator l)) [
  | inl (_, e) ↦ cc (rw (compute_id, e) at run)
  | inr (_, e) ↦ absurd (cc (rw (compute_id, e) at run))
]

-- The IDs of two valid locators with fields of their byte widths are equal only where the locators
-- are, or there are two inputs of one hash.
pub compute_id-binds :
    (keccak : Text → Text) (l k : Locator) (id : Text)
    → IsLocator l
    → IsLocator k
    → compute_id keccak l ≡ ok id
    → compute_id keccak k ≡ ok id
    → (l ≡ k) ⊎ IsCollision keccak
compute_id-binds keccak l k id h g run run' =
    let at = compute_id-hash keccak l run in
    let at' = compute_id-hash keccak k run' in
    elim (Bool-cases (text_eq (encode_locator l) (encode_locator k))) [
      | inl equal ↦ inl (
          encode_locator-same l k h g ((text_eq_iff (encode_locator l) (encode_locator k)).0 equal))
      | inr differ ↦ inr (
        encode_locator l,
        encode_locator k,
        (λ e. absurd (cc (differ, (text_eq_iff (encode_locator l) (encode_locator k)).1 e))),
        at ∙ sym at',
      )
    ]
