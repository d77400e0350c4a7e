-- ===== src/Live/Domain.antt =====
-- internal/domain/types.go and hash.go: 256-bit chain IDs and block heights, and the key of a
-- dependency. A [32]byte, and what is one (a chain ID, a height, a hash), is the list of its bytes.
use native.Mathlib.Nat.{pow-suc}
use trust_map_prototype.Common.{
  ℕ, zero, suc, ◌+◌, ◌*◌, ◌/◌, ◌%◌, ◌^◌, ◌≤◌, ◌<◌, ◌≡◌, refl, ap, sym, ◌∙◌, true, false, not, ltb,
  List, [], ◌∷◌, ◌++◌, length, replicate, length-append, Result, ok, err, ◌>>=◌, ◌>>◌, require,
  arith, if◌then◌else◌, Bool-cases, inl, inr,
}
use trust_map_prototype.Replay.Text.{Text, text_eq, text_eq_iff}

pub data DomainError : Type 0 where
  zero_chain_id zero_block_hash nil_uint256 negative_uint256 uint256_overflow : DomainError

-- The pointer to a big.Int. FillBytes pads to the left.
pub data BigInt : Type 0 where
  nil_int : BigInt
  negative : ℕ → BigInt
  natural : ℕ → BigInt

-- The big-endian bytes of a number, as many as the first argument says, from the last ones.
unfoldable pub big_endian : ℕ → ℕ → Text
big_endian zero n = []
big_endian (suc w) n = big_endian w (n / 256) ++ n % 256 ∷ []

-- big.Int's SetBytes, from the value of the bytes before.
unfoldable pub of_bytes : ℕ → Text → ℕ
of_bytes acc [] = acc
of_bytes acc (b ∷ bs) = of_bytes (acc * 256 + b) bs

-- The parts one after the other.
abbrev pub join : List Text → Text
join [] = []
join (p ∷ ps) = p ++ join ps

-- `[32]byte{}`.
abbrev pub zero_word : Text
zero_word = replicate 32 0

-- The limit of a uint256.
abbrev pub two_256 : ℕ
two_256 = 256 ^ 32

unfoldable pub uint256_from_uint64 : ℕ → Text
unfolding big_endian
uint256_from_uint64 value = replicate 24 0 ++ big_endian 8 value

-- The negative integer of the argument n is - n - 1.
unfoldable pub uint256_from_big : BigInt → Result DomainError Text
unfolding big_endian
uint256_from_big nil_int = err nil_uint256
uint256_from_big (negative n) = err negative_uint256
uint256_from_big (natural n) = if ltb n two_256 then ok (big_endian 32 n) else err uint256_overflow

unfoldable pub validate_chain_id : Text → Result DomainError (Unit {0})
unfolding text_eq
validate_chain_id id = require (not (text_eq id zero_word)) zero_chain_id

unfoldable pub new_chain_id : ℕ → Result DomainError Text
unfolding uint256_from_uint64 validate_chain_id
new_chain_id value =
    validate_chain_id (uint256_from_uint64 value) >>= λ _. ok (uint256_from_uint64 value)

unfoldable pub new_chain_id_from_big : BigInt → Result DomainError Text
unfolding uint256_from_big validate_chain_id
new_chain_id_from_big value = do
  encoded ← uint256_from_big value
  validate_chain_id encoded
  ok encoded

abbrev pub new_block_height : ℕ → Result DomainError Text
new_block_height value = ok (uint256_from_uint64 value)

unfoldable pub new_block_height_from_big : BigInt → Result DomainError Text
unfolding uint256_from_big
new_block_height_from_big value = uint256_from_big value

-- BigInt of a chain ID and of a height.
abbrev pub big_int : Text → ℕ
big_int id = of_bytes 0 id

pub record Dependency : Type 0 where
  pub source_chain_id : Text
  pub source_height : Text
  pub source_block_hash : Text
  pub source_trust_root : Text

unfoldable pub validate_dependency : Dependency → Result DomainError (Unit {0})
unfolding validate_chain_id text_eq
validate_dependency d = do
  validate_chain_id d.source_chain_id
  require (not (text_eq d.source_block_hash zero_word)) zero_block_hash

unfoldable pub new_dependency : Text → Text → Text → Text → Result DomainError Dependency
unfolding validate_dependency
new_dependency chain_id height block_hash trust_root =
    let d : Dependency = record {
      source_chain_id = chain_id;
      source_height = height;
      source_block_hash = block_hash;
      source_trust_root = trust_root;
    } in
    validate_dependency d >>= λ _. ok d

-- DependencyKey of hash.go.
unfoldable pub domain_dependency_key : (Text → Text) → Dependency → Text
domain_dependency_key keccak d =
    keccak
      (join (d.source_chain_id ∷ d.source_height ∷ d.source_block_hash ∷ d.source_trust_root ∷ []))

pub length-big_endian : (w n : ℕ) → length (big_endian w n) ≡ w
unfolding big_endian
length-big_endian zero n = refl
length-big_endian (suc w) n =
    ground
      (arith, length-append (big_endian w (n / 256)) (n % 256 ∷ []), length-big_endian w (n / 256))

of_bytes-append : (acc : ℕ) (bs cs : Text) → of_bytes acc (bs ++ cs) ≡ of_bytes (of_bytes acc bs) cs
unfolding of_bytes
of_bytes-append acc [] cs = refl
of_bytes-append acc (b ∷ bs) cs = of_bytes-append (acc * 256 + b) bs cs

-- The bytes of a number that fits give the number back.
pub of_bytes-big_endian : (w n : ℕ) → n < 256 ^ w → of_bytes 0 (big_endian w n) ≡ n
unfolding big_endian of_bytes
of_bytes-big_endian zero n fits = ground arith
of_bytes-big_endian (suc w) n fits =
    of_bytes-append 0 (big_endian w (n / 256)) (n % 256 ∷ [])
    ∙ ap (λ q. q * 256 + n % 256)
        (of_bytes-big_endian w (n / 256) (let p = pow-suc 256 w in omega (arith, p, fits)))
    ∙ omega arith

uint256-nonzero : (n : ℕ) → 0 < n → n < two_256 → text_eq (big_endian 32 n) zero_word ≡ false
unfolding of_bytes
uint256-nonzero n positive fits = elim (Bool-cases (text_eq (big_endian 32 n) zero_word)) [
  | inr differ ↦ differ
  | inl equal ↦
      let zeros : of_bytes 0 (big_endian 32 n) ≡ of_bytes 0 zero_word =
        ap (of_bytes 0) ((text_eq_iff (big_endian 32 n) zero_word).0 equal) in
      absurd (omega (arith, positive, sym (of_bytes-big_endian 32 n fits) ∙ zeros))
]

zero_case : new_chain_id_from_big (natural 0) ≡ err zero_chain_id
unfolding new_chain_id_from_big big_endian text_eq validate_chain_id
zero_case = refl

-- NewChainIDFromBig of a natural number: the error for zero, the overflow from 2^256 on, and
-- otherwise a chain ID of 32 bytes that reads back as the number.
pub new_chain_id_from_big-natural :
    (n : ℕ)
    → (n ≡ 0 → new_chain_id_from_big (natural n) ≡ err zero_chain_id)
      × (two_256 ≤ n → new_chain_id_from_big (natural n) ≡ err uint256_overflow)
      × (0 < n
          → n < two_256
          → (id : Text) × (new_chain_id_from_big (natural n) ≡ ok id)
            × (big_int id ≡ n)
            × (length id ≡ 32))
unfolding new_chain_id_from_big uint256_from_big validate_chain_id
new_chain_id_from_big-natural n = (
  λ zero_. rw zero_ (zero_case),
  λ high. let no : ltb n two_256 ≡ false = ground arith in rw (no) refl,
  λ positive fits.
      let yes_ : ltb n two_256 ≡ true = ground arith in
      (
        big_endian 32 n,
        rw (yes_, uint256-nonzero n positive fits) refl,
        of_bytes-big_endian 32 n fits,
        length-big_endian 32 n,
      ),
)
