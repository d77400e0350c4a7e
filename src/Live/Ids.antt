-- ===== src/Live/Ids.antt =====
-- Mapnode/evidence/id.go: the IDs of evidence and of gateway requests, as Keccak-256 over words of 32
-- bytes. An address has 20 bytes.
use trust_map_prototype.Common.{
  ℕ, ◌^◌, ◌<◌, ◌≡◌, ◌≢◌, refl, sym, ap, ◌∙◌, ◌⊎◌, inl, inr, not, ◌&&◌, ◌||◌, ◌==◌, List, [], ◌∷◌,
  ◌++◌, length, get_or, replicate, Result, ok, ◌>>=◌, ◌>>◌, require, map_err, arith, Bool-cases,
  Result-cases,
}
use trust_map_prototype.Replay.Text.{Text, text_eq, text_eq_iff}
use trust_map_prototype.Live.Domain.{
  DomainError, zero_block_hash, BigInt, zero_word, join, big_endian, of_bytes-big_endian,
  uint256_from_big, of_bytes, validate_chain_id,
}
pub mod Binding

pub data IdError : Type 0 where
  zero_contract_address zero_transaction_hash zero_payload_digest zero_gateway zero_requester :
      IdError
  synthetic_incomplete synthetic_coordinates : IdError
  in_domain : DomainError → IdError

abbrev pub zero_address : Text
zero_address = replicate 20 0

-- The indexes are uint32.
pub record Locator : Type 0 where
  pub chain_id : Text
  pub contract_address : Text
  pub block_number : Text
  pub block_hash : Text
  pub tx_hash : Text
  pub tx_index : ℕ
  pub log_index : ℕ
  pub payload_digest : Text

unfoldable pub validate_locator : Locator → Result IdError (Unit {0})
unfolding text_eq validate_chain_id
validate_locator l = do
  map_err in_domain (validate_chain_id l.chain_id)
  require (not (text_eq l.contract_address zero_address)) zero_contract_address
  require (not (text_eq l.block_hash zero_word)) (in_domain zero_block_hash)
  require (not (text_eq l.tx_hash zero_word)) zero_transaction_hash
  require (not (text_eq l.payload_digest zero_word)) zero_payload_digest

-- The word of a uint32.
abbrev pub uint32_word : ℕ → Text
uint32_word value = replicate 28 0 ++ big_endian 4 value

abbrev pub address_word : Text → Text
address_word address = replicate 12 0 ++ address

unfoldable pub encode_locator : Locator → Text
encode_locator l = join (
    l.chain_id
    ∷ address_word l.contract_address
    ∷ l.block_number
    ∷ l.block_hash
    ∷ l.tx_hash
    ∷ uint32_word l.tx_index
    ∷ uint32_word l.log_index
    ∷ l.payload_digest
    ∷ [])

unfoldable pub encode_synthetic : Locator → Text
encode_synthetic l = join (
    l.chain_id
    ∷ address_word l.contract_address
    ∷ l.block_number
    ∷ l.block_hash
    ∷ zero_word
    ∷ zero_word
    ∷ zero_word
    ∷ l.payload_digest
    ∷ [])

module _ (keccak : Text → Text) where
  unfoldable pub compute_id : Locator → Result IdError Text
  unfolding validate_locator encode_locator
  compute_id l = validate_locator l >>= λ _. ok (keccak (encode_locator l))

  unfoldable pub compute_synthetic_id : Locator → Result IdError Text
  unfolding text_eq validate_chain_id encode_synthetic
  compute_synthetic_id l = do
    map_err in_domain (validate_chain_id l.chain_id)
    require
        (not (
          text_eq l.contract_address zero_address
          || text_eq l.block_hash zero_word
          || text_eq l.payload_digest zero_word))
        synthetic_incomplete
    require (text_eq l.tx_hash zero_word && l.tx_index == 0 && l.log_index == 0)
        synthetic_coordinates
    ok (keccak (encode_synthetic l))

  unfoldable pub compute_gateway_request_id :
      Text → Text → Text → BigInt → Text → Text → Text → Result IdError Text
  unfolding text_eq validate_chain_id uint256_from_big
  compute_gateway_request_id home gateway requester nonce source height block_hash = do
    map_err in_domain (validate_chain_id home)
    require (not (text_eq gateway zero_address)) zero_gateway
    require (not (text_eq requester zero_address)) zero_requester
    nonce_word ← map_err in_domain (uint256_from_big nonce)
    map_err in_domain (validate_chain_id source)
    require (not (text_eq block_hash zero_word)) (in_domain zero_block_hash)
    ok (
        keccak (
          join (
            home
            ∷ address_word gateway
            ∷ address_word requester
            ∷ nonce_word
            ∷ source
            ∷ height
            ∷ block_hash
            ∷ [])))
