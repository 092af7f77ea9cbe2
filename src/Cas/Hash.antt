-- ===== src/Cas/Hash.antt =====
-- `ChunkHash` of crates/musicfs-core/src/types.rs: eight bytes, the little-endian xxh64 of a chunk.
use music_fs.Base.{
  nat_eq, list_eq, ℕ, zero, suc, ◌/◌, ◌%◌, ◌<◌, ◌≡◌, refl, ap, ◌↔◌, true, Option, none, some, List,
  [], ◌∷◌, arith, Eq, same, same_iff, ◌==◌, if◌then◌else◌, length, All,
}

-- The crates xxhash-rust and hex, which are not part of the repository.
pub record Hashing : Type 0 where
  pub xxh64 : List ℕ → ℕ
  pub hex_encode : List ℕ → List ℕ
  pub hex_decode : List ℕ → Option (List ℕ)

-- What the documentation of the crate hex promises of bytes.
pub record HexLaws (h : Hashing) : Type 0 where
  pub decode_encode :
      (bs : List ℕ) → All (λ b. b < 256) bs → h.hex_decode (h.hex_encode bs) ≡ some bs

pub record ChunkHash : Type 0 where
  pub bytes : List ℕ

pub ChunkHash_iff : (a b : ChunkHash) → (same a.bytes b.bytes ≡ true) ↔ (a ≡ b)
ChunkHash_iff a b = (
  λ p. λ i. record { bytes = (same_iff a.bytes b.bytes).0 p i },
  λ p. (same_iff a.bytes b.bytes).1 (ap (λ (c : ChunkHash). c.bytes) p),
)

instance abbrev pub ChunkHash_eq : Eq ChunkHash
ChunkHash_eq = record { beq = λ a b. same a.bytes b.bytes; beq_iff = ChunkHash_iff }

-- `u64::to_le_bytes`, for a number of bytes
unfoldable pub le_bytes : ℕ → ℕ → List ℕ
le_bytes zero x = []
le_bytes (suc n) x = (x % 256) ∷ le_bytes n (x / 256)

pub le_bytes_byte : (n x : ℕ) → All (λ b. b < 256) (le_bytes n x)
unfolding le_bytes
le_bytes_byte zero x = tt
le_bytes_byte (suc n) x = (omega arith, le_bytes_byte n (x / 256))

pub length-le_bytes : (n x : ℕ) → length (le_bytes n x) ≡ n
unfolding le_bytes
length-le_bytes zero x = refl
length-le_bytes (suc n) x = ap suc (length-le_bytes n (x / 256))

module _ (h : Hashing) where
  unfoldable pub from_bytes : List ℕ → ChunkHash
  from_bytes content = record { bytes = le_bytes 8 (h.xxh64 content) }

  unfoldable pub as_hex : ChunkHash → List ℕ
  as_hex c = h.hex_encode c.bytes

  -- A text that decodes to other than eight bytes is no hash.
  unfoldable pub from_hex : List ℕ → Option ChunkHash
  from_hex s = elim (h.hex_decode s) [
    | none ↦ none
    | some bytes ↦ if length bytes == 8 then some (record { bytes = bytes }) else none
  ]

  -- The hash of any content survives being printed as hex and parsed again, if hex decoding undoes
  -- encoding.
  pub from_hex-as_hex :
      HexLaws h
      → (content : List ℕ) → from_hex (as_hex (from_bytes content)) ≡ some (from_bytes content)
  unfolding from_hex as_hex from_bytes
  from_hex-as_hex laws content =
      let bytes = le_bytes 8 (h.xxh64 content) in
      let decoded = laws.decode_encode bytes (le_bytes_byte 8 (h.xxh64 content)) in
      ground (arith, decoded, length-le_bytes 8 (h.xxh64 content))

  -- Equal hex texts come from equal hashes, if the bytes are bytes.
  pub as_hex_injective :
      HexLaws h
      → (a b : ChunkHash) → All (λ b. b < 256) a.bytes
      → All (λ b. b < 256) b.bytes
      → as_hex a ≡ as_hex b
      → a ≡ b
  unfolding as_hex
  as_hex_injective laws a b ha hb p =
      let da = laws.decode_encode a.bytes ha in
      let db = laws.decode_encode b.bytes hb in let q = ap h.hex_decode p in cc (da, db)
