-- ===== src/Registry/Uuid.antt =====
-- ella-engine/src/registry/id.rs: the time-ordered (version 7) UUIDs of transactions, snapshots and
-- shards. The byte layout belongs to the uuid crate, which enters as an interface; masks and shifts
-- of fixed width are written with `%`, `/` and `*`, and an `|` of disjoint bits with `+`.
pub mod Order
use Prim.Native.Nat.{min}
use ella.Prelude.{
  ℕ, ◌+◌, ◌*◌, ◌/◌, ◌%◌, ◌^◌, ◌<◌, ◌≡◌, List, [], ◌∷◌, Text, codes, Option, none, some, ◌++◌, ◌-◌,
}

abbrev pub four_bytes : ℕ → List ℕ → List ℕ
four_bytes n rest = (n / 2 ^ 24) ∷ (n / 2 ^ 16 % 256) ∷ (n / 256 % 256) ∷ (n % 256) ∷ rest

abbrev pub two_bytes : ℕ → List ℕ → List ℕ
two_bytes n rest = (n / 256) ∷ (n % 256) ∷ rest

-- What the code uses of the uuid crate: `from_fields` lays its fields out big-endian.
pub record UuidCrate : Type 1 where
  pub Uuid : Type 0
  pub from_fields : ℕ → ℕ → ℕ → List ℕ → Uuid
  pub as_bytes : Uuid → List ℕ
  pub hyphenated : Uuid → Text
  pub as_bytes-from_fields :
      (d1 d2 d3 : ℕ) (d4 : List ℕ)
      → d1 < 2 ^ 32
      → d2 < 2 ^ 16
      → d3 < 2 ^ 16
      → as_bytes (from_fields d1 d2 d3 d4) ≡ four_bytes d1 (two_bytes d2 (two_bytes d3 d4))

-- The big-endian number of a list of bytes; UUIDs of 16 bytes are ordered by it.
abbrev pub number_from : ℕ → List ℕ → ℕ
number_from acc [] = acc
number_from acc (b ∷ bs) = number_from (acc * 256 + b) bs

abbrev pub number : List ℕ → ℕ
number = number_from 0

-- The bytes of the low part: six random bits under the variant, then the random bytes.
unfoldable pub low_bytes : (ℕ → ℕ) → List ℕ
low_bytes b = (b 2 % 64 + 128) ∷ b 3 ∷ b 4 ∷ b 5 ∷ b 6 ∷ b 7 ∷ b 8 ∷ b 9 ∷ []

-- `decode_timestamp_millis`, on the bytes of a UUID
unfoldable pub decode_bytes : List ℕ → ℕ
decode_bytes (b0 ∷ b1 ∷ b2 ∷ b3 ∷ b4 ∷ b5 ∷ rest) =
    b0 * 2 ^ 40 + b1 * 2 ^ 32 + b2 * 2 ^ 24 + b3 * 2 ^ 16 + b4 * 2 ^ 8 + b5
decode_bytes _ = 0

-- `new_uuid_now`: the Unix time in milliseconds, saturating at the width of u64
unfoldable pub unix_millis : ℕ → ℕ → ℕ
unix_millis secs nanos = min (2 ^ 64 - 1) (secs * 1000 + nanos / 1_000_000)

-- The ten bytes of `new_uuid`: the counter, big-endian, and eight random bytes.
unfoldable pub counter_bytes : ℕ → (ℕ → ℕ) → ℕ → ℕ
counter_bytes counter random i = elim i [
  | ℕ.zero ↦ counter / 256
  | ℕ.suc j ↦ elim j [ ℕ.zero ↦ counter % 256 | ℕ.suc k ↦ random k % 256 ]
]

module _ (U : UuidCrate) where
  open U use {Uuid, from_fields, as_bytes, hyphenated}

  unfoldable pub encode_timestamp_millis : ℕ → (ℕ → ℕ) → Uuid
  unfolding low_bytes
  encode_timestamp_millis millis b =
      from_fields (millis / 2 ^ 16 % 2 ^ 32) (millis % 2 ^ 16)
        (b 1 + b 0 * 256 % 2 ^ 12 + 7 * 2 ^ 12) (low_bytes b)

  unfoldable pub decode_timestamp_millis : Uuid → ℕ
  unfolding decode_bytes
  decode_timestamp_millis u = decode_bytes (as_bytes u)

  -- `new_uuid`: the UUID and the next value of the 16-bit atomic counter
  unfoldable pub new_uuid : ℕ → ℕ → (ℕ → ℕ) → Uuid × ℕ
  unfolding encode_timestamp_millis counter_bytes
  new_uuid millis counter random =
      (encode_timestamp_millis millis (counter_bytes counter random), (counter + 1) % 2 ^ 16)

  -- `ShardId::generate_from`: a fresh id with the timestamp of `id`
  unfoldable pub generate_from : Uuid → ℕ → (ℕ → ℕ) → Uuid × ℕ
  unfolding decode_timestamp_millis new_uuid
  generate_from u counter random = new_uuid (decode_timestamp_millis u) counter random

  -- `encode_uuid_to_path`: the file name that is joined to the root
  unfoldable pub encode_uuid : Uuid → Option Text → Text → Text
  encode_uuid u prefix ext = elim prefix [
    | none ↦ hyphenated u ++ (codes "." ++ ext)
    | some p ↦ p ++ (codes "-" ++ (hyphenated u ++ (codes "." ++ ext)))
  ]
