-- ===== src/Registry/Uuid/Order.antt =====
-- The time stamps and the order of the UUIDs of ella-engine/src/registry/id.rs.
use ella.Prelude.{zero, ap, ℕ, ◌+◌, ◌*◌, ◌/◌, ◌%◌, ◌^◌, ◌<◌, ◌≡◌, arith, ap, ◌≤◌, suc, ◌⊎◌}
use ella.Registry.Uuid.{
  UuidCrate, four_bytes, two_bytes, low_bytes, decode_bytes, encode_timestamp_millis,
  decode_timestamp_millis, number, counter_bytes, new_uuid, generate_from, number_from,
}

abbrev IsByte : (ℕ → ℕ) → Type 0
IsByte b = (i : ℕ) → b i < 256

-- The field with the version and the counter's low bits.
abbrev version_field : (ℕ → ℕ) → ℕ
version_field b = b 1 + b 0 * 256 % 2 ^ 12 + 7 * 2 ^ 12

version_field-lt : (b : ℕ → ℕ) → IsByte b → version_field b < 2 ^ 16
version_field-lt b h = omega (arith, h 0, h 1)

module _ (U : UuidCrate) where
  encode_bytes :
      (millis : ℕ) (b : ℕ → ℕ)
      → IsByte b
      → U.as_bytes (encode_timestamp_millis U millis b)
        ≡ four_bytes
            (millis / 2 ^ 16 % 2 ^ 32)
            (two_bytes (millis % 2 ^ 16) (two_bytes (version_field b) (low_bytes b)))
  unfolding encode_timestamp_millis
  encode_bytes millis b h =
      U.as_bytes-from_fields _ _ _ _ (omega arith) (omega arith) (version_field-lt b h)

  -- The time stamp that is read from a UUID encoded with bytes below 256 is the one that was
  -- encoded, modulo the 48 bits of the format.
  pub decode-encode :
      (millis : ℕ) (b : ℕ → ℕ)
      → IsByte b
      → decode_timestamp_millis U (encode_timestamp_millis U millis b) ≡ millis % 2 ^ 48
  unfolding decode_timestamp_millis decode_bytes
  decode-encode millis b h = rw (encode_bytes millis b h) (omega arith)

  pub low_bytes_bounds :
      (acc : ℕ) (b : ℕ → ℕ)
      → IsByte b
      → (acc * 2 ^ 64 ≤ number_from acc (low_bytes b))
        × (number_from acc (low_bytes b) < (acc + 1) * 2 ^ 64)
  unfolding low_bytes
  low_bytes_bounds acc b h = omega (arith, h 2, h 3, h 4, h 5, h 6, h 7, h 8, h 9)

  -- The first eight bytes of a UUID as one number.
  abbrev leading : ℕ → (ℕ → ℕ) → ℕ
  leading millis b = millis % 2 ^ 48 * 2 ^ 16 + version_field b

  number-encode :
      (millis : ℕ) (b : ℕ → ℕ)
      → IsByte b
      → number (U.as_bytes (encode_timestamp_millis U millis b))
        ≡ number_from (leading millis b) (low_bytes b)
  number-encode millis b h =
      rw (encode_bytes millis b h)
        (ap (λ a. number_from a (low_bytes b)) (let v = version_field-lt b h in omega arith))

  counter_bytes-IsByte : (c : ℕ) (r : ℕ → ℕ) → c < 2 ^ 16 → IsByte (counter_bytes c r)
  unfolding counter_bytes
  counter_bytes-IsByte c r h zero = omega arith
  counter_bytes-IsByte c r h (suc zero) = omega arith
  counter_bytes-IsByte c r h (suc (suc i)) = omega arith

  -- UUIDs made from 16-bit counters are ordered by the time stamp (modulo its 48 bits), and within
  -- a millisecond by the low twelve bits of the counter, whatever the random bytes.
  pub new_uuid-lt :
      (m m' c c' : ℕ) (r r' : ℕ → ℕ)
      → c < 2 ^ 16
      → c' < 2 ^ 16
      → (m % 2 ^ 48 < m' % 2 ^ 48) ⊎ ((m % 2 ^ 48 ≡ m' % 2 ^ 48) × (c % 2 ^ 12 < c' % 2 ^ 12))
      → number (U.as_bytes (new_uuid U m c r).0) < number (U.as_bytes (new_uuid U m' c' r').0)
  unfolding new_uuid counter_bytes
  new_uuid-lt m m' c c' r r' h h' lt =
      let k = counter_bytes-IsByte c r h in
      let k' = counter_bytes-IsByte c' r' h' in
      rw (number-encode m _ k, number-encode m' _ k')
        (omega (
          arith,
          low_bytes_bounds (leading m (counter_bytes c r)) _ k,
          low_bytes_bounds (leading m' (counter_bytes c' r')) _ k',
        ))

  -- The UUID that is generated from a UUID, both with 16-bit counters, has the time stamp of that
  -- UUID.
  pub decode-generate_from :
      (m c c' : ℕ) (r r' : ℕ → ℕ)
      → c < 2 ^ 16
      → c' < 2 ^ 16
      → decode_timestamp_millis U (generate_from U (new_uuid U m c r).0 c' r').0
        ≡ decode_timestamp_millis U (new_uuid U m c r).0
  unfolding generate_from new_uuid
  decode-generate_from m c c' r r' h h' =
      rw
        (
          decode-encode m (counter_bytes c r) (counter_bytes-IsByte c r h),
          decode-encode _ (counter_bytes c' r') (counter_bytes-IsByte c' r' h'),
        )
        (omega arith)
