-- ===== src/Digest/Hashing.antt =====
-- `Digest::from_bytes`: which algorithms it computes.
use ips.Base.{Bytes, ◌≡◌, refl, ◌≢◌, arith, some, ◌⊎◌, inl, inr}
use ips.Base.Outcome.{ok, err}
use ips.Digest.{
  Digest, DigestAlgorithm, sha1, DigestSource, unknown_algorithm, Hashes, algorithm_name, hash_with,
  from_bytes, display, from_str,
}
use ips.Digest.Parsing.{NoColon, from_str-display}

module _ (hashes : Hashes) where
  -- The printed hash of any bytes is hexadecimal, so it holds no colon.
  pub record IsHex : Type 0 where
    pub sha2_256 : (b : Bytes) → NoColon (hashes.sha2_256 b)
    pub sha2_512_trunc256 : (b : Bytes) → NoColon (hashes.sha2_512_trunc256 b)
    pub sha2_512 : (b : Bytes) → NoColon (hashes.sha2_512 b)
    pub sha3_256 : (b : Bytes) → NoColon (hashes.sha3_256 b)
    pub sha3_512 : (b : Bytes) → NoColon (hashes.sha3_512 b)

  -- SHA-1, the default algorithm, is refused, and each other algorithm gives a digest of its hash that
  -- names it and the source.
  pub from_bytes_lem :
      (b : Bytes) (algo : DigestAlgorithm) (src : DigestSource)
      → ((algo ≡ sha1) × (from_bytes hashes b algo src ≡ err (unknown_algorithm "sha1")))
        ⊎ ((d : Digest) × (algo ≢ sha1)
            × (from_bytes hashes b algo src ≡ ok d)
            × (hash_with hashes algo b ≡ some d.hash)
            × (d.algorithm ≡ algo)
            × (d.source ≡ src))
  unfolding from_bytes algorithm_name
  from_bytes_lem b sha1 src = inl (refl, refl)
  from_bytes_lem b _ src = inr (_, cc, refl, refl, refl, refl)

  from_bytes-NoColon :
      (b : Bytes) (algo : DigestAlgorithm) (src : DigestSource) (d : Digest)
      → IsHex
      → from_bytes hashes b algo src ≡ ok d
      → NoColon d.hash
  unfolding from_bytes
  from_bytes-NoColon b sha1 src d h e = cc
  from_bytes-NoColon b _ src d h e =
      ground (arith, h.sha2_256 b, h.sha2_512_trunc256 b, h.sha2_512 b, h.sha3_256 b, h.sha3_512 b)

  -- A computed digest is read back from its text, where no printed hash holds a colon.
  pub from_str-display_of_from_bytes :
      (b : Bytes) (algo : DigestAlgorithm) (src : DigestSource) (d : Digest)
      → IsHex
      → from_bytes hashes b algo src ≡ ok d
      → from_str (display d) ≡ ok d
  from_str-display_of_from_bytes b algo src d h e =
      from_str-display d (from_bytes-NoColon b algo src d h e)
