-- ===== src/Digest.antt =====
-- libips/src/digest/mod.rs: payload digests, their text form and how they are computed.
pub mod Parsing
pub mod Hashing
use ips.Base.{
  Bytes, String, Bool, true, false, Option, none, some, List, [], ◌∷◌, not, ◌==◌, if◌then◌else◌,
}
use ips.Base.Outcome.{Outcome, ok, err, panic, ◌>>=◌}
use ips.Base.Text.{◌<>◌, contains_char, split}

pub data DigestAlgorithm : Type 0 where
  sha1 sha256 sha512 sha512_half sha3256 sha3512_half sha3512 : DigestAlgorithm

pub data DigestSource : Type 0 where
  gzip_compressed gnu_elf gnu_elf_unsigned uncompressed_file unknown : DigestSource
  primary_payload_hash : DigestSource

-- The names that `strum` writes.
unfoldable pub algorithm_name : DigestAlgorithm → String
algorithm_name sha1 = "sha1"
algorithm_name sha256 = "sha256t"
algorithm_name sha512 = "sha512t"
algorithm_name sha512_half = "sha512t_256"
algorithm_name sha3256 = "sha3256t"
algorithm_name sha3512_half = "sha3512t_256"
algorithm_name sha3512 = "sha3512t"

-- A variant with no `serialize` attribute goes by its own name.
unfoldable pub source_name : DigestSource → String
source_name gzip_compressed = "gzip"
source_name gnu_elf = "gelf"
source_name gnu_elf_unsigned = "gelf.unsigned"
source_name uncompressed_file = "file"
source_name unknown = "unknown"
source_name primary_payload_hash = "PrimaryPayloadHash"

-- `try_into` from a text, as `strum::EnumString` derives it: the first variant of that name.
unfoldable pub algorithm_named : String → Option DigestAlgorithm
algorithm_named s =
    if s == "sha1"
    then some sha1
    else if s == "sha256t"
    then some sha256
    else if s == "sha512t"
    then some sha512
    else if s == "sha512t_256"
    then some sha512_half
    else if s == "sha3256t"
    then some sha3256
    else if s == "sha3512t_256"
    then some sha3512_half
    else if s == "sha3512t"
    then some sha3512
    else none

unfoldable pub source_named : String → Option DigestSource
source_named s =
    if s == "gzip"
    then some gzip_compressed
    else if s == "gelf"
    then some gnu_elf
    else if s == "gelf.unsigned"
    then some gnu_elf_unsigned
    else if s == "file"
    then some uncompressed_file
    else if s == "unknown"
    then some unknown
    else if s == "PrimaryPayloadHash"
    then some primary_payload_hash
    else none

pub record Digest : Type 0 where
  pub hash : String
  pub algorithm : DigestAlgorithm
  pub source : DigestSource

-- `Digest::default()`.
abbrev pub default : Digest
default = record { hash = ""; algorithm = sha1; source = primary_payload_hash }

pub data DigestError : Type 0 where
  unknown_algorithm : (algorithm : String) → DigestError
  invalid_digest_format : (digest details : String) → DigestError

-- `unwrap_or(DigestSource::Unknown)`.
abbrev pub source_or_unknown : Option DigestSource → DigestSource
source_or_unknown none = unknown
source_or_unknown (some s) = s

abbrev pub with_algorithm :
    String → String → DigestSource → Option DigestAlgorithm → Outcome DigestError Digest
with_algorithm name hash source none = err (unknown_algorithm name)
with_algorithm name hash source (some a) =
    ok (record { hash = hash; algorithm = a; source = source })

-- The parts behind the test of their number; a fourth part is not looked at.
unfoldable pub from_parts : String → List String → Outcome DigestError Digest
from_parts s (a ∷ b ∷ c ∷ rest) =
    with_algorithm b c (source_or_unknown (source_named a)) (algorithm_named b)
from_parts s _ = err (invalid_digest_format s "cannot split into 3 parts")

-- `Digest::from_str`.
unfoldable pub from_str : String → Outcome DigestError Digest
unfolding from_parts
from_str s =
    if not (contains_char b':' s)
    then ok (record { hash = s; algorithm = sha1; source = primary_payload_hash })
    else from_parts s (split b':' s)

-- `Display for Digest`.
unfoldable pub display : Digest → String
display d = source_name d.source <> ":" <> algorithm_name d.algorithm <> ":" <> d.hash

-- The crates `sha2` and `sha3`: the digest of some bytes, printed by `{:x}`.
pub record Hashes : Type 0 where
  pub sha2_256 : Bytes → String
  pub sha2_512_trunc256 : Bytes → String
  pub sha2_512 : Bytes → String
  pub sha3_256 : Bytes → String
  pub sha3_512 : Bytes → String

module _ (hashes : Hashes) where
  -- The `match algo` of `from_bytes`; `none` is its last arm.
  unfoldable pub hash_with : DigestAlgorithm → Bytes → Option String
  hash_with sha256 b = some (hashes.sha2_256 b)
  hash_with sha512_half b = some (hashes.sha2_512_trunc256 b)
  hash_with sha512 b = some (hashes.sha2_512 b)
  hash_with sha3512_half b = some (hashes.sha3_256 b)
  hash_with sha3256 b = some (hashes.sha3_256 b)
  hash_with sha3512 b = some (hashes.sha3_512 b)
  hash_with sha1 b = none

  abbrev pub with_hash : DigestAlgorithm → DigestSource → Option String → Outcome DigestError Digest
  with_hash algo src none = err (unknown_algorithm (algorithm_name algo))
  with_hash algo src (some h) = ok (record { hash = h; algorithm = algo; source = src })

  -- `Digest::from_bytes`.
  unfoldable pub from_bytes : Bytes → DigestAlgorithm → DigestSource → Outcome DigestError Digest
  unfolding hash_with
  from_bytes b algo src = with_hash algo src (hash_with algo b)
