-- ===== src/Payload.antt =====
-- libips/src/payload/mod.rs: what is recorded of the contents of a file.
pub mod Elf
use ips.Base.{Bytes, String, Bool, true, false, Option, none, some, List, [], ◌&&◌, if◌then◌else◌}
use ips.Base.Outcome.{Outcome, ok, err, map_err, ◌>>=◌}
use ips.Digest
use ips.Digest.{Digest, DigestError, sha3512, primary_payload_hash, Hashes, from_bytes}

pub data PayloadCompressionAlgorithm : Type 0 where
  gzip lz4 : PayloadCompressionAlgorithm

pub data PayloadBits : Type 0 where
  independent bits32 bits64 : PayloadBits

pub data PayloadArchitecture : Type 0 where
  noarch i386 sparc arm riscv : PayloadArchitecture

pub record Payload : Type 0 where
  pub primary_identifier : Digest
  pub additional_identifiers : List Digest
  pub compression_algorithm : PayloadCompressionAlgorithm
  pub bitness : PayloadBits
  pub architecture : PayloadArchitecture

-- `Payload::default()`.
abbrev pub default : Payload
default = record {
  primary_identifier = Digest.default;
  additional_identifiers = [];
  compression_algorithm = lz4;
  bitness = independent;
  architecture = noarch;
}

-- The comparisons with `==`, which are derived.
abbrev pub is_noarch : PayloadArchitecture → Bool
is_noarch noarch = true
is_noarch _ = false

abbrev pub is_independent : PayloadBits → Bool
is_independent independent = true
is_independent _ = false

-- `Payload::is_elf`.
unfoldable pub is_elf : Payload → Bool
is_elf p = is_noarch p.architecture && is_independent p.bitness

-- The crate `object`: its parser, and what it tells of a parsed file. The tests say which
-- constant of `object::Architecture` the architecture is.
pub record ObjectCrate : Type 1 where
  pub File : Type 0
  pub parse : Bytes → Option File
  pub is_64 : File → Bool
  pub Architecture : Type 0
  pub architecture : File → Architecture
  pub is_x86_64 : Architecture → Bool
  pub is_i386 : Architecture → Bool
  pub is_aarch64 : Architecture → Bool
  pub is_arm : Architecture → Bool

pub data PayloadError (IoError : Type 0) : Type 0 where
  io_error : IoError → PayloadError IoError
  digest_error : DigestError → PayloadError IoError

module _ (object : ObjectCrate) where
  open object use {File, parse, is_64, Architecture, is_x86_64, is_i386, is_aarch64, is_arm}

  -- The `match bin.architecture()`.
  abbrev pub payload_architecture : Architecture → PayloadArchitecture
  payload_architecture a =
      if is_x86_64 a
      then i386
      else if is_i386 a
      then i386
      else if is_aarch64 a
      then arm
      else if is_arm a
      then arm
      else noarch

  -- The `match object::File::parse(..)`.
  abbrev pub inspect : Option File → PayloadBits × PayloadArchitecture
  inspect none = (independent, noarch)
  inspect (some bin) =
      (if is_64 bin then bits64 else bits32, payload_architecture (object.architecture bin))

  module _ (hashes : Hashes) {IoError : Type 0} (read : String → Outcome IoError Bytes) where
    -- `Payload::compute_payload`; `read` is the file system.
    unfoldable pub compute_payload : String → Outcome (PayloadError IoError) Payload
    compute_payload path = do
      f ← map_err io_error (read path)
      let kind = inspect (parse f)
      digest ← map_err digest_error (from_bytes hashes f sha3512 primary_payload_hash)
      ok (record {
        primary_identifier = digest;
        additional_identifiers = [];
        compression_algorithm = lz4;
        bitness = kind.0;
        architecture = kind.1;
      })
