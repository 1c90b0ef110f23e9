-- ===== src/Payload/Elf.antt =====
-- What `compute_payload` records, and what `is_elf` says of it.
use ips.Base.{Bytes, String, not, ◌≡◌, [], arith}
use ips.Base.Outcome.{Outcome, ok, map_err, ◌>>=◌}
use ips.Base.Table.{is_some}
use ips.Digest.{sha3512, primary_payload_hash, Hashes, from_bytes}
use ips.Payload.{Payload, lz4, ObjectCrate, io_error, inspect, is_elf, compute_payload}

module _ (object : ObjectCrate) (hashes : Hashes) {IoError : Type 0}
    (read : String → Outcome IoError Bytes) where
  -- What is recorded of a file with the bytes `f`.
  abbrev pub recorded : Bytes → Payload
  recorded f = record {
    primary_identifier = record {
      hash = hashes.sha3_512 f;
      algorithm = sha3512;
      source = primary_payload_hash;
    };
    additional_identifiers = [];
    compression_algorithm = lz4;
    bitness = (inspect object (object.parse f)).0;
    architecture = (inspect object (object.parse f)).1;
  }

  -- Only reading the file can fail: the payload records the SHA3-512 digest of the bytes, with what the
  -- crate `object` tells of them.
  pub compute_payload_lem :
      (path : String)
      → compute_payload object hashes read path
        ≡ (map_err io_error (read path) >>= λ f. ok (recorded f))
  unfolding compute_payload from_bytes
  compute_payload_lem path = ground arith

  -- Where a file is read and its payload computed, `is_elf` of the payload is true if `object` cannot
  -- parse the file and false if it can.
  pub is_elf-compute_payload :
      (path : String) (f : Bytes) (p : Payload)
      → read path ≡ ok f
      → compute_payload object hashes read path ≡ ok p
      → is_elf p ≡ not (is_some (object.parse f))
  unfolding is_elf compute_payload from_bytes
  is_elf-compute_payload path f p r e = ground arith
