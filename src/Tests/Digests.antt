-- ===== src/Tests/Digests.antt =====
-- Digests and payloads on concrete inputs.
use ips.Base.{Bytes, String, ◌≡◌, refl, Bool, true, false, not, some, none, Option, [], ◌∷◌}
use ips.Base.Outcome.{Outcome, ok, err}
use ips.Base.Text.{◌<>◌, contains_char}
use ips.Base.Table.{is_some}
use ips.Digest.{
  Digest, sha1, sha256, gzip_compressed, primary_payload_hash, invalid_digest_format, Hashes,
  with_algorithm, source_or_unknown, source_named, algorithm_named, hash_with, from_bytes, from_str,
  display,
}
use ips.Digest.Parsing.{NoColon, from_str_fields, from_str-display}
use ips.Payload.{Payload, ObjectCrate, is_elf, compute_payload}
use ips.Payload.Elf.{recorded, is_elf-compute_payload}

abbrev gzip_digest : Digest
gzip_digest = record { hash = "0b0f"; algorithm = sha256; source = gzip_compressed }

gzip_digest-NoColon : NoColon gzip_digest.hash
unfolding contains_char
gzip_digest-NoColon = refl

from_str-display_example : from_str (display gzip_digest) ≡ ok gzip_digest
from_str-display_example = from_str-display gzip_digest gzip_digest-NoColon

short-NoColon : NoColon "gelf" × NoColon "sha1" × NoColon "abc"
unfolding contains_char
short-NoColon = (refl, refl, refl)

from_str_fields_example :
    (from_str "gelf"
      ≡ ok (record { hash = "gelf"; algorithm = sha1; source = primary_payload_hash }))
    × (from_str ("gelf" <> ":" <> "sha1")
        ≡ err (invalid_digest_format ("gelf" <> ":" <> "sha1") "cannot split into 3 parts"))
    × (from_str ("gelf" <> ":" <> "sha1" <> ":" <> "abc")
        ≡ with_algorithm "sha1" "abc"
            (source_or_unknown (source_named "gelf"))
            (algorithm_named "sha1"))
    × (from_str ("gelf" <> ":" <> "sha1" <> ":" <> "abc" <> ":" <> "x")
        ≡ with_algorithm "sha1" "abc"
            (source_or_unknown (source_named "gelf"))
            (algorithm_named "sha1"))
from_str_fields_example =
    from_str_fields "gelf" "sha1" "abc" "x" short-NoColon.0 short-NoColon.1 short-NoColon.2

-- Hashes that tell the functions apart, and whether there were any bytes.
abbrev tagged : String → Bytes → String
tagged tag [] = tag <> "0"
tagged tag (b ∷ bs) = tag <> "1"

abbrev small_hashes : Hashes
small_hashes = record {
  sha2_256 = tagged "a";
  sha2_512_trunc256 = tagged "b";
  sha2_512 = tagged "c";
  sha3_256 = tagged "d";
  sha3_512 = tagged "e";
}

abbrev some_bytes : Bytes
some_bytes = 127 ∷ 69 ∷ []

-- A parser that takes the files that are not empty.
abbrev small_parse : Bytes → Option Bytes
small_parse [] = none
small_parse (b ∷ bs) = some bs

abbrev small_object : ObjectCrate
small_object = record {
  File = Bytes;
  parse = small_parse;
  is_64 = λ f. true;
  Architecture = Bool;
  architecture = λ f. true;
  is_x86_64 = λ a. a;
  is_i386 = λ a. false;
  is_aarch64 = λ a. not a;
  is_arm = λ a. false;
}

abbrev small_read : String → Outcome String Bytes
small_read path = ok some_bytes

abbrev some_payload : Payload
some_payload = recorded small_object small_hashes small_read some_bytes

compute_payload-some_bytes :
    compute_payload small_object small_hashes small_read "a.out" ≡ ok some_payload
unfolding compute_payload from_bytes hash_with
compute_payload-some_bytes = refl

is_elf-compute_payload_example : is_elf some_payload ≡ not (is_some (small_object.parse some_bytes))
is_elf-compute_payload_example =
    is_elf-compute_payload small_object small_hashes small_read "a.out" some_bytes some_payload refl
      compute_payload-some_bytes
