-- ===== src/Digest/Parsing.antt =====
-- `Digest::from_str` against `Display for Digest`.
use ips.Base.{◌≢◌, String, ◌≡◌, refl, ◌∙◌, Bool, true, false, some, ◌∷◌, arith, ◌||◌}
use ips.Base.Outcome.{ok, err, panic}
use ips.Base.Text.{◌<>◌, contains_char, split}
use ips.Base.Text.Laws.{split-none, split-at, contains-append}
use ips.Digest.{
  Digest, DigestAlgorithm, sha1, DigestSource, gzip_compressed, primary_payload_hash,
  invalid_digest_format, algorithm_name, source_name, algorithm_named, source_named,
  source_or_unknown, with_algorithm, from_parts, from_str, display,
}

-- A text that holds no colon.
abbrev pub NoColon : String → Type 0
NoColon s = contains_char b':' s ≡ false

algorithm_named-name : (a : DigestAlgorithm) → algorithm_named (algorithm_name a) ≡ some a
unfolding algorithm_named algorithm_name
algorithm_named-name sha1 = refl
algorithm_named-name _ = refl

source_named-name : (s : DigestSource) → source_named (source_name s) ≡ some s
unfolding source_named source_name
source_named-name gzip_compressed = refl
source_named-name _ = refl

algorithm_name-NoColon : (a : DigestAlgorithm) → NoColon (algorithm_name a)
unfolding algorithm_name contains_char
algorithm_name-NoColon sha1 = refl
algorithm_name-NoColon _ = refl

source_name-NoColon : (s : DigestSource) → NoColon (source_name s)
unfolding source_name contains_char
source_name-NoColon gzip_compressed = refl
source_name-NoColon _ = refl

or_true : (b : Bool) → (b || true) ≡ true
or_true b = ground arith

-- The parts of `a:b`, where `a` holds no colon.
split-colon : (a b : String) → NoColon a → split b':' (a <> ":" <> b) ≡ a ∷ split b':' b
split-colon a b h = split-at b':' _ a b refl h

contains-colon : (a b : String) → contains_char b':' (a <> ":" <> b) ≡ true
unfolding contains_char
contains-colon a b = rw contains-append (or_true (contains_char b':' a))

-- What `from_str` does with a text that holds a colon.
from_str-split :
    (a b : String)
    → NoColon a
    → from_str (a <> ":" <> b) ≡ from_parts (a <> ":" <> b) (a ∷ split b':' b)
unfolding from_str
from_str-split a b h = rw (contains-colon a b, split-colon a b h)

-- How a text is read, by its number of colons: with none it is a SHA-1 hash, with one it is refused,
-- with two or more its first three parts are the source, the algorithm and the hash. The parts before
-- the last hold no colon.
pub from_str_fields :
    (a b c rest : String)
    → NoColon a
    → NoColon b
    → NoColon c
    → (from_str a ≡ ok (record { hash = a; algorithm = sha1; source = primary_payload_hash }))
      × (from_str (a <> ":" <> b)
          ≡ err (invalid_digest_format (a <> ":" <> b) "cannot split into 3 parts"))
      × (from_str (a <> ":" <> b <> ":" <> c)
          ≡ with_algorithm b c (source_or_unknown (source_named a)) (algorithm_named b))
      × (from_str (a <> ":" <> b <> ":" <> c <> ":" <> rest)
          ≡ with_algorithm b c (source_or_unknown (source_named a)) (algorithm_named b))
unfolding from_str from_parts
from_str_fields a b c rest ha hb hc = (
  rw ha,
  from_str-split a b ha ∙ rw (split-none b':' b hb),
  from_str-split a (b <> ":" <> c) ha ∙ rw (split-colon b c hb, split-none b':' c hc),
  from_str-split a (b <> ":" <> c <> ":" <> rest) ha
      ∙ rw (split-colon b (c <> ":" <> rest) hb, split-colon c rest hc),
)

-- Whatever is written for a digest is read back as that digest, if the hash holds no colon.
pub from_str-display : (d : Digest) → NoColon d.hash → from_str (display d) ≡ ok d
unfolding display
from_str-display d h =
    (from_str_fields (source_name d.source) (algorithm_name d.algorithm) d.hash ""
      (source_name-NoColon d.source) (algorithm_name-NoColon d.algorithm) h).2
    ∙ rw (source_named-name, algorithm_named-name)

pub from_str-ne-panic : (s : String) → from_str s ≢ panic
unfolding from_str from_parts
from_str-ne-panic s = ground arith
