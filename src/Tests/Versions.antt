-- ===== src/Tests/Versions.antt =====
-- The newest version of a package on concrete inputs.
use Prim.Native.Nat.{ℕ}
use ips.Base.{String, ◌≡◌, ◌↔◌, ◌⊎◌, none, some, List, [], ◌∷◌, leb, ◌==◌, if◌then◌else◌}
use ips.Base.Outcome.{Outcome, ok, panic}
use ips.Userland.Repology.{Package, Semver, find_newest_version}
use ips.Userland.Repology.Newest.{find_newest_version-panic}

-- Versions of one digit.
abbrev digits : Semver
digits = record {
  Version = ℕ;
  parse = λ s. if s == "1" then some 1 else if s == "2" then some 2 else none;
  first_version = 0;
  le = leb;
  to_string = λ v. if leb 2 v then "2" else "1";
}

abbrev package_of : String → Package
package_of version = record {
  repo = "openindiana";
  name = none;
  version = version;
  sub_repo = none;
  orig_version = none;
  status = none;
  summary = none;
  family = none;
  categories = none;
  licenses = none;
  maintainers = none;
  www = none;
  downloads = none;
}

abbrev three_known : String → Outcome String (List Package)
three_known name = ok (package_of "1" ∷ package_of "2" ∷ package_of "x" ∷ [])

find_newest_version-panic_example :
    (find_newest_version digits three_known "tar" ≡ panic)
    ↔ ((three_known "tar" ≡ panic) ⊎ (three_known "tar" ≡ ok []))
find_newest_version-panic_example = find_newest_version-panic digits three_known "tar"
