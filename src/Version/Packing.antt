-- ===== src/Version/Packing.antt =====
-- A version number and its three parts.
use gumble.Prelude.{
  ℕ, ◌+◌, ◌*◌, ◌/◌, ◌%◌, ◌^◌, ◌<◌, ◌≡◌, refl, Option, none, some, [], ◌∷◌, bit_or, arith,
}
use gumble.Prelude.Bits.{bit_or_low, bit_and_low}
use gumble.Version.{
  semantic_version, pack_semver, version_packet, VersionOverride, override_version, semver_version,
  Scanned, Text, or_default, default_release,
}

packed_sum :
    (a b c : ℕ)
    → b < 2 ^ 8
    → c < 2 ^ 8
    → bit_or (bit_or (a * 2 ^ 16) (b * 2 ^ 8)) c ≡ a * 2 ^ 16 + b * 2 ^ 8 + c
packed_sum a b c hb hc = ground (arith, bit_or_low 16 a (b * 2 ^ 8), bit_or_low 8 (a * 2 ^ 8 + b) c)

parts :
    (a b c : ℕ)
    → a < 2 ^ 16
    → b < 2 ^ 8
    → c < 2 ^ 8
    → semantic_version (a * 2 ^ 16 + b * 2 ^ 8 + c) ≡ (a, b, c)
unfolding semantic_version
parts a b c ha hb hc =
    let v : ℕ = a * 2 ^ 16 + b * 2 ^ 8 + c in
    rw
      (
        bit_and_low 16 (v / 2 ^ 16 % 2 ^ 16),
        bit_and_low 8 (v / 2 ^ 8 % 2 ^ 8),
        bit_and_low 8 (v % 2 ^ 8),
      )
      (ground arith)

in_range :
    (maj min pat v : ℕ)
    → pack_semver (some (maj, min, pat)) ≡ some v
    → (maj < 2 ^ 16) × (min < 2 ^ 8) × (pat < 2 ^ 8)
unfolding pack_semver
in_range maj min pat v e = ground arith

-- Where the three parts fit 16, 8 and 8 bits, `packSemver` packs them into 32 bits, and
-- SemanticVersion gives them back.
semantic_version-pack_semver :
    (maj min pat : ℕ)
    → maj < 2 ^ 16
    → min < 2 ^ 8
    → pat < 2 ^ 8
    → (v : ℕ) × (pack_semver (some (maj, min, pat)) ≡ some v)
      × (v < 2 ^ 32)
      × (semantic_version v ≡ (maj, min, pat))
unfolding pack_semver
semantic_version-pack_semver maj min pat h k l = (
  maj * 2 ^ 16 + min * 2 ^ 8 + pat,
  ground (arith, packed_sum maj min pat),
  omega arith,
  parts maj min pat h k l,
)

-- What `packSemver` packs, SemanticVersion gives back: nothing that it takes is cut.
pack_semver-semantic_version :
    (maj min pat v : ℕ)
    → pack_semver (some (maj, min, pat)) ≡ some v
    → (semantic_version v ≡ (maj, min, pat)) × (v < 2 ^ 32)
pack_semver-semantic_version maj min pat v e =
    let (h, k, l) = in_range maj min pat v e in
    let (u, packed, bound, back) = semantic_version-pack_semver maj min pat h k l in
    (cc, grind (arith, packed, e, bound))

default_stays :
    (r d : Text) → or_default (or_default r default_release) d ≡ or_default r default_release
default_stays [] d = refl
default_stays (x ∷ r) d = refl

semver-release :
    (t : Scanned) (build r : Text)
    → (semver_version t build (or_default r default_release)).1 ≡ or_default r default_release
unfolding semver_version
semver-release none build r = refl
semver-release (some (maj, min, pat)) build r = ground (arith, default_stays r build)

override-release :
    (scan : Text → Scanned) (print : Text → Text) (v : Option ℕ) (semver r : Text)
    → (override_version scan print v semver (or_default r default_release)).1
      ≡ or_default r default_release
unfolding override_version
override-release scan print (some v) semver r = refl
override-release scan print none [] r = refl
override-release scan print none (x ∷ s) r = semver-release (scan (x ∷ s)) (print (x ∷ s)) r

-- An override that names a release keeps it, and one that names none gets the release "gumble", whatever its Semver is: also where the
-- Semver is a build number that does not fit and the version is cut to major and minor.
version_packet-release :
    (scan : Text → Scanned) (print : Text → Text) (goos goarch : Text) (vo : VersionOverride)
    → (version_packet scan print goos goarch (some vo)).release
      ≡ or_default vo.release default_release
unfolding version_packet
version_packet-release scan print goos goarch vo =
    override-release scan print vo.version_uint32 vo.semver vo.release
