-- ===== src/Version.antt =====
-- gumble/version.go, packSemver and the initial Version packet of DialWithDialer in gumble/client.go.
-- `fmt.Sscanf(s, "%d.%d.%d", …)` is given by its outcome: the three uint32 values that it stores, or
-- `none` where it returns an error or stores fewer.
pub mod Packing
use gumble.Prelude.{
  ℕ, ◌*◌, ◌/◌, ◌%◌, ◌^◌, Bool, true, false, ◌||◌, Option, none, some, List, [], ◌∷◌, ltb,
  if◌then◌else◌, bit_and, bit_or,
}

-- (*Version).SemanticVersion: major, minor and patch.
unfoldable pub semantic_version : ℕ → ℕ × ℕ × ℕ
semantic_version v = (
  bit_and (v / 2 ^ 16 % 2 ^ 16) 0xffff,
  bit_and (v / 2 ^ 8 % 2 ^ 8) 0xff,
  bit_and (v % 2 ^ 8) 0xff,
)

abbrev pub Scanned : Type 0
Scanned = Option (ℕ × ℕ × ℕ)

-- packSemver; `none` is its error.
unfoldable pub pack_semver : Scanned → Option ℕ
pack_semver none = none
pack_semver (some (maj, min, pat)) =
    if ltb 0xffff maj || ltb 0xff min || ltb 0xff pat
    then none
    else some (bit_or (bit_or (maj * 2 ^ 16) (min * 2 ^ 8)) pat)

abbrev pub Text : Type 0
Text = List ℕ

-- Version of gumble/version.go.
pub record Version : Type 0 where
  pub version : ℕ
  pub release : Text
  pub os : Text
  pub os_version : Text

-- The packet MumbleProto.Version as it is received.
pub record ReceivedVersion : Type 0 where
  pub version : Option ℕ
  pub release : Option Text
  pub os : Option Text
  pub os_version : Option Text

abbrev pub or_else {ℓ} : {A : Type ℓ} → A → Option A → A
or_else d none = d
or_else d (some a) = a

-- parseVersion of gumble/handlers.go.
unfoldable pub parse_version : ReceivedVersion → Version
parse_version p = record {
  version = or_else 0 p.version;
  release = or_else [] p.release;
  os = or_else [] p.os;
  os_version = or_else [] p.os_version;
}

-- VersionOverride of gumble/config.go.
pub record VersionOverride : Type 0 where
  pub release : Text
  pub os : Text
  pub os_version : Text
  pub semver : Text
  pub version_uint32 : Option ℕ

-- MumbleProto.Version.
pub record VersionPacket : Type 0 where
  pub version : ℕ
  pub release : Text
  pub os : Text
  pub os_version : Text

-- ClientVersion: 1 << 16 | 3 << 8 | 0.
abbrev pub client_version : ℕ
client_version = 0x10300

-- "gumble"
abbrev pub default_release : Text
default_release = b'g' ∷ b'u' ∷ b'm' ∷ b'b' ∷ b'l' ∷ b'e' ∷ []

-- `if s != "" { d = s }`
abbrev pub or_default : Text → Text → Text
or_default [] d = d
or_default (x ∷ s) d = x ∷ s

-- The shifts are on uint32, so they wrap.
abbrev pub pack_build : ℕ → ℕ → ℕ
pack_build maj min = bit_or (bit_or (maj * 2 ^ 16 % 2 ^ 32) (min * 2 ^ 8 % 2 ^ 32)) 0

-- The version number and the release for an override's Semver; `build` is the text that
-- `fmt.Sprintf("%d.%d.%d", maj, min, build)` gives.
unfoldable pub semver_version : Scanned → Text → Text → ℕ × Text
unfolding pack_semver
semver_version none build release = (client_version, release)
semver_version (some (maj, min, pat)) build release = elim (pack_semver (some (maj, min, pat))) [
  | some packed ↦ (packed, release)
  | none ↦ (pack_build maj min, or_default release build)
]

-- `if vo.VersionUint32 != nil { … } else if vo.Semver != "" { … }`
unfoldable pub override_version :
    (Text → Scanned) → (Text → Text) → Option ℕ → Text → Text → ℕ × Text
unfolding semver_version
override_version scan print (some v) semver release = (v, release)
override_version scan print none [] release = (client_version, release)
override_version scan print none (x ∷ s) release =
    semver_version (scan (x ∷ s)) (print (x ∷ s)) release

-- The Version packet that DialWithDialer sends; `goos` and `goarch` are the runtime's names, and
-- `scan` and `print` stand for `Sscanf` and `Sprintf` on the override's Semver.
unfoldable pub version_packet :
    (Text → Scanned) → (Text → Text) → Text → Text → Option VersionOverride → VersionPacket
version_packet scan print goos goarch none = record {
  version = client_version;
  release = default_release;
  os = goos;
  os_version = goarch;
}
version_packet scan print goos goarch (some vo) =
    let r =
      override_version scan print vo.version_uint32 vo.semver
        (or_default vo.release default_release) in
    record {
      version = r.0;
      release = r.1;
      os = or_default vo.os goos;
      os_version = or_default vo.os_version goarch;
    }
