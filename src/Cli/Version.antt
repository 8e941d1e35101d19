-- ===== src/Cli/Version.antt =====
-- cmd/pg-migrate/version.go: the version that the command prints.
use pg_migrate.Prelude.{
  ℕ, not, ◌&&◌, Option, none, some, List, [], ◌∷◌, ◌++◌, if◌then◌else◌, is_nil, take, length, ltb,
}
use pg_migrate.Text.{Bytes, codes, equal}

-- `debug.BuildInfo`: a parameter, as the toolchain writes it
pub record BuildInfo : Type 0 where
  pub main_version : Bytes
  pub go_version : Bytes
  pub settings : List (Bytes × Bytes)

-- `devVersion`
abbrev pub dev_version : Bytes
dev_version = codes "dev"

-- `shortRevisionLength`
abbrev pub short_revision_length : ℕ
short_revision_length = 12

-- The value of the last setting with this key; the loops keep the last, and begin with "".
unfoldable pub last_setting : Bytes → Bytes → List (Bytes × Bytes) → Bytes
unfolding equal
last_setting key found [] = found
last_setting key found ((k, v) ∷ settings) =
    last_setting key (if equal k key then v else found) settings

-- `revisionFrom`
unfoldable pub revision_from : BuildInfo → Bytes
unfolding last_setting
revision_from info =
    let revision = last_setting (codes "vcs.revision") [] info.settings in
    let modified = last_setting (codes "vcs.modified") [] info.settings in
    let short =
      if ltb short_revision_length (length revision)
      then take short_revision_length revision
      else revision in
    if is_nil revision
    then dev_version
    else if equal modified (codes "true")
    then short ++ codes "-dirty"
    else short

abbrev pub built_version : Option BuildInfo → Bytes
built_version none = dev_version
built_version (some info) =
    if not (is_nil info.main_version) && not (equal info.main_version (codes "(devel)"))
    then info.main_version
    else revision_from info

-- `resolveVersion`
unfoldable pub resolve_version : Bytes → Option BuildInfo → Bytes
unfolding revision_from
resolve_version stamped info =
    if not (is_nil stamped) && not (equal stamped dev_version) then stamped else built_version info

-- `strings.Join(parts, " ")` of two parts that may be missing
abbrev pub join_parts : Bytes → Bytes → Bytes
join_parts [] b = b
join_parts (c ∷ a) [] = c ∷ a
join_parts (c ∷ a) (d ∷ b) = (c ∷ a) ++ b' ' ∷ d ∷ b

-- `buildDetails`
unfoldable pub build_details : Option BuildInfo → Bytes
unfolding last_setting
build_details none = []
build_details (some info) =
    let goos = last_setting (codes "GOOS") [] info.settings in
    let goarch = last_setting (codes "GOARCH") [] info.settings in
    let platform = if not (is_nil goos) && not (is_nil goarch) then goos ++ b'/' ∷ goarch else [] in
    let parts = join_parts info.go_version platform in
    if is_nil parts then [] else codes " (" ++ (parts ++ b')' ∷ [])
