-- ===== src/MountSecurity/Validate.antt =====
-- `validateMount` and `validateAdditionalMounts` of src/modules/mount-security/index.ts. Paths and the
-- file system are a parameter.
use Prim.Native.String
use multi_user_agent_platfor.Base.{
  Bool, true, false, not, ◌&&◌, ◌||◌, Option, none, some, List, [], ◌∷◌, String, ◌==◌,
  if◌then◌else◌, truthy, coalesce, is_null, exists,
}
use multi_user_agent_platfor.MountSecurity.Allowlist.{
  AllowedRoot, MountAllowlist, AllowlistFile, AllowlistCache, load_mount_allowlist,
}

pub record Paths : Type 0 where
  -- `process.env.HOME || os.homedir()`
  pub home : String
  -- `path.join`, `path.resolve`, `path.basename`, `path.relative`, `path.isAbsolute`
  pub join : (directory name : String) → String
  pub resolve : String → String
  pub basename : String → String
  pub relative : (from to : String) → String
  pub is_absolute : String → Bool
  -- `text.split(path.sep)`
  pub components : String → List String
  -- `fs.realpathSync`; `none` where it throws
  pub real_path : String → Option String
  -- `text.includes(part)`, `text.startsWith(prefix)`
  pub includes : (text part : String) → Bool
  pub starts_with : (text prefix : String) → Bool
  -- `text.slice(2)`, `text.trim()`
  pub slice_from_two : String → String
  pub trim : String → String

pub record AdditionalMount : Type 0 where
  pub host_path : String
  pub container_path : Option String
  pub readonly : Option Bool

pub record MountValidationResult : Type 0 where
  pub real_host_path : String
  pub resolved_container_path : String
  pub effective_readonly : Bool

module _ (paths : Paths) where
  unfoldable pub expand_path : String → String
  expand_path p =
      if paths.starts_with p "~/"
      then paths.join paths.home (paths.slice_from_two p)
      else if p == "~"
      then paths.home
      else paths.resolve p

  abbrev pub get_real_path : String → Option String
  get_real_path p = paths.real_path p

  abbrev pub part_matches : String → String → Bool
  part_matches pattern part = part == pattern || paths.includes part pattern

  unfoldable pub matches_blocked_pattern : String → List String → Option String
  matches_blocked_pattern real_path [] = none
  matches_blocked_pattern real_path (pattern ∷ patterns) =
      if exists (part_matches pattern) (paths.components real_path)
        || paths.includes real_path pattern
      then some pattern
      else matches_blocked_pattern real_path patterns

  abbrev pub is_under : String → String → Bool
  is_under real_path real_root =
      let relative = paths.relative real_root real_path in
      not (paths.starts_with relative "..") && not (paths.is_absolute relative)

  abbrev pub under_root : String → Option String → Bool
  under_root real_path none = false
  under_root real_path (some real_root) = is_under real_path real_root

  unfoldable pub find_allowed_root : String → List AllowedRoot → Option AllowedRoot
  find_allowed_root real_path [] = none
  find_allowed_root real_path (root ∷ roots) =
      if under_root real_path (get_real_path (expand_path root.path))
      then some root
      else find_allowed_root real_path roots

  unfoldable pub is_valid_container_path : String → Bool
  is_valid_container_path p =
      not (paths.includes p "..")
      && not (paths.starts_with p "/")
      && not (p == "")
      && not (paths.trim p == "")
      && not (paths.includes p ":")

  abbrev pub requests_write : Option Bool → Bool
  requests_write (some false) = true
  requests_write _ = false

  abbrev pub container_path_of : AdditionalMount → String
  container_path_of mount =
      if truthy mount.container_path
      then coalesce mount.container_path ""
      else paths.basename mount.host_path

  abbrev pub allowed_under :
      Option AllowedRoot → AdditionalMount → String → Option MountValidationResult
  allowed_under none mount real_path = none
  allowed_under (some root) mount real_path = some (record {
    real_host_path = real_path;
    resolved_container_path = container_path_of mount;
    effective_readonly = not (requests_write mount.readonly && root.allow_read_write);
  })

  unfoldable pub validate_real_path :
      Option String → AdditionalMount → MountAllowlist → Option MountValidationResult
  validate_real_path none mount allowlist = none
  validate_real_path (some real_path) mount allowlist =
      if is_null (matches_blocked_pattern real_path allowlist.blocked_patterns)
      then allowed_under (find_allowed_root real_path allowlist.allowed_roots) mount real_path
      else none

  -- `none` where the mount is not allowed; the reason is only logged.
  unfoldable pub validate_with :
      Option MountAllowlist → AdditionalMount → Option MountValidationResult
  validate_with none mount = none
  validate_with (some allowlist) mount =
      if is_valid_container_path (container_path_of mount)
      then validate_real_path (get_real_path (expand_path mount.host_path)) mount allowlist
      else none

  unfoldable pub validate_mount :
      AllowlistFile → AllowlistCache → AdditionalMount → Option MountValidationResult
  validate_mount file cache mount = validate_with (load_mount_allowlist file cache).allowlist mount

  abbrev pub add_validated :
      Option MountValidationResult → List MountValidationResult → List MountValidationResult
  add_validated none rest = rest
  add_validated (some result) rest =
      record result {
        resolved_container_path = String.◌++◌ "/workspace/extra/" result.resolved_container_path;
      }
      ∷ rest

  -- The file may change from one mount to the next, so each comes with what it holds then.
  unfoldable pub validate_additional_mounts :
      AllowlistCache
      → List (AllowlistFile × AdditionalMount)
      → List MountValidationResult × AllowlistCache
  validate_additional_mounts cache [] = ([], cache)
  validate_additional_mounts cache ((file, mount) ∷ more) =
      let (rest, last) = validate_additional_mounts (load_mount_allowlist file cache) more in
      (add_validated (validate_mount file cache mount) rest, last)
