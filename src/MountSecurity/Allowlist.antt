-- ===== src/MountSecurity/Allowlist.antt =====
-- `loadMountAllowlist` of src/modules/mount-security/index.ts and its cache.
use multi_user_agent_platfor.Base.{
  Bool, true, false, Option, none, some, List, [], ◌∷◌, ◌++◌, String, ◌==◌, if◌then◌else◌, exists,
}

pub record AllowedRoot : Type 0 where
  pub path : String
  pub allow_read_write : Bool
  pub description : Option String

pub record MountAllowlist : Type 0 where
  pub allowed_roots : List AllowedRoot
  pub blocked_patterns : List String

-- What the file holds when it is read. A list is `none` where the JSON has no array there.
pub data AllowlistFile : Type 0 where
  absent : AllowlistFile
  -- it cannot be read or parsed
  unreadable : AllowlistFile
  parsed :
      (allowed_roots : Option (List AllowedRoot)) (blocked_patterns : Option (List String))
      → AllowlistFile

-- `cachedAllowlist`, and whether `allowlistLoadError` is set
pub record AllowlistCache : Type 0 where
  pub allowlist : Option MountAllowlist
  pub load_failed : Bool

abbrev pub default_blocked_patterns : List String
default_blocked_patterns =
    ".ssh" ∷ ".gnupg" ∷ ".gpg" ∷ ".aws" ∷ ".azure" ∷ ".gcloud" ∷ ".kube" ∷ ".docker" ∷ "credentials"
    ∷ ".env" ∷ ".netrc" ∷ ".npmrc" ∷ ".pypirc" ∷ "id_rsa" ∷ "id_ed25519" ∷ "private_key" ∷ ".secret"
    ∷ []

-- `[...new Set([...seen, ...patterns])]`, where `seen` has no text twice
unfoldable pub merge_patterns : List String → List String → List String
merge_patterns seen [] = seen
merge_patterns seen (p ∷ ps) =
    merge_patterns (if exists (λ q. q == p) seen then seen else seen ++ p ∷ []) ps

abbrev pub failed_load : AllowlistCache
failed_load = record { allowlist = none; load_failed = true }

abbrev pub loaded : List AllowedRoot → List String → AllowlistCache
loaded roots patterns = record {
  allowlist = some (record {
    allowed_roots = roots;
    blocked_patterns = merge_patterns default_blocked_patterns patterns;
  });
  load_failed = false;
}

unfoldable pub read_allowlist : AllowlistFile → AllowlistCache → AllowlistCache
read_allowlist absent cache = cache
read_allowlist unreadable cache = failed_load
read_allowlist (parsed none patterns) cache = failed_load
read_allowlist (parsed (some roots) none) cache = failed_load
read_allowlist (parsed (some roots) (some patterns)) cache = loaded roots patterns

unfoldable pub load_with :
    Option MountAllowlist → Bool → AllowlistFile → AllowlistCache → AllowlistCache
load_with (some allowlist) load_failed file cache = cache
load_with none true file cache = cache
load_with none false file cache = read_allowlist file cache

-- The allow list is what the cache holds afterwards.
unfoldable pub load_mount_allowlist : AllowlistFile → AllowlistCache → AllowlistCache
load_mount_allowlist file cache = load_with cache.allowlist cache.load_failed file cache
