-- ===== src/MountSecurity/Defaults.antt =====
-- That an allow list keeps the default blocked patterns.
use multi_user_agent_platfor.Base.{
  Bool, true, false, Option, none, some, List, [], ◌∷◌, ◌++◌, String, ◌==◌, exists, In, All, inl,
  inr, Bool-cases, All-of_In,
}
use multi_user_agent_platfor.MountSecurity.Allowlist.{
  MountAllowlist, AllowlistFile, absent, unreadable, parsed, AllowlistCache,
  default_blocked_patterns, merge_patterns, read_allowlist, load_with, load_mount_allowlist,
}

-- A cached allow list has the default patterns.
abbrev pub HasDefaults : Option MountAllowlist → Type 0
HasDefaults none = Unit
HasDefaults (some allowlist) = All (λ p. In p allowlist.blocked_patterns) default_blocked_patterns

In-append_left : (xs ys : List String) (p : String) → In p xs → In p (xs ++ ys)
In-append_left [] ys p m = absurd m
In-append_left (x ∷ xs) ys p (inl e) = inl e
In-append_left (x ∷ xs) ys p (inr m) = inr (In-append_left xs ys p m)

-- Merging keeps what is there.
In-merge_patterns : (ps seen : List String) (p : String) → In p seen → In p (merge_patterns seen ps)
unfolding merge_patterns
In-merge_patterns [] seen p m = m
In-merge_patterns (q ∷ qs) seen p m = elim (Bool-cases (exists (λ x. x == q) seen)) [
  | inl there ↦ rw there (In-merge_patterns qs seen p m)
  | inr new ↦ rw new (In-merge_patterns qs (seen ++ q ∷ []) p (In-append_left seen (q ∷ []) p m))
]

read_allowlist-HasDefaults :
    (file : AllowlistFile) (cache : AllowlistCache)
    → HasDefaults cache.allowlist
    → HasDefaults (read_allowlist file cache).allowlist
unfolding read_allowlist
read_allowlist-HasDefaults absent cache h = h
read_allowlist-HasDefaults unreadable cache h = tt
read_allowlist-HasDefaults (parsed none ps) cache h = tt
read_allowlist-HasDefaults (parsed (some roots) none) cache h = tt
read_allowlist-HasDefaults (parsed (some roots) (some ps)) cache h =
    All-of_In (λ p. In p (merge_patterns default_blocked_patterns ps)) default_blocked_patterns
      (λ p m. In-merge_patterns ps default_blocked_patterns p m)

load_with-HasDefaults :
    (o : Option MountAllowlist) (b : Bool) (file : AllowlistFile) (cache : AllowlistCache)
    → HasDefaults cache.allowlist
    → HasDefaults (load_with o b file cache).allowlist
unfolding load_with
load_with-HasDefaults (some a) b file cache h = h
load_with-HasDefaults none true file cache h = h
load_with-HasDefaults none false file cache h = read_allowlist-HasDefaults file cache h

pub load_mount_allowlist-HasDefaults :
    (file : AllowlistFile) (cache : AllowlistCache)
    → HasDefaults cache.allowlist
    → HasDefaults (load_mount_allowlist file cache).allowlist
unfolding load_mount_allowlist
load_mount_allowlist-HasDefaults file cache h =
    load_with-HasDefaults cache.allowlist cache.load_failed file cache h
