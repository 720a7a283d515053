-- ===== src/MountSecurity/Safety.antt =====
-- What a mount that is allowed has passed.
use Prim.Native.String
use multi_user_agent_platfor.Base.{
  Bool, true, false, ◌||◌, Option, none, some, List, [], ◌∷◌, String, ◌≡◌, refl, arith, is_null,
  exists, In, All, inl, inr, Bool-cases, ◌∙◌, sym, subst, some-injective, All-of_In, All-In,
}
use multi_user_agent_platfor.MountSecurity.Allowlist.{
  AllowedRoot, MountAllowlist, AllowlistFile, AllowlistCache, default_blocked_patterns, load_with,
  load_mount_allowlist,
}
use multi_user_agent_platfor.MountSecurity.Validate.{
  Paths, part_matches, AdditionalMount, MountValidationResult, expand_path, matches_blocked_pattern,
  under_root, find_allowed_root, is_valid_container_path, container_path_of, allowed_under,
  validate_real_path, validate_with, validate_mount, add_validated, validate_additional_mounts,
}
use multi_user_agent_platfor.MountSecurity.Defaults.{HasDefaults, load_mount_allowlist-HasDefaults}

module _ (paths : Paths) where
  -- A mount that may be made under an allow list: an existing directory under one of its roots,
  -- without a default pattern or one of its patterns in the path, below /workspace/extra/ in the
  -- container, and writable only where that root allows it.
  pub record Safe (allowlist : MountAllowlist) (r : MountValidationResult) : Type 0 where
    pub no_secrets : All (λ p. paths.includes r.real_host_path p ≡ false) default_blocked_patterns
    pub unblocked_path :
        All (λ p. paths.includes r.real_host_path p ≡ false) allowlist.blocked_patterns
    pub name : String
    pub inside : r.resolved_container_path ≡ String.◌++◌ "/workspace/extra/" name
    pub named : is_valid_container_path paths name ≡ true
    pub root : AllowedRoot
    pub listed : In root allowlist.allowed_roots
    pub rooted :
        under_root paths r.real_host_path (paths.real_path (expand_path paths root.path)) ≡ true
    pub writable : r.effective_readonly ≡ false → root.allow_read_write ≡ true

  unblocked :
      (real_path : String) (patterns : List String) (p : String)
      → is_null (matches_blocked_pattern paths real_path patterns) ≡ true
      → In p patterns
      → paths.includes real_path p ≡ false
  unfolding matches_blocked_pattern
  unblocked real_path [] p h m = absurd m
  unblocked real_path (q ∷ qs) p h m =
      elim (Bool-cases (
        exists (part_matches paths q) (paths.components real_path) || paths.includes real_path q)) [
          | inl hit ↦ let wrong = rw hit at h in cc
          | inr clear ↦ elim m [
            | inl e ↦ rw e ground arith
            | inr later ↦ unblocked real_path qs p (rw clear at h) later
          ]
        ]

  find_allowed_root-under :
      (real_path : String) (roots : List AllowedRoot) (root : AllowedRoot)
      → find_allowed_root paths real_path roots ≡ some root
      → In root roots
        × (under_root paths real_path (paths.real_path (expand_path paths root.path)) ≡ true)
  unfolding find_allowed_root
  find_allowed_root-under real_path [] root e = cc
  find_allowed_root-under real_path (r ∷ rs) root e =
      elim (Bool-cases (under_root paths real_path (paths.real_path (expand_path paths r.path)))) [
        | inl under ↦ rw (← some-injective (rw under at e)) (inl refl, under)
        | inr outside ↦
            let (m, under) = find_allowed_root-under real_path rs root (rw outside at e) in
            (inr m, under)
      ]

  allowed_under-Safe :
      (o : Option AllowedRoot) (mount : AdditionalMount) (real_path : String)
      (allowlist : MountAllowlist) (rest : List MountValidationResult)
      → find_allowed_root paths real_path allowlist.allowed_roots ≡ o
      → is_valid_container_path paths (container_path_of paths mount) ≡ true
      → is_null (matches_blocked_pattern paths real_path allowlist.blocked_patterns) ≡ true
      → HasDefaults (some allowlist)
      → All (Safe allowlist) rest
      → All (Safe allowlist) (add_validated paths (allowed_under paths o mount real_path) rest)
  allowed_under-Safe none mount real_path allowlist rest e v b d h = h
  allowed_under-Safe (some root) mount real_path allowlist rest e v b d h = (
    record {
      no_secrets = All-of_In _ default_blocked_patterns (λ p m.
          unblocked real_path allowlist.blocked_patterns p b
            (All-In (λ q. In q allowlist.blocked_patterns) default_blocked_patterns p d m));
      unblocked_path =
          All-of_In _ allowlist.blocked_patterns
            (λ p m. unblocked real_path allowlist.blocked_patterns p b m);
      name = container_path_of paths mount;
      inside = refl;
      named = v;
      root = root;
      listed = (find_allowed_root-under real_path allowlist.allowed_roots root e).0;
      rooted = (find_allowed_root-under real_path allowlist.allowed_roots root e).1;
      writable = λ w. ground arith;
    },
    h,
  )

  validate_real_path-Safe :
      (o : Option String) (mount : AdditionalMount) (allowlist : MountAllowlist)
      (rest : List MountValidationResult)
      → is_valid_container_path paths (container_path_of paths mount) ≡ true
      → HasDefaults (some allowlist)
      → All (Safe allowlist) rest
      → All (Safe allowlist) (add_validated paths (validate_real_path paths o mount allowlist) rest)
  unfolding validate_real_path
  validate_real_path-Safe none mount allowlist rest v d h = h
  validate_real_path-Safe (some real_path) mount allowlist rest v d h =
      elim (Bool-cases
        (is_null (matches_blocked_pattern paths real_path allowlist.blocked_patterns))) [
          | inl clear ↦
              rw clear (allowed_under-Safe _ mount real_path allowlist rest refl v clear d h)
          | inr hit ↦ rw hit h
        ]

  -- Under no allow list there is no mount.
  abbrev pub SafeUnder : Option MountAllowlist → List MountValidationResult → Type 0
  SafeUnder none results = results ≡ []
  SafeUnder (some allowlist) results = All (Safe allowlist) results

  validate_with-SafeUnder :
      (o : Option MountAllowlist) (mount : AdditionalMount) (rest : List MountValidationResult)
      → HasDefaults o
      → SafeUnder o rest
      → SafeUnder o (add_validated paths (validate_with paths o mount) rest)
  unfolding validate_with
  validate_with-SafeUnder none mount rest d h = h
  validate_with-SafeUnder (some allowlist) mount rest d h =
      elim (Bool-cases (is_valid_container_path paths (container_path_of paths mount))) [
        | inl valid ↦ rw valid (validate_real_path-Safe _ mount allowlist rest valid d h)
        | inr bad ↦ rw bad h
      ]

  SafeUnder-empty : (o : Option MountAllowlist) → SafeUnder o []
  SafeUnder-empty none = refl
  SafeUnder-empty (some allowlist) = tt

  load_with-keeps :
      (o : Option MountAllowlist) (b : Bool) (file : AllowlistFile) (cache : AllowlistCache)
      (allowlist : MountAllowlist)
      → cache.allowlist ≡ o
      → o ≡ some allowlist
      → (load_with o b file cache).allowlist ≡ some allowlist
  unfolding load_with
  load_with-keeps none b file cache allowlist d e = cc
  load_with-keeps (some a) b file cache allowlist d e = d ∙ e

  -- An allow list that is cached stays.
  validate_additional_mounts-keeps :
      (cache : AllowlistCache) (mounts : List (AllowlistFile × AdditionalMount))
      (allowlist : MountAllowlist)
      → cache.allowlist ≡ some allowlist
      → (validate_additional_mounts paths cache mounts).1.allowlist ≡ some allowlist
  unfolding validate_additional_mounts load_mount_allowlist
  validate_additional_mounts-keeps cache [] allowlist e = e
  validate_additional_mounts-keeps cache ((file, mount) ∷ more) allowlist e =
      validate_additional_mounts-keeps (load_mount_allowlist file cache) more allowlist
        (load_with-keeps cache.allowlist cache.load_failed file cache allowlist refl e)

  add_validated-SafeUnder :
      (o final : Option MountAllowlist) (mount : AdditionalMount)
      (rest : List MountValidationResult)
      → HasDefaults o
      → ((a : MountAllowlist) → o ≡ some a → final ≡ some a)
      → SafeUnder final rest
      → SafeUnder final (add_validated paths (validate_with paths o mount) rest)
  unfolding validate_with
  add_validated-SafeUnder none final mount rest d keeps h = h
  add_validated-SafeUnder (some a) final mount rest d keeps h =
      subst (λ o. SafeUnder o (add_validated paths (validate_with paths (some a) mount) rest))
        (sym (keeps a refl))
        (validate_with-SafeUnder (some a) mount rest d
          (subst (λ o. SafeUnder o rest) (keeps a refl) h))

  -- Where a cached allow list has the default patterns, as the empty cache of a fresh process has,
  -- every mount that is answered is safe under the allow list that the process then has, whatever
  -- the file says when it is read.
  pub validate_additional_mounts-Safe :
      (cache : AllowlistCache) (mounts : List (AllowlistFile × AdditionalMount))
      → HasDefaults cache.allowlist
      → SafeUnder
          (validate_additional_mounts paths cache mounts).1.allowlist
          (validate_additional_mounts paths cache mounts).0
  unfolding validate_additional_mounts validate_mount
  validate_additional_mounts-Safe cache [] d = SafeUnder-empty cache.allowlist
  validate_additional_mounts-Safe cache ((file, mount) ∷ more) d =
      let later = load_mount_allowlist-HasDefaults file cache d in
      let next = load_mount_allowlist file cache in
      add_validated-SafeUnder next.allowlist
        (validate_additional_mounts paths next more).1.allowlist mount
        (validate_additional_mounts paths next more).0 later
        (validate_additional_mounts-keeps next more)
        (validate_additional_mounts-Safe next more later)
