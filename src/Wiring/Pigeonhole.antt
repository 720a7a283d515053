-- ===== src/Wiring/Pigeonhole.antt =====
-- Why the loop for a free name ends: every name that is taken is a row, and the numbered names
-- differ.
use text.Mathlib.TextLemmas.{append_cancel_left}
use multi_user_agent_platfor.Base.{
  ℕ, zero, suc, ◌+◌, ◌≤◌, ◌<◌, Bool, true, false, none, some, List, [], ◌∷◌, length, String, ◌≡◌,
  arith, exists, delete_where, exists_of_In, In-of_exists, In-delete_where_other, Bool-cases,
  Option-cases, some-injective, inl, inr,
}
use multi_user_agent_platfor.Engine.{TextEngine}
use multi_user_agent_platfor.Wiring.FreeName.{numbered, free_name_from, free_name}

length-delete_where :
    {A : Type 0} (p : A → Bool) (xs : List A) → length (delete_where p xs) ≤ length xs
unfolding delete_where
length-delete_where p [] = ground arith
length-delete_where p (x ∷ xs) = ground (arith, length-delete_where p xs)

length-delete_where_hit :
    {A : Type 0} (p : A → Bool) (xs : List A)
    → exists p xs ≡ true
    → length (delete_where p xs) < length xs
unfolding delete_where exists
length-delete_where_hit p [] h = cc
length-delete_where_hit p (x ∷ xs) h =
    ground (arith, length-delete_where p xs, length-delete_where_hit p xs)

module _ (engine : TextEngine)
    (injective : (m n : ℕ) → engine.digits m ≡ engine.digits n → m ≡ n) where
  numbered-injective :
      (base : String) (m n : ℕ) → numbered engine base m ≡ numbered engine base n → m ≡ n
  numbered-injective base m n e =
      injective m n (append_cancel_left "-" _ _ (append_cancel_left base _ _ e))

  module _ {A : Type 0} (has_name : String → A → Bool)
      (one_name : (r : A) (a b : String) → has_name a r ≡ true → has_name b r ≡ true → a ≡ b)
      (base : String) where
    -- The numbered names from one number on, so many of them, are all taken.
    abbrev AllTaken : List A → ℕ → ℕ → Type 0
    AllTaken rows suffix zero = Unit
    AllTaken rows suffix (suc n) =
        (exists (has_name (numbered engine base suffix)) rows ≡ true) × AllTaken rows (suffix + 1) n

    -- The rows of one name are no rows of a later one.
    still_taken :
        (rows : List A) (first suffix n : ℕ)
        → first < suffix
        → AllTaken rows suffix n
        → AllTaken (delete_where (has_name (numbered engine base first)) rows) suffix n
    still_taken rows first suffix zero l h = tt
    still_taken rows first suffix (suc n) l (h, hs) =
        let (r, m, k) = In-of_exists (has_name (numbered engine base suffix)) rows h in
        let apart : has_name (numbered engine base first) r ≡ false = ground (
          arith,
          Bool-cases (has_name (numbered engine base first) r),
          one_name r (numbered engine base first) (numbered engine base suffix),
          numbered-injective base first suffix,
        ) in
        (
          exists_of_In (has_name (numbered engine base suffix)) _ r
              (In-delete_where_other _ rows r m apart) k,
          still_taken rows first (suffix + 1) n (ground arith) hs,
        )

    pigeonhole : (n : ℕ) (rows : List A) (suffix : ℕ) → AllTaken rows suffix n → n ≤ length rows
    pigeonhole zero rows suffix h = ground arith
    pigeonhole (suc n) rows suffix (h, hs) = ground (
      arith,
      length-delete_where_hit (has_name (numbered engine base suffix)) rows h,
      pigeonhole n (delete_where (has_name (numbered engine base suffix)) rows) (suffix + 1)
          (still_taken rows suffix (suffix + 1) n (ground arith) hs),
    )

    free_name_from-none :
        (rows : List A) (fuel : ℕ) (name : String) (suffix : ℕ)
        → free_name_from engine (λ s. exists (has_name s) rows) base fuel name suffix ≡ none
        → AllTaken rows suffix fuel × (exists (has_name name) rows ≡ true)
    unfolding free_name_from
    free_name_from-none rows zero name suffix e = elim (Bool-cases (exists (has_name name) rows)) [
      | inl taken ↦ (tt, taken)
      | inr free ↦ let wrong = rw free at e in cc
    ]
    free_name_from-none rows (suc fuel) name suffix e =
        elim (Bool-cases (exists (has_name name) rows)) [
          | inl taken ↦
              let (all, first) =
                free_name_from-none rows fuel (numbered engine base suffix) (suffix + 1)
                  (rw taken at e) in
              ((first, all), taken)
          | inr free ↦ let wrong = rw free at e in cc
        ]

    free_name_from-free :
        (rows : List A) (fuel : ℕ) (name : String) (suffix : ℕ) (found : String)
        → free_name_from engine (λ s. exists (has_name s) rows) base fuel name suffix ≡ some found
        → exists (has_name found) rows ≡ false
    unfolding free_name_from
    free_name_from-free rows zero name suffix found e =
        elim (Bool-cases (exists (has_name name) rows)) [
          | inl taken ↦ let wrong = rw taken at e in cc
          | inr free ↦ rw (← some-injective (rw free at e)) free
        ]
    free_name_from-free rows (suc fuel) name suffix found e =
        elim (Bool-cases (exists (has_name name) rows)) [
          | inl taken ↦
              free_name_from-free rows fuel (numbered engine base suffix) (suffix + 1) found
                (rw taken at e)
          | inr free ↦ rw (← some-injective (rw free at e)) free
        ]

    -- The loop ends with a name that no row has, in as many rounds as there are rows and one more,
    -- where different numbers have different texts and a row has one name.
    pub free_name-ends :
        (rows : List A)
        → (found : String) × (free_name engine
              (λ s. exists (has_name s) rows)
              (length rows + 1)
              base
            ≡ some found)
          × (exists (has_name found) rows ≡ false)
    unfolding free_name
    free_name-ends rows =
        elim (Option-cases
          (free_name engine (λ s. exists (has_name s) rows) (length rows + 1) base)) [
            | inl out ↦
                let (all, last) = free_name_from-none rows (length rows + 1) base 2 out in
                absurd (ground (arith, pigeonhole (length rows + 1) rows 2 all))
            | inr (found, e) ↦ (found, e, free_name_from-free rows (length rows + 1) base 2 found e)
          ]
