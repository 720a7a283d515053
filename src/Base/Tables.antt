-- ===== src/Base/Tables.antt =====
-- A database table as the list of its rows, oldest first, and the SQL statements as functions on it.
-- Also the predicates on lists by which the theorems speak of rows.
use Prim.Native.Nat.{ℕ, suc}
use mathlib.Core.Path.{◌≡◌, refl, sym, subst}
use mathlib.Core.Logic.{◌⊎◌, inl, inr, ◌↔◌}
use mathlib.Core.Bool.{Bool, true, false, ◌||◌}
use mathlib.Core.Option.{Option, none, some}
use mathlib.Core.List.{List, [], ◌∷◌, ◌++◌}
use native.Mathlib.Omega.{arith}
use multi_user_agent_platfor.Base.Tests.{if◌then◌else◌, Bool-cases, leb}

module _ {ℓ} {A : Type ℓ} where
  abbrev pub length : List A → ℕ
  length [] = 0
  length (x ∷ xs) = suc (length xs)

  -- SELECT ... WHERE p, by `.get()`
  unfoldable pub find : (A → Bool) → List A → Option A
  find p [] = none
  find p (x ∷ xs) = if p x then some x else find p xs

  -- SELECT ... WHERE p, by `.all()`
  unfoldable pub select : (A → Bool) → List A → List A
  select p [] = []
  select p (x ∷ xs) = if p x then x ∷ select p xs else select p xs

  -- SELECT 1 ... WHERE p LIMIT 1
  unfoldable pub exists : (A → Bool) → List A → Bool
  exists p [] = false
  exists p (x ∷ xs) = p x || exists p xs

  -- DELETE ... WHERE p
  unfoldable pub delete_where : (A → Bool) → List A → List A
  delete_where p [] = []
  delete_where p (x ∷ xs) = if p x then delete_where p xs else x ∷ delete_where p xs

  -- UPDATE ... SET f WHERE p
  unfoldable pub update_where : (A → Bool) → (A → A) → List A → List A
  update_where p f [] = []
  update_where p f (x ∷ xs) = (if p x then f x else x) ∷ update_where p f xs

  unfoldable pub insert_by : (A → ℕ) → A → List A → List A
  insert_by key x [] = x ∷ []
  insert_by key x (y ∷ ys) = if leb (key x) (key y) then x ∷ y ∷ ys else y ∷ insert_by key x ys

  -- ORDER BY key ASC; rows with equal keys stay in the table's order.
  unfoldable pub order_by : (A → ℕ) → List A → List A
  unfolding insert_by
  order_by key [] = []
  order_by key (x ∷ xs) = insert_by key x (order_by key xs)

  insert_by_desc : (A → ℕ) → A → List A → List A
  insert_by_desc key x [] = x ∷ []
  insert_by_desc key x (y ∷ ys) =
      if leb (key y) (key x) then x ∷ y ∷ ys else y ∷ insert_by_desc key x ys

  -- ORDER BY key DESC
  unfoldable pub order_by_desc : (A → ℕ) → List A → List A
  unfolding insert_by_desc
  order_by_desc key [] = []
  order_by_desc key (x ∷ xs) = insert_by_desc key x (order_by_desc key xs)

module _ {ℓ κ} {A : Type ℓ} (P : A → Type κ) where
  abbrev pub All : List A → Type κ
  All [] = Unit
  All (x ∷ xs) = P x × All xs

-- Membership, by recursion on the list.
abbrev pub In : {A : Type 0} → A → List A → Type 0
In a [] = ⊥
In a (x ∷ xs) = (a ≡ x) ⊎ In a xs

module _ {A : Type 0} where
  pub find-eq-some :
      (p : A → Bool) (xs : List A) {a : A} → find p xs ≡ some a → (p a ≡ true) × In a xs
  unfolding find
  find-eq-some p [] h = cc
  find-eq-some p (x ∷ xs) {a} h = elim (Bool-cases (p x)) [
    | inl yes' ↦ let e : x ≡ a = ground arith in (rw (← e) yes', inl (sym e))
    | inr no' ↦ let r = find-eq-some p xs (rw (no', find) at h) in (r.0, inr r.1)
  ]

  pub find-eq-none : (p : A → Bool) (xs : List A) (a : A) → find p xs ≡ none → In a xs → p a ≡ false
  unfolding find
  find-eq-none p [] a h m = absurd m
  find-eq-none p (x ∷ xs) a h (inl e) = ground arith
  find-eq-none p (x ∷ xs) a h (inr m) = ground (arith, find-eq-none p xs a)

  -- A new row is found, once nothing before it is.
  pub find-append :
      (p : A → Bool) (xs ys : List A) → find p xs ≡ none → find p (xs ++ ys) ≡ find p ys
  unfolding find
  find-append p [] ys h = refl
  find-append p (x ∷ xs) ys h = ground (arith, find-append p xs ys)

  pub exists_of_In :
      (p : A → Bool) (xs : List A) (a : A) → In a xs → p a ≡ true → exists p xs ≡ true
  unfolding exists
  exists_of_In p [] a m h = absurd m
  exists_of_In p (x ∷ xs) a (inl e) h = ground arith
  exists_of_In p (x ∷ xs) a (inr m) h = ground (arith, exists_of_In p xs a m h)

  pub In-of_exists :
      (p : A → Bool) (xs : List A) → exists p xs ≡ true → (a : A) × In a xs × (p a ≡ true)
  unfolding exists
  In-of_exists p [] h = cc
  In-of_exists p (x ∷ xs) h = elim (Bool-cases (p x)) [
    | inl yes' ↦ (x, inl refl, yes')
    | inr no' ↦ let (a, m, e) = In-of_exists p xs (ground arith) in (a, inr m, e)
  ]

  pub exists-append :
      (p : A → Bool) (xs ys : List A) → exists p (xs ++ ys) ≡ (exists p xs || exists p ys)
  unfolding exists
  exists-append p [] ys = refl
  exists-append p (x ∷ xs) ys = ground (arith, exists-append p xs ys)

  -- Where two tests agree on every row, they select the same.
  pub exists-congr :
      (p q : A → Bool) (xs : List A) → All (λ x. p x ≡ q x) xs → exists p xs ≡ exists q xs
  unfolding exists
  exists-congr p q [] h = refl
  exists-congr p q (x ∷ xs) h = ground (arith, exists-congr p q xs h.1)

  -- No row that is to be deleted is left.
  pub exists-delete_where :
      (p q : A → Bool) (xs : List A)
      → ((x : A) → q x ≡ true → p x ≡ true)
      → exists q (delete_where p xs) ≡ false
  unfolding exists delete_where
  exists-delete_where p q [] h = refl
  exists-delete_where p q (x ∷ xs) h = ground (arith, h x, exists-delete_where p q xs h)

  pub find-delete_where :
      (p q : A → Bool) (xs : List A)
      → ((x : A) → q x ≡ true → p x ≡ true)
      → find q (delete_where p xs) ≡ none
  unfolding find delete_where
  find-delete_where p q [] h = refl
  find-delete_where p q (x ∷ xs) h = ground (arith, h x, find-delete_where p q xs h)

  -- The rows that are not to be deleted stay.
  pub exists-delete_where_other :
      (p q : A → Bool) (xs : List A)
      → ((x : A) → q x ≡ true → p x ≡ false)
      → exists q (delete_where p xs) ≡ exists q xs
  unfolding exists delete_where
  exists-delete_where_other p q [] h = refl
  exists-delete_where_other p q (x ∷ xs) h = ground (arith, h x, exists-delete_where_other p q xs h)

  pub exists-delete_where_of_false :
      (p q : A → Bool) (xs : List A) → exists q xs ≡ false → exists q (delete_where p xs) ≡ false
  unfolding exists delete_where
  exists-delete_where_of_false p q [] h = refl
  exists-delete_where_of_false p q (x ∷ xs) h = ground (arith, exists-delete_where_of_false p q xs)

  pub In-delete_where : (p : A → Bool) (xs : List A) (a : A) → In a (delete_where p xs) → In a xs
  unfolding delete_where
  In-delete_where p [] a m = m
  In-delete_where p (x ∷ xs) a m = ground (arith, In-delete_where p xs a)

  -- A row that is not to be deleted stays.
  pub In-delete_where_other :
      (p : A → Bool) (xs : List A) (a : A) → In a xs → p a ≡ false → In a (delete_where p xs)
  unfolding delete_where
  In-delete_where_other p [] a m h = m
  In-delete_where_other p (x ∷ xs) a (inl e) h = ground arith
  In-delete_where_other p (x ∷ xs) a (inr m) h = ground (arith, In-delete_where_other p xs a m h)

  pub In-update_where :
      (p : A → Bool) (f : A → A) (xs : List A) (a : A)
      → In a xs
      → p a ≡ true
      → In (f a) (update_where p f xs)
  unfolding update_where
  In-update_where p f [] a m h = m
  In-update_where p f (x ∷ xs) a (inl e) h = inl (rw (← e, h) refl)
  In-update_where p f (x ∷ xs) a (inr m) h = inr (In-update_where p f xs a m h)

  pub In-append : (xs ys : List A) (a : A) → In a (xs ++ ys) → In a xs ⊎ In a ys
  In-append [] ys a m = inr m
  In-append (x ∷ xs) ys a (inl e) = inl (inl e)
  In-append (x ∷ xs) ys a (inr m) = elim (In-append xs ys a m) [
    | inl l ↦ inl (inr l)
    | inr r ↦ inr r
  ]

  pub All-append {κ} : (P : A → Type κ) (xs ys : List A) → All P xs → All P ys → All P (xs ++ ys)
  All-append P [] ys h k = k
  All-append P (x ∷ xs) ys (p, h) k = (p, All-append P xs ys h k)

  pub All-of_In {κ} : (P : A → Type κ) (xs : List A) → ((a : A) → In a xs → P a) → All P xs
  All-of_In P [] h = tt
  All-of_In P (x ∷ xs) h = (h x (inl refl), All-of_In P xs (λ a m. h a (inr m)))

  pub All-In : (P : A → Type 0) (xs : List A) (a : A) → All P xs → In a xs → P a
  All-In P [] a h m = absurd m
  All-In P (x ∷ xs) a (p, h) (inl e) = subst P (sym e) p
  All-In P (x ∷ xs) a (p, h) (inr m) = All-In P xs a h m

  pub All-delete_where {κ} :
      (P : A → Type κ) (p : A → Bool) (xs : List A) → All P xs → All P (delete_where p xs)
  unfolding delete_where
  All-delete_where P p [] h = tt
  All-delete_where P p (x ∷ xs) (h, hs) = elim (Bool-cases (p x)) [
    | inl gone ↦ rw (gone, delete_where) (All-delete_where P p xs hs)
    | inr kept ↦ rw (kept, delete_where) (h, All-delete_where P p xs hs)
  ]

  pub select-append :
      (p : A → Bool) (xs ys : List A) → select p (xs ++ ys) ≡ select p xs ++ select p ys
  unfolding select
  select-append p [] ys = refl
  select-append p (x ∷ xs) ys = ground (arith, select-append p xs ys)

  pub In-select : (p : A → Bool) (xs : List A) (a : A) → In a (select p xs) → In a xs × (p a ≡ true)
  unfolding select
  In-select p [] a m = absurd m
  In-select p (x ∷ xs) a m = elim (Bool-cases (p x)) [
    | inl yes' ↦ elim (rw (yes', select) at m) [
      | inl e ↦ (inl e, rw e yes')
      | inr r ↦ let s = In-select p xs a r in (inr s.0, s.1)
    ]
    | inr no' ↦ let s = In-select p xs a (rw (no', select) at m) in (inr s.0, s.1)
  ]

  pub In-of_select :
      (p : A → Bool) (xs : List A) (a : A) → In a xs → p a ≡ true → In a (select p xs)
  unfolding select
  In-of_select p [] a m h = m
  In-of_select p (x ∷ xs) a (inl e) h = ground arith
  In-of_select p (x ∷ xs) a (inr m) h = ground (arith, In-of_select p xs a m h)

  In-insert_by :
      (key : A → ℕ) (x : A) (ys : List A) (a : A) → In a (insert_by key x ys) ↔ In a (x ∷ ys)
  unfolding insert_by
  In-insert_by key x [] a = ground arith
  In-insert_by key x (y ∷ ys) a = ground (arith, In-insert_by key x ys a)

  -- Sorting keeps the rows.
  pub In-order_by : (key : A → ℕ) (xs : List A) (a : A) → In a (order_by key xs) ↔ In a xs
  unfolding order_by
  In-order_by key [] a = ground arith
  In-order_by key (x ∷ xs) a =
      ground (arith, In-insert_by key x (order_by key xs) a, In-order_by key xs a)

  In-insert_by_desc :
      (key : A → ℕ) (x : A) (ys : List A) (a : A) → In a (insert_by_desc key x ys) ↔ In a (x ∷ ys)
  unfolding insert_by_desc
  In-insert_by_desc key x [] a = ground arith
  In-insert_by_desc key x (y ∷ ys) a = ground (arith, In-insert_by_desc key x ys a)

  pub In-order_by_desc : (key : A → ℕ) (xs : List A) (a : A) → In a (order_by_desc key xs) ↔ In a xs
  unfolding order_by_desc
  In-order_by_desc key [] a = ground arith
  In-order_by_desc key (x ∷ xs) a =
      ground (arith, In-insert_by_desc key x (order_by_desc key xs) a, In-order_by_desc key xs a)
