-- ===== src/Base/Keys.antt =====
-- Rows that a key tells apart, as a primary key of a table does.
use mathlib.Core.Path.{◌≡◌, sym, ◌∙◌}
use mathlib.Core.Logic.{inl, inr}
use mathlib.Core.Bool.{Bool, true, false}
use mathlib.Core.List.{List, [], ◌∷◌}
use Prim.Native.Nat.{ℕ}
use multi_user_agent_platfor.Base.Tests.{Bool-cases, leb}
use multi_user_agent_platfor.Base.Tables.{
  All, All-of_In, All-In, In, delete_where, All-delete_where, update_where, select, In-select,
  insert_by, order_by, In-order_by,
}

module _ {A : Type 0} (same : A → A → Bool) where
  abbrev pub Distinct : List A → Type 0
  Distinct [] = Unit
  Distinct (x ∷ xs) = All (λ y. same x y ≡ false) xs × Distinct xs

  pub Distinct-select : (p : A → Bool) (xs : List A) → Distinct xs → Distinct (select p xs)
  unfolding select
  Distinct-select p [] h = tt
  Distinct-select p (x ∷ xs) (h, hs) = elim (Bool-cases (p x)) [
    | inl taken ↦
        rw (taken, select)
          (All-of_In _ _ (λ a m. All-In _ xs a h (In-select p xs a m).0), Distinct-select p xs hs)
    | inr left ↦ rw (left, select) (Distinct-select p xs hs)
  ]

  pub Distinct-delete_where :
      (p : A → Bool) (xs : List A) → Distinct xs → Distinct (delete_where p xs)
  unfolding delete_where
  Distinct-delete_where p [] h = tt
  Distinct-delete_where p (x ∷ xs) (h, hs) = elim (Bool-cases (p x)) [
    | inl gone ↦ rw gone (Distinct-delete_where p xs hs)
    | inr kept ↦ rw kept (All-delete_where _ p xs h, Distinct-delete_where p xs hs)
  ]

  -- An update that keeps the keys keeps them distinct.
  All-update_where :
      (p : A → Bool) (f : A → A) (x : A) (xs : List A)
      → ((a b : A) → same a (f b) ≡ same a b)
      → All (λ y. same x y ≡ false) xs
      → All (λ y. same x y ≡ false) (update_where p f xs)
  unfolding update_where
  All-update_where p f x [] k h = tt
  All-update_where p f x (y ∷ ys) k (h, hs) = elim (Bool-cases (p y)) [
    | inl hit ↦ rw hit (k x y ∙ h, All-update_where p f x ys k hs)
    | inr miss ↦ rw miss (h, All-update_where p f x ys k hs)
  ]

  pub Distinct-update_where :
      (p : A → Bool) (f : A → A) (xs : List A)
      → ((a b : A) → same a (f b) ≡ same a b)
      → ((a b : A) → same (f a) b ≡ same a b)
      → Distinct xs
      → Distinct (update_where p f xs)
  unfolding update_where
  Distinct-update_where p f [] k l h = tt
  Distinct-update_where p f (x ∷ xs) k l (h, hs) = elim (Bool-cases (p x)) [
    | inl hit ↦ rw hit (
      All-of_In _ _ (λ a m. l x a ∙ All-In _ _ a (All-update_where p f x xs k h) m),
      Distinct-update_where p f xs k l hs,
    )
    | inr miss ↦ rw miss (All-update_where p f x xs k h, Distinct-update_where p f xs k l hs)
  ]

  module _ (symmetric : (x y : A) → same x y ≡ false → same y x ≡ false) where
    All-insert_by :
        (P : A → Type 0) (key : A → ℕ) (x : A) (ys : List A)
        → P x
        → All P ys
        → All P (insert_by key x ys)
    unfolding insert_by
    All-insert_by P key x [] p h = (p, tt)
    All-insert_by P key x (y ∷ ys) p (h, hs) = elim (Bool-cases (leb (key x) (key y))) [
      | inl first ↦ rw (first, insert_by) (p, (h, hs))
      | inr later ↦ rw (later, insert_by) (h, All-insert_by P key x ys p hs)
    ]

    Distinct-insert_by :
        (key : A → ℕ) (x : A) (ys : List A)
        → All (λ y. same x y ≡ false) ys
        → Distinct ys
        → Distinct (insert_by key x ys)
    unfolding insert_by
    Distinct-insert_by key x [] h d = (tt, tt)
    Distinct-insert_by key x (y ∷ ys) (h, hs) (d, ds) = elim (Bool-cases (leb (key x) (key y))) [
      | inl first ↦ rw (first, insert_by) ((h, hs), (d, ds))
      | inr later ↦
          rw (later, insert_by)
            (All-insert_by _ key x ys (symmetric x y h) d, Distinct-insert_by key x ys hs ds)
    ]

    pub Distinct-order_by : (key : A → ℕ) (xs : List A) → Distinct xs → Distinct (order_by key xs)
    unfolding order_by
    Distinct-order_by key [] d = tt
    Distinct-order_by key (x ∷ xs) (d, ds) =
        Distinct-insert_by key x (order_by key xs)
          (All-of_In _ _ (λ a m. All-In _ xs a d ((In-order_by key xs a).0 m)))
          (Distinct-order_by key xs ds)

    -- Two rows with one key are one row.
    pub Distinct-same :
        (xs : List A) (a b : A) → Distinct xs → In a xs → In b xs → same a b ≡ true → a ≡ b
    Distinct-same [] a b d i j e = absurd i
    Distinct-same (x ∷ xs) a b (d, ds) (inl p) (inl q) e = p ∙ sym q
    Distinct-same (x ∷ xs) a b (d, ds) (inl p) (inr j) e =
        let apart : same a b ≡ false = rw p (All-In _ xs b d j) in cc
    Distinct-same (x ∷ xs) a b (d, ds) (inr i) (inl q) e =
        let apart : same a b ≡ false = symmetric b a (rw q (All-In _ xs a d i)) in cc
    Distinct-same (x ∷ xs) a b (d, ds) (inr i) (inr j) e = Distinct-same xs a b ds i j e
