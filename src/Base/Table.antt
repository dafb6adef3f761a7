-- ===== src/Base/Table.antt =====
-- Database tables as lists of rows: queries by a test on rows, and updates of one row.
use Prim.Native.Nat.{ℕ, ◌+◌, ◌≤◌}
use mathlib.Core.Path.{◌≡◌, refl, ap}
use mathlib.Core.Logic.{inl, inr}
use mathlib.Core.Bool.{Bool, true, false}
use mathlib.Core.Option.{Option, none, some}
use mathlib.Core.List.{List, [], ◌∷◌, ◌++◌}
use native.Mathlib.Omega.{arith}
use lc_connect.Base.Tests.{if◌then◌else◌, Bool-cases}
use lc_connect.Base.Results.{Result, ok, err}

-- 1 for a row that is counted, 0 for one that is not.
abbrev pub weight : Bool → ℕ
weight true = 1
weight false = 0

module _ {A : Type 0} where
  abbrev pub All : (A → Type 0) → List A → Type 0
  All P [] = Unit
  All P (x ∷ xs) = P x × All P xs

  -- The first row that passes the test.
  unfoldable pub find? : (A → Bool) → List A → Option A
  find? p [] = none
  find? p (x ∷ xs) = if p x then some x else find? p xs

  unfoldable pub filter_rows : (A → Bool) → List A → List A
  filter_rows p [] = []
  filter_rows p (x ∷ xs) = let rest = filter_rows p xs in if p x then x ∷ rest else rest

  unfoldable pub count_if : (A → Bool) → List A → ℕ
  count_if p [] = 0
  count_if p (x ∷ xs) = weight (p x) + count_if p xs

  -- The first row that passes the test, replaced.
  unfoldable pub update_first : (A → Bool) → (A → A) → List A → List A
  update_first p f [] = []
  update_first p f (x ∷ xs) = if p x then f x ∷ xs else x ∷ update_first p f xs

  unfoldable pub delete_first : (A → Bool) → List A → List A
  delete_first p [] = []
  delete_first p (x ∷ xs) = if p x then xs else x ∷ delete_first p xs

module _ {A : Type 0} where
  -- `EXISTS`.
  abbrev pub any_row : (A → Bool) → List A → Bool
  any_row p [] = false
  any_row p (x ∷ xs) = if p x then true else any_row p xs

  pub find?-passes : (p : A → Bool) (xs : List A) {x : A} → find? p xs ≡ some x → p x ≡ true
  unfolding find?
  find?-passes p [] h = cc
  find?-passes p (y ∷ xs) h = elim (Bool-cases (p y)) [
    | inl e ↦ ground (arith, e)
    | inr e ↦ find?-passes p xs (rw e at h)
  ]

  pub find?-update_first_self :
      (p : A → Bool) (f : A → A) (xs : List A) {x : A}
      → p (f x) ≡ true
      → find? p xs ≡ some x
      → find? p (update_first p f xs) ≡ some (f x)
  unfolding find? update_first
  find?-update_first_self p f [] keep h = cc
  find?-update_first_self p f (y ∷ xs) keep h = elim (Bool-cases (p y)) [
    | inl e ↦ ground (arith, e, keep)
    | inr e ↦ rw (e, e) (find?-update_first_self p f xs keep (rw e at h))
  ]

  -- An update of one row is not seen by a query for others.
  pub find?-update_first_other :
      (p q : A → Bool) (f : A → A) (xs : List A)
      → ((x : A) → p x ≡ true → q x ≡ false)
      → ((x : A) → p x ≡ true → q (f x) ≡ false)
      → find? q (update_first p f xs) ≡ find? q xs
  unfolding find? update_first
  find?-update_first_other p q f [] before after = refl
  find?-update_first_other p q f (y ∷ xs) before after = elim (Bool-cases (p y)) [
    | inl e ↦ ground (arith, e, before y e, after y e)
    | inr e ↦ ground (arith, e, find?-update_first_other p q f xs before after)
  ]

  -- How an update of one row changes a count.
  pub count_if-update_first :
      (p q : A → Bool) (f : A → A) (xs : List A) {x : A}
      → find? p xs ≡ some x
      → count_if q (update_first p f xs) + weight (q x) ≡ count_if q xs + weight (q (f x))
  unfolding find? update_first count_if
  count_if-update_first p q f [] h = cc
  count_if-update_first p q f (y ∷ xs) {x} h = elim (Bool-cases (p y)) [
    | inl e ↦ ground (arith, e)
    | inr e ↦ ground (arith, e, count_if-update_first p q f xs {x = x} (rw e at h))
  ]

  -- A row that is found is counted.
  pub count_if-pos :
      (p q : A → Bool) (xs : List A) {x : A} → find? p xs ≡ some x → q x ≡ true → 1 ≤ count_if q xs
  unfolding find? count_if
  count_if-pos p q [] h t = cc
  count_if-pos p q (y ∷ xs) {x} h t = elim (Bool-cases (p y)) [
    | inl e ↦ ground (arith, e)
    | inr e ↦ omega (arith, count_if-pos p q xs {x = x} (rw e at h) t)
  ]

module _ {A : Type 0} where
  pub filter_rows-zero : (p : A → Bool) (xs : List A) → count_if p xs ≡ 0 → filter_rows p xs ≡ []
  unfolding count_if filter_rows
  filter_rows-zero p [] h = refl
  filter_rows-zero p (x ∷ xs) h = ground (arith, filter_rows-zero p xs)

  pub update_first-none :
      (p : A → Bool) (f : A → A) (xs : List A) → find? p xs ≡ none → update_first p f xs ≡ xs
  unfolding find? update_first
  update_first-none p f [] h = refl
  update_first-none p f (x ∷ xs) h = elim (Bool-cases (p x)) [
    | inl e ↦ ground (arith, e)
    | inr e ↦ rw e (ap (λ ys. x ∷ ys) (update_first-none p f xs (rw e at h)))
  ]

  -- Two rows that no test confuses are counted twice.
  pub count_if-two :
      (p r q : A → Bool) (xs : List A) {x y : A}
      → ((z : A) → p z ≡ true → r z ≡ false)
      → find? p xs ≡ some x
      → find? r xs ≡ some y
      → q x ≡ true
      → q y ≡ true
      → 2 ≤ count_if q xs
  unfolding find? count_if
  count_if-two p r q [] apart hx hy tx ty = cc
  count_if-two p r q (z ∷ xs) {x} {y} apart hx hy tx ty = elim (Bool-cases (p z)) [
    | inl e ↦ ground (arith, e, apart z e, count_if-pos r q xs {x = y})
    | inr e ↦ elim (Bool-cases (r z)) [
      | inl e' ↦ ground (arith, e, e', count_if-pos p q xs {x = x})
      | inr e' ↦
          omega
            (arith, count_if-two p r q xs {x = x} {y = y} apart (rw e at hx) (rw e' at hy) tx ty)
    ]
  ]

  -- No row is found: none is counted.
  pub count_if-none : (p : A → Bool) (xs : List A) → find? p xs ≡ none → count_if p xs ≡ 0
  unfolding find? count_if
  count_if-none p [] h = refl
  count_if-none p (x ∷ xs) h = elim (Bool-cases (p x)) [
    | inl e ↦ ground (arith, e)
    | inr e ↦ ground (arith, e, count_if-none p xs)
  ]

-- `scalar_one_or_none()`: no row, the only row, or the exception that is given for more.
abbrev pub scalar_one_or_none : {E A : Type 0} → E → List A → Result E (Option A)
scalar_one_or_none multiple [] = ok none
scalar_one_or_none multiple (x ∷ []) = ok (some x)
scalar_one_or_none multiple (x ∷ y ∷ xs) = err multiple

module _ {A : Type 0} where
  pub count_if-snoc :
      (p : A → Bool) (xs : List A) (x : A)
      → count_if p (xs ++ x ∷ []) ≡ count_if p xs + weight (p x)
  unfolding count_if
  count_if-snoc p [] x = omega arith
  count_if-snoc p (y ∷ xs) x = omega (arith, count_if-snoc p xs x)

  -- An update that no row is counted less after.
  pub count_if-update_first_le :
      (p q : A → Bool) (f : A → A) (xs : List A)
      → ((x : A) → q x ≡ true → q (f x) ≡ true)
      → count_if q xs ≤ count_if q (update_first p f xs)
  unfolding count_if update_first
  count_if-update_first_le p q f [] h = omega arith
  count_if-update_first_le p q f (x ∷ xs) h =
      ground (arith, h x, count_if-update_first_le p q f xs h)

  -- An update that a test does not see.
  pub count_if-update_first_same :
      (p q : A → Bool) (f : A → A) (xs : List A)
      → ((x : A) → q (f x) ≡ q x)
      → count_if q (update_first p f xs) ≡ count_if q xs
  unfolding count_if update_first
  count_if-update_first_same p q f [] h = refl
  count_if-update_first_same p q f (x ∷ xs) h =
      ground (arith, h x, count_if-update_first_same p q f xs h)

  -- A narrower test counts no more.
  pub count_if_mono :
      (p q : A → Bool) (xs : List A)
      → ((x : A) → p x ≡ true → q x ≡ true)
      → count_if p xs ≤ count_if q xs
  unfolding count_if
  count_if_mono p q [] h = omega arith
  count_if_mono p q (x ∷ xs) h = ground (arith, h x, count_if_mono p q xs h)

  pub any_row-count : (p : A → Bool) (xs : List A) → any_row p xs ≡ false → count_if p xs ≡ 0
  unfolding count_if
  any_row-count p [] h = refl
  any_row-count p (x ∷ xs) h = ground (arith, any_row-count p xs)

  pub any_row-pos : (p : A → Bool) (xs : List A) → any_row p xs ≡ true → 1 ≤ count_if p xs
  unfolding count_if
  any_row-pos p [] h = cc
  any_row-pos p (x ∷ xs) h = ground (arith, any_row-pos p xs)
