-- ===== src/Base/Dicts.antt =====
-- A dictionary as an association list, the keys numbers: `get`, item assignment and deletion; a set
-- as a list without repetitions; and a dictionary of sets.
use Prim.Native.Nat.{ℕ}
use mathlib.Core.Path.{◌≡◌, refl, subst}
use mathlib.Core.Bool.{Bool, true, false, not, ◌&&◌, ◌||◌}
use mathlib.Core.Option.{Option, none, some}
use mathlib.Core.List.{List, [], ◌∷◌}
use native.Mathlib.Omega.{arith}
use native.Mathlib.Decide.{ℕ_discrete}
use lc_connect.Base.Tests.{if◌then◌else◌, ◌==◌}

unfoldable pub get {ℓ} : {A : Type ℓ} → ℕ → List (ℕ × A) → Option A
get k [] = none
get k ((j, a) ∷ m) = if j == k then some a else get k m

unfoldable pub put {ℓ} : {A : Type ℓ} → ℕ → A → List (ℕ × A) → List (ℕ × A)
put k a [] = (k, a) ∷ []
put k a ((j, b) ∷ m) = if j == k then (k, a) ∷ m else (j, b) ∷ put k a m

unfoldable pub delete {ℓ} : {A : Type ℓ} → ℕ → List (ℕ × A) → List (ℕ × A)
delete k [] = []
delete k ((j, a) ∷ m) = let rest = delete k m in if j == k then rest else (j, a) ∷ rest

pub ℕ-equal : (a b : ℕ) → (a == b) ≡ true → a ≡ b
ℕ-equal a b e = elim (ℕ_discrete a b) [ yes p ↦ p | no ne ↦ absurd (ne (ground arith)) ]

pub get-put_self {ℓ} : {A : Type ℓ} (k : ℕ) (a : A) (m : List (ℕ × A)) → get k (put k a m) ≡ some a
unfolding get put
get-put_self k a [] = ground arith
get-put_self k a ((j, b) ∷ m) = ground (arith, get-put_self k a m)

pub get-put_other {ℓ} :
    {A : Type ℓ} (k i : ℕ) (a : A) (m : List (ℕ × A))
    → (k == i) ≡ false
    → get i (put k a m) ≡ get i m
unfolding get put
get-put_other k i a [] ne = ground arith
get-put_other k i a ((j, b) ∷ m) ne = ground (arith, get-put_other k i a m)

pub get-delete {ℓ} :
    {A : Type ℓ} (k i : ℕ) (m : List (ℕ × A))
    → get i (delete k m) ≡ (if k == i then none else get i m)
unfolding get delete
get-delete k i [] = ground arith
get-delete k i ((j, a) ∷ m) = ground (arith, get-delete k i m)

pub get-put_eq {ℓ} :
    {A : Type ℓ} (k i : ℕ) (a : A) (m : List (ℕ × A)) → (k == i) ≡ true → get i (put k a m) ≡ some a
get-put_eq k i a m e = elim (ℕ_discrete k i) [
  | yes p ↦ subst (λ j. get j (put k a m) ≡ some a) p (get-put_self k a m)
  | no ne ↦ absurd (ne (ground arith))
]

abbrev pub has : ℕ → List ℕ → Bool
has a [] = false
has a (x ∷ xs) = if x == a then true else has a xs

unfoldable pub add : ℕ → List ℕ → List ℕ
add a xs = if has a xs then xs else a ∷ xs

unfoldable pub discard : ℕ → List ℕ → List ℕ
discard a [] = []
discard a (x ∷ xs) = let rest = discard a xs in if x == a then rest else x ∷ rest

pub has-add : (a b : ℕ) (xs : List ℕ) → has b (add a xs) ≡ (a == b || has b xs)
unfolding add
has-add a b xs = elim (ℕ_discrete a b) [ yes e ↦ rw e (has_added b xs) | no ne ↦ ground arith ]
  where
    has_added :
        (b : ℕ) (xs : List ℕ) → has b (if has b xs then xs else b ∷ xs) ≡ (b == b || has b xs)
    has_added b xs = ground arith

pub has-discard : (a b : ℕ) (xs : List ℕ) → has b (discard a xs) ≡ (has b xs && not (a == b))
unfolding discard
has-discard a b [] = refl
has-discard a b (x ∷ xs) = ground (arith, has-discard a b xs)

abbrev pub elements : Option (List ℕ) → List ℕ
elements none = []
elements (some s) = s

abbrev pub set_at : ℕ → List (ℕ × List ℕ) → List ℕ
set_at k idx = elements (get k idx)

-- `idx.setdefault(k, set()).add(a)`
unfoldable pub index_add : ℕ → ℕ → List (ℕ × List ℕ) → List (ℕ × List ℕ)
index_add k a idx = put k (add a (set_at k idx)) idx

abbrev pub keep_nonempty : ℕ → List ℕ → List (ℕ × List ℕ) → List (ℕ × List ℕ)
keep_nonempty k [] idx = delete k idx
keep_nonempty k (x ∷ xs) idx = put k (x ∷ xs) idx

-- Discards an element, and the set once it is empty.
unfoldable pub index_remove : ℕ → ℕ → List (ℕ × List ℕ) → List (ℕ × List ℕ)
index_remove k a idx = elim (get k idx) [ none ↦ idx | some s ↦ keep_nonempty k (discard a s) idx ]

-- Membership in the set of a key.
unfoldable pub in_index : ℕ → ℕ → List (ℕ × List ℕ) → Bool
in_index k a idx = has a (set_at k idx)
