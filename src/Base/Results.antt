-- ===== src/Base/Results.antt =====
-- What an operation returns: a value, or the error that it raises.
use mathlib.Core.Path.{◌≡◌, refl, subst}
use mathlib.Core.Logic.{◌⊎◌, inl, inr}
use mathlib.Core.Bool.{Bool, true, false}
use mathlib.Core.Option.{Option, none, some}

pub data Result (E : Type 0) (A : Type 0) : Type 0 where
  ok : A → Result E A
  err : E → Result E A

infixl 5 ◌>>=◌ ◌>>◌
abbrev pub ◌>>=◌ : {E A B : Type 0} → Result E A → (A → Result E B) → Result E B
ok a >>= f = f a
err e >>= f = err e

abbrev pub ◌>>◌ : {E B : Type 0} → Result E (Unit {0}) → Result E B → Result E B
m >> k = m >>= λ _. k

-- `if c: raise e`
abbrev pub raise_if : {E : Type 0} → Bool → E → Result E (Unit {0})
raise_if true e = err e
raise_if false e = ok tt

-- `if o is None: raise e`
abbrev pub or_raise : {E A : Type 0} → Option A → E → Result E A
or_raise none e = err e
or_raise (some a) e = ok a

-- What holds of the value, if the operation returns one.
abbrev pub OnOk : {E A : Type 0} → (A → Type 0) → Result E A → Type 0
OnOk P (ok a) = P a
OnOk P (err e) = Unit

-- The rule for a chain: what the first step establishes, the second may use.
pub OnOk->>= :
    {E A B : Type 0} (P : A → Type 0) (Q : B → Type 0) (m : Result E A) (f : A → Result E B)
    → OnOk P m
    → ((a : A) → m ≡ ok a → P a → OnOk Q (f a))
    → OnOk Q (m >>= f)
OnOk->>= P Q (ok a) f h k = k a refl h
OnOk->>= P Q (err e) f h k = tt

pub Result-cases :
    {E A : Type 0} (r : Result E A) → ((a : A) × (r ≡ ok a)) ⊎ ((e : E) × (r ≡ err e))
Result-cases (ok a) = inl (a, refl)
Result-cases (err e) = inr (e, refl)

-- The rules for a guard and for a value that must be there, in a chain.
pub OnOk-raise_if :
    {E B : Type 0} (Q : B → Type 0) (b : Bool) (e : E) (k : Result E B)
    → (b ≡ false → OnOk Q k)
    → OnOk Q (raise_if b e >> k)
OnOk-raise_if Q true e k h = tt
OnOk-raise_if Q false e k h = h refl

pub OnOk-or_raise :
    {E A B : Type 0} (Q : B → Type 0) (o : Option A) (e : E) (f : A → Result E B)
    → ((a : A) → o ≡ some a → OnOk Q (f a))
    → OnOk Q (or_raise o e >>= f)
OnOk-or_raise Q none e f h = tt
OnOk-or_raise Q (some a) e f h = h a refl

pub OnOk-elim : {E A : Type 0} (P : A → Type 0) (m : Result E A) (a : A) → m ≡ ok a → OnOk P m → P a
OnOk-elim P (ok b) a e h = subst P (cc) h
OnOk-elim P (err x) a e h = cc
