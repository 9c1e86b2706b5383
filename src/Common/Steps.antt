-- ===== src/Common/Steps.antt =====
-- Chains and loops of steps that can panic: `none` is the panic.
use Prim.Native.Nat.{ℕ, suc}
use mathlib.Core.Path.{◌≡◌, refl, subst}
use mathlib.Core.Bool.{Bool, true, false}
use mathlib.Core.List.{List, [], ◌∷◌, ◌++◌}
use mathlib.Core.Option.{Option, none, some}
use async_trace_doctor.Common.Tests.{if◌then◌else◌}
use async_trace_doctor.Common.Lists.{All, All-append}

infixl 5 ◌>>=◌
abbrev pub ◌>>=◌ {ℓ κ} : {A : Type ℓ} {B : Type κ} → Option A → (A → Option B) → Option B
none >>= f = none
some a >>= f = f a

-- The step answers.
abbrev pub Returns {ℓ} : {A : Type ℓ} → Option A → Type ℓ
Returns {A = A} o = (a : A) × (o ≡ some a)

pub Returns->>= {ℓ κ} :
    {A : Type ℓ} {B : Type κ} (o : Option A) (f : A → Option B)
    → Returns o
    → ((a : A) → o ≡ some a → Returns (f a))
    → Returns (o >>= f)
Returns->>= o f (a, e) h = rw e (h a e)

module _ {ℓ κ} {A : Type ℓ} {B : Type κ} where
  -- for i, x := range xs { out = append(out, f(i, x)...) }
  unfoldable pub collect_from : (ℕ → A → Option (List B)) → ℕ → List A → Option (List B)
  collect_from f i [] = some []
  collect_from f i (x ∷ xs) =
      f i x >>= λ found. collect_from f (suc i) xs >>= λ rest. some (found ++ rest)

  unfoldable pub collect : (ℕ → A → Option (List B)) → List A → Option (List B)
  unfolding collect_from
  collect f xs = collect_from f 0 xs

  collect_from-Returns :
      (f : ℕ → A → Option (List B))
      → ((i : ℕ) (x : A) → Returns (f i x))
      → (i : ℕ) (xs : List A) → Returns (collect_from f i xs)
  unfolding collect_from
  collect_from-Returns f h i [] = ([], refl)
  collect_from-Returns f h i (x ∷ xs) = Returns->>= (f i x) _ (h i x) (λ found _.
      Returns->>= (collect_from f (suc i) xs) _ (collect_from-Returns f h (suc i) xs)
        (λ rest _. (found ++ rest, refl)))

  -- Where every step returns, the loop returns.
  pub collect-Returns :
      (f : ℕ → A → Option (List B))
      → ((i : ℕ) (x : A) → Returns (f i x))
      → (xs : List A) → Returns (collect f xs)
  unfolding collect
  collect-Returns f h xs = collect_from-Returns f h 0 xs

module _ {ℓ κ μ} {A : Type ℓ} {B : Type κ} (P : A → Type μ) (f : ℕ → A → Option (List B))
    (h : (i : ℕ) (x : A) → P x → Returns (f i x)) where
  collect_from-Returns_where : (i : ℕ) (xs : List A) → All P xs → Returns (collect_from f i xs)
  unfolding collect_from
  collect_from-Returns_where i [] k = ([], refl)
  collect_from-Returns_where i (x ∷ xs) k = Returns->>= (f i x) _ (h i x k.0) (λ found _.
      Returns->>= (collect_from f (suc i) xs) _ (collect_from-Returns_where (suc i) xs k.1)
        (λ rest _. (found ++ rest, refl)))

  -- Where every step returns for the elements that the list has, the loop returns.
  pub collect-Returns_where : (xs : List A) → All P xs → Returns (collect f xs)
  unfolding collect
  collect-Returns_where xs k = collect_from-Returns_where 0 xs k

-- What the step answers, if it answers, has the property.
abbrev pub Holds {ℓ κ} : {A : Type ℓ} → (A → Type κ) → Option A → Type κ
Holds P none = Unit
Holds P (some a) = P a

pub Holds->>= {ℓ κ μ ν} :
    {A : Type ℓ} {B : Type κ} (P : A → Type μ) (Q : B → Type ν) (o : Option A) (f : A → Option B)
    → Holds P o
    → ((a : A) → P a → Holds Q (f a))
    → Holds Q (o >>= f)
Holds->>= P Q none f p h = tt
Holds->>= P Q (some a) f p h = h a p

pub Holds-if {ℓ κ} :
    {A : Type ℓ} (P : A → Type κ) (b : Bool) (o p : Option A)
    → Holds P o
    → Holds P p
    → Holds P (if b then o else p)
Holds-if P true o p h k = h
Holds-if P false o p h k = k

pub Holds-some {ℓ κ} :
    {A : Type ℓ} (P : A → Type κ) {o : Option A} {a : A} → Holds P o → o ≡ some a → P a
Holds-some P h e = subst (Holds P) e h

module _ {ℓ κ μ} {A : Type ℓ} {B : Type κ} (P : B → Type μ) (f : ℕ → A → Option (List B))
    (h : (i : ℕ) (x : A) → Holds (All P) (f i x)) where
  collect_from-Holds : (i : ℕ) (xs : List A) → Holds (All P) (collect_from f i xs)
  unfolding collect_from
  collect_from-Holds i [] = tt
  collect_from-Holds i (x ∷ xs) = Holds->>= (All P) (All P) (f i x) _ (h i x) (λ found p.
      Holds->>= (All P) (All P) (collect_from f (suc i) xs) _ (collect_from-Holds (suc i) xs)
        (λ rest q. All-append P found rest p q))

  -- What every step collects has the property.
  pub collect-Holds : (xs : List A) → Holds (All P) (collect f xs)
  unfolding collect
  collect-Holds xs = collect_from-Holds 0 xs
