-- ===== src/Base/Lists.antt =====
-- Lists measured and indexed by native numbers, and a predicate on every element.
use Prim.Native.Nat.{ℕ, zero, suc, ◌+◌, ◌<◌}
use mathlib.Core.Path.{◌≡◌, refl, sym, ap}
use mathlib.Core.Logic.{◌≢◌, ◌↔◌, ◌⊎◌, inl, inr}
use mathlib.Core.Bool.{Bool, true, false, ◌&&◌, ◌||◌}
use mathlib.Core.List.{List, [], ◌∷◌, ◌++◌}
use mathlib.Core.Option.{Option, none, some}
use native.Mathlib.Omega.{arith}
use evebox.Base.Tests.{◌==◌, some_inj}

module _ {ℓ} {A : Type ℓ} where
  abbrev pub length : List A → ℕ
  length [] = 0
  length (x ∷ xs) = suc (length xs)

  abbrev pub get_elem? : List A → ℕ → Option A
  get_elem? [] i = none
  get_elem? (x ∷ xs) zero = some x
  get_elem? (x ∷ xs) (suc i) = get_elem? xs i

  -- A write out of bounds changes nothing.
  abbrev pub set : List A → ℕ → A → List A
  set [] i v = []
  set (x ∷ xs) zero v = v ∷ xs
  set (x ∷ xs) (suc i) v = x ∷ set xs i v

  abbrev pub take : ℕ → List A → List A
  take zero xs = []
  take (suc n) [] = []
  take (suc n) (x ∷ xs) = x ∷ take n xs

  abbrev pub drop : ℕ → List A → List A
  drop zero xs = xs
  drop (suc n) [] = []
  drop (suc n) (x ∷ xs) = drop n xs

  abbrev pub any : (A → Bool) → List A → Bool
  any p [] = false
  any p (x ∷ xs) = p x || any p xs

  abbrev pub all : (A → Bool) → List A → Bool
  all p [] = true
  all p (x ∷ xs) = p x && all p xs

  pub length-append : (xs ys : List A) → length (xs ++ ys) ≡ length xs + length ys
  length-append [] ys = omega arith
  length-append (x ∷ xs) ys = omega (arith, length-append xs ys)

module _ {ℓ} {A : Type ℓ} where
  pub lt_of_get : (i : ℕ) (xs : List A) {x : A} → get_elem? xs i ≡ some x → i < length xs
  lt_of_get i [] e = cc
  lt_of_get zero (y ∷ xs) e = omega arith
  lt_of_get (suc i) (y ∷ xs) e = omega (arith, lt_of_get i xs e)

  pub get_of_lt : (i : ℕ) (xs : List A) → i < length xs → (x : A) × (get_elem? xs i ≡ some x)
  get_of_lt i [] h = absurd (omega arith)
  get_of_lt zero (y ∷ xs) h = (y, refl)
  get_of_lt (suc i) (y ∷ xs) h = get_of_lt i xs (omega arith)

-- A value at an index is changed where it stands; out of range nothing happens.
module _ {ℓ} {A : Type ℓ} where
  unfoldable pub modify : ℕ → (A → A) → List A → List A
  modify _ f [] = []
  modify zero f (x ∷ xs) = f x ∷ xs
  modify (suc i) f (x ∷ xs) = x ∷ modify i f xs

  pub length-modify : (i : ℕ) (f : A → A) (xs : List A) → length (modify i f xs) ≡ length xs
  unfolding modify
  length-modify i f [] = refl
  length-modify zero f (x ∷ xs) = refl
  length-modify (suc i) f (x ∷ xs) = ap suc (length-modify i f xs)

  pub get_elem?-modify_ne :
      (i j : ℕ) (f : A → A) (xs : List A) → i ≢ j → get_elem? (modify i f xs) j ≡ get_elem? xs j
  unfolding modify
  get_elem?-modify_ne i j f [] h = refl
  get_elem?-modify_ne zero zero f (x ∷ xs) h = absurd (h refl)
  get_elem?-modify_ne zero (suc j) f (x ∷ xs) h = refl
  get_elem?-modify_ne (suc i) zero f (x ∷ xs) h = refl
  get_elem?-modify_ne (suc i) (suc j) f (x ∷ xs) h =
      get_elem?-modify_ne i j f xs (λ e. h (ap suc e))

  pub get_elem?-modify_self :
      (i : ℕ) (f : A → A) (xs : List A) {x : A}
      → get_elem? xs i ≡ some x
      → get_elem? (modify i f xs) i ≡ some (f x)
  unfolding modify
  get_elem?-modify_self i f [] h = cc
  get_elem?-modify_self zero f (y ∷ xs) h = cc
  get_elem?-modify_self (suc i) f (y ∷ xs) h = get_elem?-modify_self i f xs h

  -- A change is one to what it makes of the element that is there.
  pub modify-at :
      (i : ℕ) (f : A → A) (xs : List A) (x : A)
      → get_elem? xs i ≡ some x
      → modify i (λ _. f x) xs ≡ modify i f xs
  unfolding modify
  modify-at i f [] x h = refl
  modify-at zero f (y ∷ xs) x h = ap (λ z. f z ∷ xs) (sym (some_inj h))
  modify-at (suc i) f (y ∷ xs) x h = ap (λ ys. y ∷ ys) (modify-at i f xs x h)

  pub modify-same :
      (i : ℕ) (xs : List A) (x : A) → get_elem? xs i ≡ some x → modify i (λ _. x) xs ≡ xs
  unfolding modify
  modify-same i [] x h = refl
  modify-same zero (y ∷ xs) x h = ap (λ z. z ∷ xs) (sym (some_inj h))
  modify-same (suc i) (y ∷ xs) x h = ap (λ ys. y ∷ ys) (modify-same i xs x h)

  -- What stands at an index after a change stood there before, changed or not.
  pub get_elem?-modify_inv :
      (i j : ℕ) (f : A → A) (xs : List A) {y : A}
      → get_elem? (modify i f xs) j ≡ some y
      → (x : A) × (get_elem? xs j ≡ some x) × ((y ≡ x) ⊎ ((i ≡ j) × (y ≡ f x)))
  unfolding modify
  get_elem?-modify_inv i j f [] h = cc
  get_elem?-modify_inv zero zero f (x ∷ xs) h = (x, refl, inr (refl, cc))
  get_elem?-modify_inv zero (suc j) f (x ∷ xs) {y} h = (y, h, inl refl)
  get_elem?-modify_inv (suc i) zero f (x ∷ xs) {y} h = (y, h, inl refl)
  get_elem?-modify_inv (suc i) (suc j) f (x ∷ xs) h =
      let (z, there, how) = get_elem?-modify_inv i j f xs h in (z, there, ground arith)

  -- An element at the end: those before it stay, and it stands at the old length.
  pub get_elem?-snoc_last : (xs : List A) (y : A) → get_elem? (xs ++ y ∷ []) (length xs) ≡ some y
  get_elem?-snoc_last [] y = refl
  get_elem?-snoc_last (x ∷ xs) y = get_elem?-snoc_last xs y

  pub get_elem?-snoc :
      (xs : List A) (y : A) (i : ℕ) {x : A}
      → get_elem? xs i ≡ some x
      → get_elem? (xs ++ y ∷ []) i ≡ some x
  get_elem?-snoc [] y i h = cc
  get_elem?-snoc (z ∷ xs) y zero h = h
  get_elem?-snoc (z ∷ xs) y (suc i) h = get_elem?-snoc xs y i h

  pub get_elem?-snoc_inv :
      (xs : List A) (y : A) (i : ℕ) {x : A}
      → get_elem? (xs ++ y ∷ []) i ≡ some x
      → (get_elem? xs i ≡ some x) ⊎ ((i ≡ length xs) × (x ≡ y))
  get_elem?-snoc_inv [] y zero h = inr (refl, cc)
  get_elem?-snoc_inv [] y (suc i) h = cc
  get_elem?-snoc_inv (z ∷ xs) y zero h = inl h
  get_elem?-snoc_inv (z ∷ xs) y (suc i) h = ground (arith, get_elem?-snoc_inv xs y i h)

-- What stands in a list after a write is the value written, or stood there before.
pub get_elem?-set_inv {ℓ} :
    {A : Type ℓ} (xs : List A) (i j : ℕ) (v : A) {x : A}
    → get_elem? (set xs i v) j ≡ some x
    → ((i ≡ j) × (v ≡ x)) ⊎ ((i ≢ j) × (get_elem? xs j ≡ some x))
get_elem?-set_inv [] i j v h = cc
get_elem?-set_inv (y ∷ xs) zero zero v h = inl (refl, cc)
get_elem?-set_inv (y ∷ xs) zero (suc j) v h = inr (λ e. omega (arith, e), h)
get_elem?-set_inv (y ∷ xs) (suc i) zero v h = inr (λ e. omega (arith, e), h)
get_elem?-set_inv (y ∷ xs) (suc i) (suc j) v h = ground (arith, get_elem?-set_inv xs i j v h)

pub get_elem?-set_self {ℓ} :
    {A : Type ℓ} (xs : List A) (i : ℕ) (v : A) {x : A}
    → get_elem? xs i ≡ some x
    → get_elem? (set xs i v) i ≡ some v
get_elem?-set_self [] i v h = cc
get_elem?-set_self (y ∷ xs) zero v h = refl
get_elem?-set_self (y ∷ xs) (suc i) v h = get_elem?-set_self xs i v h

pub get_elem?-set_ne {ℓ} :
    {A : Type ℓ} (xs : List A) (i j : ℕ) (v : A) → i ≢ j → get_elem? (set xs i v) j ≡ get_elem? xs j
get_elem?-set_ne [] i j v h = refl
get_elem?-set_ne (y ∷ xs) zero zero v h = absurd (h refl)
get_elem?-set_ne (y ∷ xs) zero (suc j) v h = refl
get_elem?-set_ne (y ∷ xs) (suc i) zero v h = refl
get_elem?-set_ne (y ∷ xs) (suc i) (suc j) v h = get_elem?-set_ne xs i j v (λ e. h (ap suc e))

pub length-set {ℓ} : {A : Type ℓ} (xs : List A) (i : ℕ) (v : A) → length (set xs i v) ≡ length xs
length-set [] i v = refl
length-set (y ∷ xs) zero v = refl
length-set (y ∷ xs) (suc i) v = ap suc (length-set xs i v)

module _ {ℓ κ} {A : Type ℓ} (P : A → Type κ) where
  abbrev pub All : List A → Type κ
  All [] = Unit
  All (x ∷ xs) = P x × All xs

  pub All-append : (xs ys : List A) → All xs → All ys → All (xs ++ ys)
  All-append [] ys hx hy = hy
  All-append (x ∷ xs) ys hx hy = (hx.0, All-append xs ys hx.1 hy)

-- Whether two lists of numbers are the same.
unfoldable pub list_eq : List ℕ → List ℕ → Bool
list_eq [] [] = true
list_eq [] (y ∷ ys) = false
list_eq (x ∷ xs) [] = false
list_eq (x ∷ xs) (y ∷ ys) = (x == y) && list_eq xs ys

pub list_eq_iff : (xs ys : List ℕ) → (list_eq xs ys ≡ true) ↔ (xs ≡ ys)
unfolding list_eq
list_eq_iff [] [] = (λ _. refl, λ _. refl)
list_eq_iff [] (y ∷ ys) = (λ h. cc, λ h. cc)
list_eq_iff (x ∷ xs) [] = (λ h. cc, λ h. cc)
list_eq_iff (x ∷ xs) (y ∷ ys) = ground (arith, list_eq_iff xs ys)
