-- ===== src/Base/Lists.antt =====
-- Lists measured by native numbers, membership as a test, and the bounded first-in first-out order.
use Prim.Native.Nat.{ℕ, zero, suc, ◌+◌, ◌-◌, ◌≤◌, ◌<◌, min}
use mathlib.Core.Path.{◌≡◌, refl, ap}
use mathlib.Core.Bool.{Bool, false, ◌||◌}
use mathlib.Core.List.{List, [], ◌∷◌, ◌++◌, map}
use mathlib.Core.Option.{Option, none, some}
use native.Mathlib.Nat.{zero-add, suc-add}
use native.Mathlib.Omega.{arith}
use deepaxiom_aura.Base.Tests.{Eq, ◌==◌, if◌then◌else◌}

module _ {ℓ} {A : Type ℓ} where
  abbrev pub length : List A → ℕ
  length [] = 0
  length (x ∷ xs) = suc (length xs)

  abbrev pub take : ℕ → List A → List A
  take zero xs = []
  take (suc n) [] = []
  take (suc n) (x ∷ xs) = x ∷ take n xs

  abbrev pub drop : ℕ → List A → List A
  drop zero xs = xs
  drop (suc n) [] = []
  drop (suc n) (x ∷ xs) = drop n xs

  abbrev pub get_elem? : List A → ℕ → Option A
  get_elem? [] i = none
  get_elem? (x ∷ xs) zero = some x
  get_elem? (x ∷ xs) (suc i) = get_elem? xs i

  pub length-append : (xs ys : List A) → length (xs ++ ys) ≡ length xs + length ys
  length-append [] ys = omega arith
  length-append (x ∷ xs) ys = omega (arith, length-append xs ys)

  pub length-take : (n : ℕ) (xs : List A) → length (take n xs) ≡ min n (length xs)
  length-take zero xs = omega arith
  length-take (suc n) [] = omega arith
  length-take (suc n) (x ∷ xs) = omega (arith, length-take n xs)

  pub length-drop : (n : ℕ) (xs : List A) → length (drop n xs) ≡ length xs - n
  length-drop zero xs = omega arith
  length-drop (suc n) [] = omega arith
  length-drop (suc n) (x ∷ xs) = omega (arith, length-drop n xs)

  pub take-append-drop : (n : ℕ) (xs : List A) → take n xs ++ drop n xs ≡ xs
  take-append-drop zero xs = refl
  take-append-drop (suc n) [] = refl
  take-append-drop (suc n) (x ∷ xs) = ap (λ l. x ∷ l) (take-append-drop n xs)

module _ {ℓ} {A : Type ℓ} where
  pub get_elem?_lt : (xs : List A) (i : ℕ) (a : A) → get_elem? xs i ≡ some a → i < length xs
  get_elem?_lt [] i a h = absurd (ground (arith, h))
  get_elem?_lt (x ∷ xs) zero a h = omega arith
  get_elem?_lt (x ∷ xs) (suc i) a h = omega (arith, get_elem?_lt xs i a h)

  pub get_elem?_some : (xs : List A) (i : ℕ) → i < length xs → ¬ (get_elem? xs i ≡ none)
  get_elem?_some [] i h none_there = absurd (omega arith)
  get_elem?_some (x ∷ xs) zero h none_there = absurd (ground (arith, none_there))
  get_elem?_some (x ∷ xs) (suc i) h none_there = get_elem?_some xs i (omega arith) none_there

  pub get_elem?-take : (xs : List A) (k i : ℕ) → i < k → get_elem? (take k xs) i ≡ get_elem? xs i
  get_elem?-take xs zero i h = absurd (omega arith)
  get_elem?-take [] (suc k) i h = refl
  get_elem?-take (x ∷ xs) (suc k) zero h = refl
  get_elem?-take (x ∷ xs) (suc k) (suc i) h = get_elem?-take xs k i (omega arith)

  pub get_elem?-drop : (xs : List A) (k i : ℕ) → get_elem? (drop k xs) i ≡ get_elem? xs (k + i)
  get_elem?-drop xs zero i = rw zero-add refl
  get_elem?-drop [] (suc k) i = refl
  get_elem?-drop (x ∷ xs) (suc k) i = rw suc-add (get_elem?-drop xs k i)

module _ {ℓ} {A : Type ℓ} ⦃e : Eq A⦄ where
  abbrev pub contains : List A → A → Bool
  contains [] a = false
  contains (x ∷ xs) a = x == a || contains xs a

  -- No element twice.
  abbrev pub Distinct : List A → Type 0
  Distinct [] = Unit
  Distinct (x ∷ xs) = (contains xs x ≡ false) × Distinct xs

  pub contains-append :
      (xs ys : List A) (a : A) → contains (xs ++ ys) a ≡ (contains xs a || contains ys a)
  contains-append [] ys a = refl
  contains-append (x ∷ xs) ys a = ground (arith, contains-append xs ys a)

  pub Distinct-snoc :
      (xs : List A) (a : A) → Distinct xs → contains xs a ≡ false → Distinct (xs ++ a ∷ [])
  Distinct-snoc [] a d h = (refl, tt)
  Distinct-snoc (x ∷ xs) a d h =
      ground (
        arith,
        Distinct-snoc xs a,
        contains-append xs (a ∷ []) x,
        e.agrees_iff a x,
        e.agrees_iff x a,
      )

  -- Remove the first element equal to `a`: Go's `append(l[:i], l[i+1:]...)` at its index.
  unfoldable pub remove_first : List A → A → List A
  remove_first [] a = []
  remove_first (x ∷ xs) a = if x == a then xs else x ∷ remove_first xs a

  pub contains-remove_first :
      (xs : List A) (a b : A)
      → Distinct xs
      → contains (remove_first xs a) b ≡ (if a == b then false else contains xs b)
  unfolding remove_first
  contains-remove_first [] a b d = ground arith
  contains-remove_first (x ∷ xs) a b d =
      ground
        (arith, contains-remove_first xs a b, e.agrees_iff x a, e.agrees_iff x b, e.agrees_iff a b)

  pub Distinct-remove_first : (xs : List A) (a : A) → Distinct xs → Distinct (remove_first xs a)
  unfolding remove_first
  Distinct-remove_first [] a d = tt
  Distinct-remove_first (x ∷ xs) a d =
      ground (arith, Distinct-remove_first xs a, contains-remove_first xs a x, e.agrees_iff a x)

  pub length-remove_first : (xs : List A) (a : A) → length (remove_first xs a) ≤ length xs
  unfolding remove_first
  length-remove_first [] a = omega arith
  length-remove_first (x ∷ xs) a = ground (arith, length-remove_first xs a)

pub get_elem?-before {ℓ} :
    {A : Type ℓ} (xs ys : List A) (i : ℕ) (a : A)
    → get_elem? xs i ≡ some a
    → get_elem? (xs ++ ys) i ≡ some a
get_elem?-before [] ys i a h = absurd (ground (arith, h))
get_elem?-before (x ∷ xs) ys zero a h = h
get_elem?-before (x ∷ xs) ys (suc i) a h = get_elem?-before xs ys i a h

pub get_elem?-last {ℓ} :
    {A : Type ℓ} (xs : List A) (a : A) → get_elem? (xs ++ a ∷ []) (length xs) ≡ some a
get_elem?-last [] a = refl
get_elem?-last (x ∷ xs) a = get_elem?-last xs a

pub take-before {ℓ} :
    {A : Type ℓ} (xs ys : List A) (n : ℕ) → n ≤ length xs → take n (xs ++ ys) ≡ take n xs
take-before xs ys zero h = refl
take-before [] ys (suc n) h = absurd (omega arith)
take-before (x ∷ xs) ys (suc n) h = ap (λ l. x ∷ l) (take-before xs ys n (omega arith))

pub take_whole {ℓ} : {A : Type ℓ} (xs : List A) → take (length xs) xs ≡ xs
take_whole [] = refl
take_whole (x ∷ xs) = ap (λ l. x ∷ l) (take_whole xs)

pub map_snoc {ℓ κ} :
    {A : Type ℓ} {B : Type κ} (f : A → B) (xs : List A) (x : A)
    → map f (xs ++ x ∷ []) ≡ map f xs ++ f x ∷ []
map_snoc f [] x = refl
map_snoc f (y ∷ xs) x = ap (λ l. f y ∷ l) (map_snoc f xs x)
