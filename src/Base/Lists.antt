-- ===== src/Base/Lists.antt =====
-- Lists measured by native numbers, tests on lists as functions into Bool, and predicates on lists.
use Prim.Native.Nat.{ℕ, zero, suc, ◌+◌, ◌≤◌}
use mathlib.Core.Path.{◌≡◌, refl}
use mathlib.Core.Logic.{inl, inr}
use mathlib.Core.Bool.{Bool, true, false, ◌||◌}
use mathlib.Core.Option.{Option, none, some}
use mathlib.Core.List.{List, [], ◌∷◌, ◌++◌, map, Memᴰ}
use native.Mathlib.Omega.{arith}
use aio_t_cloud.Base.Tests.{if◌then◌else◌, Bool-cases}

module _ {ℓ} {A : Type ℓ} where
  abbrev pub length : List A → ℕ
  length [] = 0
  length (x ∷ xs) = suc (length xs)

  abbrev pub take : ℕ → List A → List A
  take zero xs = []
  take (suc n) [] = []
  take (suc n) (x ∷ xs) = x ∷ take n xs

  -- `xs.find(p)`
  abbrev pub find? : (A → Bool) → List A → Option A
  find? p [] = none
  find? p (x ∷ xs) = if p x then some x else find? p xs

  -- `xs.some(p)`
  abbrev pub any : (A → Bool) → List A → Bool
  any p [] = false
  any p (x ∷ xs) = p x || any p xs

  -- `xs.filter(p)`
  abbrev pub keep : (A → Bool) → List A → List A
  keep p [] = []
  keep p (x ∷ xs) = let rest = keep p xs in if p x then x ∷ rest else rest

  abbrev pub is_empty : List A → Bool
  is_empty [] = true
  is_empty (_ ∷ _) = false

  pub length-append : (xs ys : List A) → length (xs ++ ys) ≡ length xs + length ys
  length-append [] ys = omega arith
  length-append (x ∷ xs) ys = omega (arith, length-append xs ys)

  pub length-take-le : (n : ℕ) (xs : List A) → length (take n xs) ≤ n
  length-take-le zero xs = omega arith
  length-take-le (suc n) [] = omega arith
  length-take-le (suc n) (x ∷ xs) = omega (arith, length-take-le n xs)

  pub find?-some : (p : A → Bool) (xs : List A) (x : A) → find? p xs ≡ some x → p x ≡ true
  find?-some p [] x h = ground arith
  find?-some p (y ∷ xs) x h = ground (arith, find?-some p xs x)

  pub mem-keep : (p : A → Bool) {x : A} (xs : List A) → Memᴰ x xs → p x ≡ true → Memᴰ x (keep p xs)
  mem-keep p [] m h = elim m [ ]
  mem-keep p (y ∷ xs) (Memᴰ.head e) h = rw (rw e at h) (Memᴰ.head e)
  mem-keep p (y ∷ xs) (Memᴰ.tail m) h = elim (Bool-cases (p y)) [
    | inl kept ↦ rw kept (Memᴰ.tail (mem-keep p xs m h))
    | inr gone ↦ rw gone (mem-keep p xs m h)
  ]

module _ {ℓ} {A : Type ℓ} where
  pub any-mem : (p : A → Bool) {x : A} (xs : List A) → Memᴰ x xs → p x ≡ true → any p xs ≡ true
  any-mem p [] m h = elim m [ ]
  any-mem p (y ∷ xs) (Memᴰ.head e) h = ground arith
  any-mem p (y ∷ xs) (Memᴰ.tail m) h = ground (arith, any-mem p xs m h)

module _ {ℓ κ} {A : Type ℓ} (P : A → Type κ) where
  abbrev pub All : List A → Type κ
  All [] = Unit
  All (x ∷ xs) = P x × All xs

  pub All-append : (xs ys : List A) → All xs → All ys → All (xs ++ ys)
  All-append [] ys _ k = k
  All-append (x ∷ xs) ys (p, h) k = (p, All-append xs ys h k)

  pub All-mem : {x : A} (xs : List A) → All xs → Memᴰ x xs → P x
  All-mem [] _ m = elim m [ ]
  All-mem (y ∷ xs) (p, _) (Memᴰ.head e) = rw e p
  All-mem (y ∷ xs) (_, h) (Memᴰ.tail m) = All-mem xs h m

  pub All-take : (n : ℕ) (xs : List A) → All xs → All (take n xs)
  All-take zero xs h = tt
  All-take (suc n) [] h = tt
  All-take (suc n) (x ∷ xs) (p, h) = (p, All-take n xs h)

-- Of a test that some element passes, one that passes it.
pub any-witness {ℓ κ} :
    {A : Type ℓ} (P : A → Type κ) (p : A → Bool) (xs : List A)
    → All P xs
    → any p xs ≡ true
    → (x : A) × P x × (p x ≡ true)
any-witness P p [] h t = absurd (ground arith)
any-witness P p (x ∷ xs) (h, hs) t = elim (Bool-cases (p x)) [
  | inl here ↦ (x, h, here)
  | inr other ↦ any-witness P p xs hs (ground arith)
]

-- What survives a filter has the old property and passes the test.
pub All-keep {ℓ κ μ} :
    {A : Type ℓ} (P : A → Type κ) (Q : A → Type μ) (p : A → Bool)
    → ((x : A) → P x → p x ≡ true → Q x)
    → (xs : List A) → All P xs
    → All Q (keep p xs)
All-keep P Q p f [] h = tt
All-keep P Q p f (x ∷ xs) (h, hs) = elim (Bool-cases (p x)) [
  | inl kept ↦ rw kept (f x h kept, All-keep P Q p f xs hs)
  | inr gone ↦ rw gone (All-keep P Q p f xs hs)
]

pub All-map {ℓ κ μ} :
    {A : Type ℓ} (P : A → Type κ) (Q : A → Type μ)
    → ((x : A) → P x → Q x)
    → (xs : List A) → All P xs
    → All Q xs
All-map P Q f [] h = tt
All-map P Q f (x ∷ xs) (h, hs) = (f x h, All-map P Q f xs hs)

-- Every element is an element.
pub All-self {ℓ} : {A : Type ℓ} (xs : List A) → All (λ x. Memᴰ x xs) xs
All-self [] = tt
All-self (x ∷ xs) = (
  Memᴰ.head refl,
  All-map (λ y. Memᴰ y xs) (λ y. Memᴰ y (x ∷ xs)) (λ y h. Memᴰ.tail h) xs (All-self xs),
)

-- A map takes what holds of each element along.
pub All-map_to {ℓ κ μ ν} :
    {A : Type ℓ} {B : Type κ} (P : A → Type μ) (Q : B → Type ν) (f : A → B) (xs : List A)
    → ((x : A) → P x → Q (f x))
    → All P xs
    → All Q (map f xs)
All-map_to P Q f [] k h = tt
All-map_to P Q f (x ∷ xs) k (h, hs) = (k x h, All-map_to P Q f xs k hs)
