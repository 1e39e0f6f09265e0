-- ===== src/Prelude/Lists.antt =====
-- Lists measured by native numbers, under the library's names, and Boolean search over them.
use Prim.Native.Nat.{ℕ, zero, suc, ◌+◌, ◌≤◌, min}
use mathlib.Core.Path.{◌≡◌, refl, sym, ap, ◌∙◌}
use mathlib.Core.Logic.{inl, inr}
use mathlib.Core.Bool.{Bool, true, false, ◌&&◌, ◌||◌}
use mathlib.Core.List.{List, [], ◌∷◌, ◌++◌, Memᴰ}
use mathlib.Core.Option.{Option, none, some}
use native.Mathlib.Omega.{arith}
use openzeppelin_monitor.Prelude.Tests.{◌==◌, if◌then◌else◌, ==_iff, Bool-cases}

module _ {ℓ} {A : Type ℓ} where
  abbrev pub length : List A → ℕ
  length [] = 0
  length (x ∷ xs) = suc (length xs)

  abbrev pub take : ℕ → List A → List A
  take zero xs = []
  take (suc n) [] = []
  take (suc n) (x ∷ xs) = x ∷ take n xs

  abbrev pub get_elem? : List A → ℕ → Option A
  get_elem? [] i = none
  get_elem? (x ∷ xs) zero = some x
  get_elem? (x ∷ xs) (suc i) = get_elem? xs i

  -- `Iterator::filter`, `any` and `all` over a Boolean test.
  abbrev pub filter : (A → Bool) → List A → List A
  filter p [] = []
  filter p (x ∷ xs) = let rest = filter p xs in if p x then x ∷ rest else rest

  abbrev pub any : (A → Bool) → List A → Bool
  any p [] = false
  any p (x ∷ xs) = p x || any p xs

  abbrev pub all : (A → Bool) → List A → Bool
  all p [] = true
  all p (x ∷ xs) = p x && all p xs

  -- `Iterator::find`.
  abbrev pub find : (A → Bool) → List A → Option A
  find p [] = none
  find p (x ∷ xs) = let rest = find p xs in if p x then some x else rest

  abbrev pub is_empty : List A → Bool
  is_empty [] = true
  is_empty (x ∷ xs) = false

  abbrev pub All {κ} : (A → Type κ) → List A → Type κ
  All P [] = Unit
  All P (x ∷ xs) = P x × All P xs

  pub length-append : (xs ys : List A) → length (xs ++ ys) ≡ length xs + length ys
  length-append [] ys = omega arith
  length-append (x ∷ xs) ys = omega (arith, length-append xs ys)

  pub length-filter_le : (p : A → Bool) (xs : List A) → length (filter p xs) ≤ length xs
  length-filter_le p [] = omega arith
  length-filter_le p (x ∷ xs) = ground (arith, length-filter_le p xs)

  pub length-take : (n : ℕ) (xs : List A) → length (take n xs) ≡ min n (length xs)
  length-take zero xs = omega arith
  length-take (suc n) [] = omega arith
  length-take (suc n) (x ∷ xs) = omega (arith, length-take n xs)

  pub All-append {κ} : (P : A → Type κ) (xs ys : List A) → All P xs → All P ys → All P (xs ++ ys)
  All-append P [] ys h k = k
  All-append P (x ∷ xs) ys (p, h) k = (p, All-append P xs ys h k)

  pub All-mem {κ} : (P : A → Type κ) {a : A} (xs : List A) → Memᴰ a xs → All P xs → P a
  All-mem P [] m h = elim m [ ]
  All-mem P (x ∷ xs) (Memᴰ.head e) (p, _) = rw e p
  All-mem P (x ∷ xs) (Memᴰ.tail m) (_, h) = All-mem P xs m h

  pub All-filter : (p : A → Bool) (xs : List A) → All (λ x. p x ≡ true) (filter p xs)
  All-filter p [] = tt
  All-filter p (x ∷ xs) = elim (Bool-cases (p x)) [
    | inl e ↦ rw e (e, All-filter p xs)
    | inr e ↦ rw e (All-filter p xs)
  ]

  pub All-filter_of_All {κ} :
      (P : A → Type κ) (p : A → Bool) (xs : List A) → All P xs → All P (filter p xs)
  All-filter_of_All P p [] h = tt
  All-filter_of_All P p (x ∷ xs) (h, hs) = elim (Bool-cases (p x)) [
    | inl e ↦ rw e (h, All-filter_of_All P p xs hs)
    | inr e ↦ rw e (All-filter_of_All P p xs hs)
  ]

-- `contains` on a collection of numbers.
abbrev pub contains : List ℕ → ℕ → Bool
contains [] n = false
contains (x ∷ xs) n = x == n || contains xs n

pub contains-append :
    (xs ys : List ℕ) (n : ℕ) → contains (xs ++ ys) n ≡ contains xs n || contains ys n
contains-append [] ys n = refl
contains-append (x ∷ xs) ys n = ground (arith, contains-append xs ys n)

pub mem_of_contains : (xs : List ℕ) (n : ℕ) → contains xs n ≡ true → Memᴰ n xs
mem_of_contains [] n h = cc
mem_of_contains (x ∷ xs) n h = elim (Bool-cases (x == n)) [
  | inl e ↦ Memᴰ.head (sym ((==_iff x n).0 e))
  | inr e ↦ Memᴰ.tail (mem_of_contains xs n (ground arith))
]

-- No number stands twice in the list.
abbrev pub IsDistinct : List ℕ → Type 0
IsDistinct [] = Unit
IsDistinct (x ∷ xs) = (contains xs x ≡ false) × IsDistinct xs

pub IsDistinct-push_back :
    (xs : List ℕ) (n : ℕ) → IsDistinct xs → contains xs n ≡ false → IsDistinct (xs ++ n ∷ [])
IsDistinct-push_back [] n h e = (refl, tt)
IsDistinct-push_back (x ∷ xs) n (p, h) e =
    (contains-append xs (n ∷ []) x ∙ ground arith, IsDistinct-push_back xs n h (ground arith))

module _ {ℓ} {A : Type ℓ} where
  mem-filter_head :
      (p : A → Bool) (x y : A) (ys : List A)
      → p y ≡ true
      → (Memᴰ x (filter p ys) → Memᴰ x ys × (p x ≡ true))
      → Memᴰ x (y ∷ filter p ys)
      → Memᴰ x (y ∷ ys) × (p x ≡ true)
  mem-filter_head p x y ys e rest (Memᴰ.head h) = (Memᴰ.head h, ap p h ∙ e)
  mem-filter_head p x y ys e rest (Memᴰ.tail m) = let (m', h) = rest m in (Memᴰ.tail m', h)

  pub mem-filter :
      (p : A → Bool) (x : A) (xs : List A) → Memᴰ x (filter p xs) → Memᴰ x xs × (p x ≡ true)
  mem-filter p x [] m = elim m [ ]
  mem-filter p x (y ∷ ys) m = elim (Bool-cases (p y)) [
    | inl e ↦ mem-filter_head p x y ys e (mem-filter p x ys) (rw e at m)
    | inr e ↦ let (m', h) = mem-filter p x ys (rw e at m) in (Memᴰ.tail m', h)
  ]

  pub All-impl {κ μ} :
      (P : A → Type κ) (Q : A → Type μ) (xs : List A) → ((x : A) → P x → Q x) → All P xs → All Q xs
  All-impl P Q [] f h = tt
  All-impl P Q (x ∷ xs) f (h, hs) = (f x h, All-impl P Q xs f hs)

  pub All-unless {κ} :
      (P : A → Type κ) (b : Bool) (xs : List A) → All P xs → All P (if b then [] else xs)
  All-unless P true xs h = tt
  All-unless P false xs h = h

module _ {ℓ} {A : Type ℓ} where
  found_later :
      (p : A → Bool) (x y : A) (ys : List A)
      → Memᴰ x ys × (p x ≡ true)
      → Memᴰ x (y ∷ ys) × (p x ≡ true)
  found_later p x y ys (m, h) = (Memᴰ.tail m, h)

  -- What a search finds stands in the list and passes the test.
  pub find-Found :
      (p : A → Bool) (xs : List A) {x : A} → find p xs ≡ some x → Memᴰ x xs × (p x ≡ true)
  find-Found p [] h = absurd (cc)
  find-Found p (y ∷ ys) {x} h = elim (Bool-cases (p y)) [
    | inl e ↦ let same : y ≡ x = cc in (Memᴰ.head (sym same), ap p (sym same) ∙ e)
    | inr e ↦ found_later p x y ys (find-Found p ys (rw e at h))
  ]

  pub any-Found :
      (p : A → Bool) (xs : List A) → any p xs ≡ true → (x : A) × Memᴰ x xs × (p x ≡ true)
  any-Found p [] h = absurd (cc)
  any-Found p (y ∷ ys) h = elim (Bool-cases (p y)) [
    | inl e ↦ (y, Memᴰ.head refl, e)
    | inr e ↦ let (x, m, k) = any-Found p ys (rw e at h) in (x, Memᴰ.tail m, k)
  ]

module _ {ℓ κ} {A : Type ℓ} (P : A → Type κ) where
  pub All-of_mem : (xs : List A) → ((x : A) → Memᴰ x xs → P x) → All P xs
  All-of_mem [] h = tt
  All-of_mem (x ∷ xs) h = (h x (Memᴰ.head refl), All-of_mem xs λ y m. h y (Memᴰ.tail m))
