-- ===== src/Prelude/Lists.antt =====
-- Lists measured and indexed by native numbers, under the library's names.
use Prim.Native.Nat.{ℕ, zero, suc, ◌+◌, ◌-◌, ◌<◌, min}
use mathlib.Core.Path.{◌≡◌, refl, ap, ap₂, subst}
use mathlib.Core.Logic.{◌≢◌}
use mathlib.Core.List.{List, [], ◌∷◌, ◌++◌, map}
use mathlib.Core.Option.{Option, none, some}
use native.Mathlib.Omega.{arith}

pub some-inj {ℓ} : {A : Type ℓ} {x y : A} → ◌≡◌ {A = Option A} (some x) (some y) → x ≡ y
some-inj {x = x} e = ap (λ o. elim o [ none ↦ x | some z ↦ z ]) e

module _ {ℓ} {A : Type ℓ} where
  abbrev pub length : List A → ℕ
  length [] = 0
  length (x ∷ xs) = suc (length xs)

  abbrev pub get_elem? : List A → ℕ → Option A
  get_elem? [] i = none
  get_elem? (x ∷ xs) zero = some x
  get_elem? (x ∷ xs) (suc i) = get_elem? xs i

  -- A write out of bounds changes nothing.
  abbrev pub set : List A → ℕ → A → List A
  set [] i v = []
  set (x ∷ xs) zero v = v ∷ xs
  set (x ∷ xs) (suc i) v = x ∷ set xs i v

  abbrev pub head? : List A → Option A
  head? [] = none
  head? (x ∷ xs) = some x

  abbrev pub tail : List A → List A
  tail [] = []
  tail (x ∷ xs) = xs

  abbrev pub take : ℕ → List A → List A
  take zero xs = []
  take (suc n) [] = []
  take (suc n) (x ∷ xs) = x ∷ take n xs

  abbrev pub drop : ℕ → List A → List A
  drop zero xs = xs
  drop (suc n) [] = []
  drop (suc n) (x ∷ xs) = drop n xs

  pub length-append : (xs ys : List A) → length (xs ++ ys) ≡ length xs + length ys
  length-append [] ys = omega arith
  length-append (x ∷ xs) ys = omega (arith, length-append xs ys)

  pub length-take : (n : ℕ) (xs : List A) → length (take n xs) ≡ min n (length xs)
  length-take zero xs = omega arith
  length-take (suc n) [] = omega arith
  length-take (suc n) (x ∷ xs) = omega (arith, length-take n xs)

  pub length-drop : (n : ℕ) (xs : List A) → length (drop n xs) ≡ length xs - n
  length-drop zero xs = omega arith
  length-drop (suc n) [] = omega arith
  length-drop (suc n) (x ∷ xs) = omega (arith, length-drop n xs)

  pub take-append-drop : (n : ℕ) (xs : List A) → take n xs ++ drop n xs ≡ xs
  take-append-drop zero xs = refl
  take-append-drop (suc n) [] = refl
  take-append-drop (suc n) (x ∷ xs) = ap (◌∷◌ x) (take-append-drop n xs)

pub get_elem?-lt {ℓ} :
    {A : Type ℓ} (l : List A) (i : ℕ) {x : A} → get_elem? l i ≡ some x → i < length l
get_elem?-lt [] i e = absurd (ground arith)
get_elem?-lt (y ∷ l) zero e = omega arith
get_elem?-lt (y ∷ l) (suc i) e = omega (arith, get_elem?-lt l i e)

pub get_elem?-ne-nil {ℓ} :
    {A : Type ℓ} (l : List A) (i : ℕ) {x : A} → get_elem? l i ≡ some x → l ≢ []
get_elem?-ne-nil l i e empty = absurd (omega (arith, get_elem?-lt l i e, ap length empty))

-- What holds of every element.
abbrev pub All {ℓ κ} : {A : Type ℓ} → (A → Type κ) → List A → Type κ
All P [] = Unit
All P (x ∷ xs) = P x × All P xs

-- What holds of every element, whose places are counted from `j` on.
abbrev pub AllFrom {ℓ κ} : {A : Type ℓ} → (ℕ → A → Type κ) → ℕ → List A → Type κ
AllFrom P j [] = Unit
AllFrom P j (x ∷ xs) = P j x × AllFrom P (j + 1) xs

module _ {ℓ κ} {A : Type ℓ} (P : ℕ → A → Type κ) where
  pub get_elem?-AllFrom :
      (j i : ℕ) (xs : List A) {x : A} → AllFrom P j xs → get_elem? xs i ≡ some x → P (j + i) x
  get_elem?-AllFrom j i [] h e = absurd (ground arith)
  get_elem?-AllFrom j zero (y ∷ xs) h e =
      subst (P (j + 0)) (some-inj e) (subst (λ k. P k y) (omega arith) h.0)
  get_elem?-AllFrom j (suc i) (y ∷ xs) {x} h e =
      subst (λ k. P k x) (omega arith) (get_elem?-AllFrom (j + 1) i xs h.1 e)

  pub set-AllFrom :
      (j i : ℕ) (xs : List A) {x : A} → AllFrom P j xs → P (j + i) x → AllFrom P j (set xs i x)
  set-AllFrom j i [] h p = tt
  set-AllFrom j zero (y ∷ xs) {x} h p = (subst (λ k. P k x) (omega arith) p, h.1)
  set-AllFrom j (suc i) (y ∷ xs) {x} h p =
      (h.0, set-AllFrom (j + 1) i xs h.1 (subst (λ k. P k x) (omega arith) p))

module _ {ℓ κ ι} {A : Type ℓ} {P : A → Type κ} {R : A → Type ι} where
  pub All-map : (xs : List A) → ((x : A) → P x → R x) → All P xs → All R xs
  All-map [] f h = tt
  All-map (x ∷ xs) f h = (f x h.0, All-map xs f h.1)

module _ {ℓ κ} {A : Type ℓ} (P : A → Type κ) where
  pub All-append_left : (xs ys : List A) → All P (xs ++ ys) → All P xs
  All-append_left [] ys h = tt
  All-append_left (x ∷ xs) ys h = (h.0, All-append_left xs ys h.1)

  pub All-append_right : (xs ys : List A) → All P (xs ++ ys) → All P ys
  All-append_right [] ys h = h
  All-append_right (x ∷ xs) ys h = All-append_right xs ys h.1

  pub All-snoc : (xs : List A) (y : A) → All P xs → P y → All P (xs ++ y ∷ [])
  All-snoc [] y h p = (p, tt)
  All-snoc (x ∷ xs) y h p = (h.0, All-snoc xs y h.1 p)

module _ {ℓ κ ι μ} {A : Type ℓ} {P : A → Type κ} {R : A → Type ι} {S : A → Type μ} where
  pub All-zip : (xs : List A) → ((x : A) → P x → R x → S x) → All P xs → All R xs → All S xs
  All-zip [] f h k = tt
  All-zip (x ∷ xs) f h k = (f x h.0 k.0, All-zip xs f h.1 k.1)

pub map-ext {ℓ κ} :
    {A : Type ℓ} {B : Type κ} (f g : A → B) (xs : List A)
    → All (λ x. f x ≡ g x) xs
    → map f xs ≡ map g xs
map-ext f g [] h = refl
map-ext f g (x ∷ xs) h = ap₂ (λ y ys. y ∷ ys) h.0 (map-ext f g xs h.1)

pub All-of_map {ℓ κ ι} :
    {A : Type ℓ} {B : Type κ} (f : A → B) (P : B → Type ι) (xs : List A)
    → All (λ x. P (f x)) xs
    → All P (map f xs)
All-of_map f P [] h = tt
All-of_map f P (x ∷ xs) h = (h.0, All-of_map f P xs h.1)

pub All-from_map {ℓ κ ι} :
    {A : Type ℓ} {B : Type κ} (f : A → B) (P : B → Type ι) (xs : List A)
    → All P (map f xs)
    → All (λ x. P (f x)) xs
All-from_map f P [] h = tt
All-from_map f P (x ∷ xs) h = (h.0, All-from_map f P xs h.1)
