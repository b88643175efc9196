-- ===== src/Prelude/Lists.antt =====
-- Lists under native numbers and Boolean tests, and the tests that no order changes.
use Prim.Native.Nat.{ℕ, suc}
use mathlib.Core.Path.{◌≡◌, refl, ◌∙◌, sym, subst}
use mathlib.Core.Logic.{∥∥₁_elim}
use mathlib.Core.Bool.{Bool, true, false, ◌&&◌, ◌||◌, Bool-set}
use mathlib.Core.List.{List, [], ◌∷◌, Memᴰ, Perm, Permᴰ}
use native.Mathlib.Omega.{arith}

module _ {ℓ} {A : Type ℓ} where
  abbrev pub length : List A → ℕ
  length [] = 0
  length (x ∷ xs) = suc (length xs)

  abbrev pub all : (A → Bool) → List A → Bool
  all p [] = true
  all p (x ∷ xs) = p x && all p xs

  abbrev pub any : (A → Bool) → List A → Bool
  any p [] = false
  any p (x ∷ xs) = p x || any p xs

and_swap : (a b c : Bool) → (a && (b && c)) ≡ (b && (a && c))
and_swap a b c = ground arith

or_swap : (a b c : Bool) → (a || (b || c)) ≡ (b || (a || c))
or_swap a b c = ground arith

module _ {ℓ} {A : Type ℓ} where
  all-permᴰ : (p : A → Bool) {xs ys : List A} → Permᴰ xs ys → all p xs ≡ all p ys
  all-permᴰ p Permᴰ.nil = refl
  all-permᴰ p (Permᴰ.cons e d) = λ i. p (e i) && all-permᴰ p d i
  all-permᴰ p (Permᴰ.swap {a = x} {b = y} {l = l} e f) =
      (λ i. p (e i) && (p (f i) && all p l)) ∙ and_swap _ _ (all p l)
  all-permᴰ p (Permᴰ.trans d e) = all-permᴰ p d ∙ all-permᴰ p e

  any-permᴰ : (p : A → Bool) {xs ys : List A} → Permᴰ xs ys → any p xs ≡ any p ys
  any-permᴰ p Permᴰ.nil = refl
  any-permᴰ p (Permᴰ.cons e d) = λ i. p (e i) || any-permᴰ p d i
  any-permᴰ p (Permᴰ.swap {a = x} {b = y} {l = l} e f) =
      (λ i. p (e i) || (p (f i) || any p l)) ∙ or_swap _ _ (any p l)
  any-permᴰ p (Permᴰ.trans d e) = any-permᴰ p d ∙ any-permᴰ p e

  pub all-perm : (p : A → Bool) {xs ys : List A} → Perm xs ys → all p xs ≡ all p ys
  all-perm p d = ∥∥₁_elim d (Bool-set _ _) (all-permᴰ p)

  pub any-perm : (p : A → Bool) {xs ys : List A} → Perm xs ys → any p xs ≡ any p ys
  any-perm p d = ∥∥₁_elim d (Bool-set _ _) (any-permᴰ p)

-- A predicate on every element, by recursion.
abbrev pub All {ℓ κ} : {Item : Type ℓ} (Holds : Item → Type κ) → List Item → Type κ
All Holds [] = Unit
All Holds (item ∷ items) = Holds item × All Holds items

pub All-mem {ℓ κ} : {A : Type ℓ} (P : A → Type κ) {x : A} {xs : List A} → Memᴰ x xs → All P xs → P x
All-mem P (Memᴰ.head e) h = subst P (sym e) h.0
All-mem P (Memᴰ.tail m) h = All-mem P m h.1
