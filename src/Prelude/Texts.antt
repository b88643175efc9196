-- ===== src/Prelude/Texts.antt =====
-- Go's strings and byte slices: lists of bytes as numbers.
use Prim.Native.Char.{code}
use Prim.Native.String.{String}
use Prim.Native.Nat.{ℕ, ◌+◌, ◌<◌}
use mathlib.Core.Path.{◌≡◌, refl, ap}
use mathlib.Core.Logic.{◌≢◌, ◌⊎◌, inl, inr}
use mathlib.Core.Bool.{Bool, true, false, ◌&&◌}
use mathlib.Core.List.{List, [], ◌∷◌, ◌++◌}
use native.Mathlib.Omega.{arith}
use tokayops.Prelude.Tests.{◌==◌}
use tokayops.Prelude.Lists.{length}

abbrev pub Bytes : Type 0
Bytes = List ℕ

-- The bytes of an ASCII literal, which are its code points.
abbrev pub codes : String → Bytes
codes String.[] = []
codes (String.◌∷◌ c s) = code c ∷ codes s

-- `==` on Go strings
abbrev pub bytes_eq : Bytes → Bytes → Bool
bytes_eq [] [] = true
bytes_eq (a ∷ s) (b ∷ t) = a == b && bytes_eq s t
bytes_eq _ _ = false

abbrev pub is_blank : Bytes → Bool
is_blank [] = true
is_blank (b ∷ s) = false

abbrev pub IsByte : ℕ → Type 0
IsByte b = b < 256

pub bytes_eq-cases : (s t : Bytes) → (s ≡ t) ⊎ (s ≢ t)
bytes_eq-cases [] [] = inl refl
bytes_eq-cases [] (b ∷ t) = inr λ same. ground arith
bytes_eq-cases (a ∷ s) [] = inr λ same. ground arith
bytes_eq-cases (a ∷ s) (b ∷ t) = let rest = bytes_eq-cases s t in ground arith

pub bytes_eq_refl : (s : Bytes) → bytes_eq s s ≡ true
bytes_eq_refl [] = refl
bytes_eq_refl (b ∷ s) = let rest = bytes_eq_refl s in ground arith

pub bytes_eq→eq : (s t : Bytes) → bytes_eq s t ≡ true → s ≡ t
bytes_eq→eq [] [] h = refl
bytes_eq→eq [] (b ∷ t) h = cc
bytes_eq→eq (a ∷ s) [] h = cc
bytes_eq→eq (a ∷ s) (b ∷ t) h = let rest = bytes_eq→eq s t in ground arith

module _ {ℓ} {A : Type ℓ} where
  pub length-append : (xs ys : List A) → length (xs ++ ys) ≡ length xs + length ys
  length-append [] ys = omega arith
  length-append (x ∷ xs) ys = let rest = length-append xs ys in omega arith

  -- Two spellings of one list that break at one place have one front and one rest.
  pub append_cancel :
      (xs ys : List A) {s t : List A}
      → length xs ≡ length ys
      → xs ++ s ≡ ys ++ t
      → (xs ≡ ys) × (s ≡ t)
  append_cancel [] [] level same = (refl, same)
  append_cancel [] (y ∷ ys) level same = absurd (omega arith)
  append_cancel (x ∷ xs) [] level same = absurd (omega arith)
  append_cancel (x ∷ xs) (y ∷ ys) {s} {t} level same =
      let (front, rest) = append_cancel xs ys {s = s} {t = t} (omega arith) (cc) in (cc, rest)

  pub append_cancel_behind :
      (xs ys : List A) {s t : List A}
      → length s ≡ length t
      → xs ++ s ≡ ys ++ t
      → (xs ≡ ys) × (s ≡ t)
  append_cancel_behind xs ys {s} {t} level same =
      let whole = ap length same in
      append_cancel xs ys (omega (arith, whole, length-append xs s, length-append ys t)) same
