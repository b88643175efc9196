-- ===== src/Outbound/Keys/Digest.antt =====
-- `digestKey` of internal/outbound/keys/keys.go. SHA-256 belongs to Go's library and is a parameter:
-- what is used of it is that a sum is 32 bytes.
pub mod Fields
use tokayops.Prelude.{
  ℕ, ◌+◌, ◌/◌, ◌%◌, ◌<◌, ◌≡◌, ◌≢◌, refl, ◌⊎◌, inl, inr, [], ◌∷◌, ◌++◌, length, length-append, All,
  Bytes, IsByte, codes, bytes_eq-cases, append_cancel_behind, ltb, if◌then◌else◌, arith,
}

pub record Sha256 : Type 0 where
  pub sum : Bytes → Bytes
  pub size : (material : Bytes) → length (sum material) ≡ 32
  pub bytes : (material : Bytes) → All IsByte (sum material)

unfoldable pub hex_digit : ℕ → ℕ
hex_digit n = if ltb n 10 then 48 + n else 87 + n

-- `hex.EncodeToString`
unfoldable pub hex : Bytes → Bytes
unfolding hex_digit
hex [] = []
hex (b ∷ s) = hex_digit (b / 16) ∷ hex_digit (b % 16) ∷ hex s

unfoldable pub digest_key : Sha256 → Bytes → Bytes → Bytes
unfolding hex
digest_key sha prefix material = prefix ++ codes ":" ++ hex (sha.sum material)

-- These two materials are not one, and the digest does not tell them apart.
abbrev pub Collides : Sha256 → Bytes → Bytes → Type 0
Collides sha a b = (a ≢ b) × (sha.sum a ≡ sha.sum b)

hex_digit-injective : (m n : ℕ) → m < 16 → n < 16 → hex_digit m ≡ hex_digit n → m ≡ n
unfolding hex_digit
hex_digit-injective m n hm hn same = ground arith

byte_of_halves : (a b : ℕ) → a / 16 ≡ b / 16 → a % 16 ≡ b % 16 → a ≡ b
byte_of_halves a b high low = omega arith

hex-injective : (s t : Bytes) → All IsByte s → All IsByte t → hex s ≡ hex t → s ≡ t
unfolding hex
hex-injective [] [] _ _ same = refl
hex-injective [] (b ∷ t) _ _ same = ground arith
hex-injective (a ∷ s) [] _ _ same = ground arith
hex-injective (a ∷ s) (b ∷ t) (ha, hs) (hb, ht) same =
    let high = hex_digit-injective (a / 16) (b / 16) (omega arith) (omega arith) (cc) in
    let low = hex_digit-injective (a % 16) (b % 16) (omega arith) (omega arith) (cc) in
    let first = byte_of_halves a b high low in let rest = hex-injective s t hs ht (cc) in (cc)

length-hex : (s : Bytes) → length (hex s) ≡ length s + length s
unfolding hex
length-hex [] = refl
length-hex (b ∷ s) = let rest = length-hex s in omega arith

module _ (sha : Sha256) where
  -- Two materials with one digest are one material, or collide.
  pub sum-cases : (a b : Bytes) → sha.sum a ≡ sha.sum b → (a ≡ b) ⊎ Collides sha a b
  sum-cases a b same = elim (bytes_eq-cases a b) [
    | inl equal ↦ inl equal
    | inr other ↦ inr (other, same)
  ]

  -- Two keys with one text have one prefix and one material, or their materials collide.
  pub digest_key-cases :
      (p q a b : Bytes)
      → digest_key sha p a ≡ digest_key sha q b
      → ((p ≡ q) × (a ≡ b)) ⊎ Collides sha a b
  unfolding digest_key
  digest_key-cases p q a b same =
      let sizes : length (hex (sha.sum a)) ≡ length (hex (sha.sum b)) =
        omega (arith, length-hex (sha.sum a), length-hex (sha.sum b), sha.size a, sha.size b) in
      let (front, digests) = append_cancel_behind (p ++ codes ":") (q ++ codes ":") sizes same in
      let (prefix, _) = append_cancel_behind p q {s = codes ":"} {t = codes ":"} refl front in
      let sums = hex-injective (sha.sum a) (sha.sum b) (sha.bytes a) (sha.bytes b) digests in
      elim (sum-cases a b sums) [ inl equal ↦ inl (prefix, equal) | inr collision ↦ inr collision ]
