-- ===== src/Outbound/Keys/Digest/Fields.antt =====
-- A key of internal/outbound/keys/keys.go over the fields that its material is made of.
use tokayops.Prelude.{◌≡◌, ◌⊎◌, inl, inr, sym, ◌∙◌, List, All, Bytes}
use tokayops.Outbound.Keys.Codec.{enc_all}
use tokayops.Outbound.Keys.Codec.Reading.{Fits, enc_all-injective}
use tokayops.Outbound.Keys.Digest.{Sha256, digest_key, digest_key-cases, Collides}

-- One key over two lists of fields: the lists are one, or their encodings collide.
pub fields_cases :
    (sha : Sha256) (p q : Bytes) (xs ys : List Bytes) {key : Bytes}
    → All Fits xs
    → All Fits ys
    → key ≡ digest_key sha p (enc_all xs)
    → key ≡ digest_key sha q (enc_all ys)
    → (xs ≡ ys) ⊎ Collides sha (enc_all xs) (enc_all ys)
fields_cases sha p q xs ys fit_x fit_y key_x key_y =
    elim (digest_key-cases sha p q _ _ (sym key_x ∙ key_y)) [
      | inl (_, materials) ↦ inl (enc_all-injective xs ys fit_x fit_y materials)
      | inr collision ↦ inr collision
    ]
