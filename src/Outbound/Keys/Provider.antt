-- ===== src/Outbound/Keys/Provider.antt =====
-- internal/outbound/keys/keys.go: the keys that a provider is handed.
pub mod Identity
use tokayops.Prelude.{
  ◌++◌, not, ℤ, pos, same_int, is_negative, Bytes, codes, is_blank, Result, ok, ◌>>=◌, ◌>>◌,
  refuse_if,
}
use tokayops.Outbound.Kinds.{Operation}
use tokayops.Outbound.Keys.Codec.{enc, int64_bytes}
use tokayops.Outbound.Keys.Digest.{Sha256, digest_key}
use tokayops.Outbound.Keys.Grammar.{
  KeyError, no_commitment, negative_generation, negative_revision, unknown_provider_codec,
  version_literal, operation_text, validate_operation,
}

-- `ProviderKeyCodecV1`
abbrev pub provider_key_codec_v1 : ℤ
provider_key_codec_v1 = pos 1

unfoldable pub check_provider_codec : ℤ → Result KeyError (Unit {0})
check_provider_codec version =
    refuse_if (not (same_int version provider_key_codec_v1)) (unknown_provider_codec version)

unfoldable pub create_key : Sha256 → Bytes → ℤ → ℤ → Result KeyError Bytes
unfolding check_provider_codec
create_key sha intent_id generation version = do
  check_provider_codec version
  refuse_if (is_blank intent_id) no_commitment
  refuse_if (is_negative generation) (negative_generation generation)
  ok (
      digest_key sha intent_id (
        enc (codes "outbound_create_key/" ++ version_literal version)
        ++ enc intent_id
        ++ enc (int64_bytes generation)))

unfoldable pub mutation_key : Sha256 → Bytes → Operation → ℤ → ℤ → Result KeyError Bytes
unfolding check_provider_codec
mutation_key sha intent_id operation revision version = do
  check_provider_codec version
  refuse_if (is_blank intent_id) no_commitment
  validate_operation operation
  refuse_if (is_negative revision) (negative_revision revision)
  ok (
      digest_key sha intent_id (
        enc (codes "outbound_mutation_key/" ++ version_literal version)
        ++ enc intent_id
        ++ enc (operation_text operation)
        ++ enc (int64_bytes revision)))
