-- ===== src/Outbound/Keys/Handoff.antt =====
-- internal/outbound/keys/handoff.go: the identity of a handover announcement.
--
-- A Go time is its nanoseconds since 1970, and `none` when it is the zero time.
pub mod Identity
use tokayops.Prelude.{
  ℕ, Bool, true, false, not, ◌==◌, Option, none, some, List, [], ◌∷◌, ◌++◌, any, length, ℤ, pos,
  Bytes, codes, is_blank, Result, ok, err, ◌>>=◌, ◌>>◌, refuse_if,
}
use tokayops.Outbound.Kinds.{Kind}
use tokayops.Outbound.Keys.Codec.{enc, enc_list, int64_bytes, sort_bytewise}
use tokayops.Outbound.Keys.Digest.{Sha256, digest_key, hex}
use tokayops.Outbound.Keys.Grammar.{
  KeyError, unknown_handover_kind, no_schedule, no_assignment_start, empty_user, digest_size,
  no_provider, no_recipient, check_version, opening,
}

pub data HandoffKind : Type 0 where
  shift_change added_to_active_shift : HandoffKind
  unlisted : Bytes → HandoffKind

abbrev pub handoff_text : HandoffKind → Bytes
handoff_text HandoffKind.shift_change = codes "handoff"
handoff_text HandoffKind.added_to_active_shift = codes "added_to_active_shift"
handoff_text (HandoffKind.unlisted s) = s

unfoldable pub validate_handoff_kind : HandoffKind → Result KeyError (Unit {0})
validate_handoff_kind (HandoffKind.unlisted s) = err (unknown_handover_kind s)
validate_handoff_kind _ = ok tt

pub record Occurrence : Type 0 where
  pub kind : HandoffKind
  pub schedule_id : Bytes
  pub source : Bytes
  pub group_id : Bytes
  pub user_ids : List Bytes
  pub assignment_start : Option ℤ
  pub revision_id : Bytes

abbrev pub is_zero_time : Option ℤ → Bool
is_zero_time none = true
is_zero_time (some t) = false

-- `UTC().UnixNano()` of a time that is not zero.
abbrev pub unix_nano : Option ℤ → ℤ
unix_nano none = pos 0
unix_nano (some t) = t

-- `Occurrence.validate`
unfoldable pub validate_occurrence : Occurrence → Result KeyError (Unit {0})
validate_occurrence o = do
  validate_handoff_kind o.kind
  refuse_if (is_blank o.schedule_id) no_schedule
  refuse_if (is_zero_time o.assignment_start) no_assignment_start
  refuse_if (any is_blank o.user_ids) empty_user

unfoldable pub occurrence_material : Occurrence → Bytes
occurrence_material o =
    enc (codes "handoff_occurrence")
    ++ enc (handoff_text o.kind)
    ++ enc o.schedule_id
    ++ enc o.source
    ++ enc o.group_id
    ++ enc_list (sort_bytewise o.user_ids)
    ++ enc (int64_bytes (unix_nano o.assignment_start))
    ++ enc o.revision_id

-- `Occurrence.Digest`
unfoldable pub occurrence_digest : Sha256 → Occurrence → Result KeyError Bytes
occurrence_digest sha o = validate_occurrence o >> ok (sha.sum (occurrence_material o))

-- `Occurrence.Key`
unfoldable pub occurrence_key : Sha256 → Occurrence → Result KeyError Bytes
occurrence_key sha o = do
  digest ← occurrence_digest sha o
  ok (o.schedule_id ++ codes ":" ++ hex digest)

pub record HandoffIntent : Type 0 where
  pub schedule_id : Bytes
  pub occurrence_digest : Bytes
  pub provider : Bytes
  pub user_id : Bytes

-- `handoffIntent.key`
unfoldable pub handoff_key : Sha256 → HandoffIntent → ℤ → Result KeyError Bytes
handoff_key sha i version = do
  check_version Kind.handoff version
  refuse_if (is_blank i.schedule_id) no_schedule
  refuse_if (not (length i.occurrence_digest == 32)) (digest_size (length i.occurrence_digest))
  refuse_if (is_blank i.provider) no_provider
  refuse_if (is_blank i.user_id) no_recipient
  opened ← opening Kind.handoff version
  ok (
      digest_key sha i.schedule_id
        (opened ++ enc i.occurrence_digest ++ enc i.provider ++ enc i.user_id))
