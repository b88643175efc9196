-- ===== src/Outbound/Keys/Fingerprint/Timing.antt =====
-- One encoding of a time is one time: `TimingSpec` of internal/outbound/keys/fingerprint.go.
use tokayops.Prelude.{
  ◌≡◌, sym, ◌∙◌, true, Option, List, [], ◌∷◌, All, ℤ, IsInt64, Bytes, ok, first_step, arith,
}
use tokayops.Outbound.Keys.Codec.{enc_all, int64_bytes}
use tokayops.Outbound.Keys.Codec.Reading.{
  Fits, enc_all-injective, enc_all_cons, int64_bytes-injective, int64_bytes-Fits, writes,
}
use tokayops.Outbound.Keys.Handoff.{is_zero_time, unix_nano}
use tokayops.Outbound.Keys.Fingerprint.{
  TimingKind, TimingSpec, timing_text, is_zero, validate_timing, atoms, encode_timing,
}

abbrev timing_atoms : TimingKind → TimingSpec → List Bytes
timing_atoms TimingKind.relative_to_admission t = int64_bytes t.offset ∷ []
timing_atoms TimingKind.bounded t = int64_bytes (unix_nano t.at) ∷ int64_bytes t.max_age ∷ []
timing_atoms _ t = int64_bytes (unix_nano t.at) ∷ []

abbrev timing_fields : TimingSpec → List Bytes
timing_fields t = timing_text t.kind ∷ timing_atoms t.kind t

timing_atoms-enc_all : (k : TimingKind) (t : TimingSpec) → enc_all (timing_atoms k t) ≡ atoms k t
timing_atoms-enc_all TimingKind.relative_to_admission t = simp writes
timing_atoms-enc_all TimingKind.bounded t = simp writes
timing_atoms-enc_all TimingKind.absolute t = simp writes
timing_atoms-enc_all (TimingKind.unlisted s) t = simp writes

encode_timing-fields :
    (t : TimingSpec) {written : Bytes}
    → encode_timing t ≡ ok written
    → (validate_timing t ≡ ok tt) × (written ≡ enc_all (timing_fields t))
unfolding encode_timing
encode_timing-fields t h =
    let (_, valid, spelled) = first_step (validate_timing t) h in
    let front = enc_all_cons (timing_text t.kind) (timing_atoms t.kind t) in
    let behind = timing_atoms-enc_all t.kind t in (valid, cc)

-- Every number of a time is an int64.
abbrev pub Int64Timing : TimingSpec → Type 0
Int64Timing t = IsInt64 t.offset × IsInt64 (unix_nano t.at) × IsInt64 t.max_age

timing_fields-Fits : (t : TimingSpec) → validate_timing t ≡ ok tt → All Fits (timing_fields t)
unfolding validate_timing
timing_fields-Fits t valid =
    let offset = int64_bytes-Fits t.offset in
    let instant = int64_bytes-Fits (unix_nano t.at) in
    let age = int64_bytes-Fits t.max_age in ground arith

timing_text-injective :
    (s t : TimingSpec)
    → validate_timing s ≡ ok tt
    → validate_timing t ≡ ok tt
    → timing_text s.kind ≡ timing_text t.kind
    → s.kind ≡ t.kind
unfolding validate_timing
timing_text-injective s t vs vt same = ground arith

moments_equal :
    (s t : Option ℤ) → is_zero_time s ≡ is_zero_time t → unix_nano s ≡ unix_nano t → s ≡ t
moments_equal s t zeros same = ground arith

zeros_equal : (i j : ℤ) → is_zero i ≡ true → is_zero j ≡ true → i ≡ j
zeros_equal i j hi hj = ground arith

timing_fields-injective :
    (s t : TimingSpec)
    → validate_timing s ≡ ok tt
    → validate_timing t ≡ ok tt
    → Int64Timing s
    → Int64Timing t
    → timing_fields s ≡ timing_fields t
    → s ≡ t
timing_fields-injective s t vs vt ints intt same =
    let kinds = timing_text-injective s t vs vt (cc) in
    let offsets = int64_bytes-injective s.offset t.offset ints.0 intt.0 in
    let instants = int64_bytes-injective (unix_nano s.at) (unix_nano t.at) ints.1 intt.1 in
    let ages = int64_bytes-injective s.max_age t.max_age ints.2 intt.2 in
    let moments = moments_equal s.at t.at in
    let no_offsets = zeros_equal s.offset t.offset in
    let no_ages = zeros_equal s.max_age t.max_age in unfold validate_timing in ground arith

-- Two times that are written alike are one time, whatever their kinds: no value of a time is left out
-- of what is written, since the fields that a kind does not use are refused when they are set.
pub encode_timing-injective :
    (s t : TimingSpec) (written : Bytes)
    → Int64Timing s
    → Int64Timing t
    → encode_timing s ≡ ok written
    → encode_timing t ≡ ok written
    → s ≡ t
encode_timing-injective s t written ints intt hs ht =
    let (vs, spelled_s) = encode_timing-fields s hs in
    let (vt, spelled_t) = encode_timing-fields t ht in
    let fields =
      enc_all-injective (timing_fields s) (timing_fields t) (timing_fields-Fits s vs)
        (timing_fields-Fits t vt) (sym spelled_s ∙ spelled_t) in
    timing_fields-injective s t vs vt ints intt fields
