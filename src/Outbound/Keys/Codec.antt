-- ===== src/Outbound/Keys/Codec.antt =====
-- internal/outbound/keys/codec.go: the byte encodings that keys and fingerprints are written in.
--
-- A function that writes to a buffer is the bytes it writes; two writes in a row are `++`. A nil
-- pointer or slice is `none`.
pub mod Reading
pub mod Sorting
use tokayops.Prelude.{
  ℕ, ◌/◌, ◌%◌, ◌-◌, ◌^◌, Bool, true, false, Option, none, some, List, [], ◌∷◌, ◌++◌, length, ℤ, pos,
  negsuc, Bytes, codes, ltb, if◌then◌else◌,
}

-- `binary.BigEndian.PutUint32` and `PutUint64`
abbrev pub put_uint32 : ℕ → Bytes
put_uint32 n = n / 2 ^ 24 % 256 ∷ n / 2 ^ 16 % 256 ∷ n / 2 ^ 8 % 256 ∷ n % 256 ∷ []

unfoldable pub put_uint64 : ℕ → Bytes
put_uint64 n = put_uint32 (n / 2 ^ 32) ++ put_uint32 n

-- The conversion of a signed number to `uint64`: two's complement.
abbrev pub uint64 : ℤ → ℕ
uint64 (pos n) = n % 2 ^ 64
uint64 (negsuc n) = 2 ^ 64 - 1 - n % 2 ^ 64

-- A length is written as `uint32(len(value))`, which keeps its last 32 bits.
unfoldable pub enc : Bytes → Bytes
enc value = put_uint32 (length value % 2 ^ 32) ++ value

unfoldable pub enc_opt : Option Bytes → Bytes
enc_opt none = enc (codes "0")
enc_opt (some value) = enc (codes "1") ++ enc value

unfoldable pub int64_bytes : ℤ → Bytes
int64_bytes v = put_uint64 (uint64 v)

unfoldable pub enc_opt_int64 : Option ℤ → Bytes
enc_opt_int64 none = enc (codes "0")
enc_opt_int64 (some v) = enc (codes "1") ++ enc (int64_bytes v)

unfoldable pub enc_bool : Bool → Bytes
enc_bool true = enc (codes "1")
enc_bool false = enc (codes "0")

-- The fields of a material one after the other.
unfoldable pub enc_all : List Bytes → Bytes
enc_all [] = []
enc_all (value ∷ values) = enc value ++ enc_all values

unfoldable pub enc_list : List Bytes → Bytes
enc_list values = put_uint32 (length values % 2 ^ 32) ++ enc_all values

unfoldable pub tagged : ℕ → Bytes → Bytes
tagged tag written = put_uint32 (tag % 2 ^ 32) ++ written

-- `bytes.Compare(a, b) < 0`
unfoldable pub is_before : Bytes → Bytes → Bool
is_before _ [] = false
is_before [] (b ∷ t) = true
is_before (a ∷ s) (b ∷ t) =
    let rest = is_before s t in if ltb a b then true else if ltb b a then false else rest

unfoldable pub insert_bytewise : Bytes → List Bytes → List Bytes
insert_bytewise value [] = value ∷ []
insert_bytewise value (first ∷ rest) =
    let behind = insert_bytewise value rest in
    if is_before first value then first ∷ behind else value ∷ first ∷ rest

-- `sort.Slice` by that order: members that it does not tell apart are the same bytes.
unfoldable pub sort_bytewise : List Bytes → List Bytes
sort_bytewise [] = []
sort_bytewise (value ∷ values) = insert_bytewise value (sort_bytewise values)
