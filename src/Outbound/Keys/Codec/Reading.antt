-- ===== src/Outbound/Keys/Codec/Reading.antt =====
-- A reader of the grammar that the comment of internal/outbound/keys/codec.go spells out, and what it
-- says of the encodings: they read back from the front of any input, so they hold no less than they
-- were given.
use tokayops.Prelude.{
  ℕ, zero, suc, ◌+◌, ◌-◌, ◌*◌, ◌/◌, ◌^◌, ◌%◌, ◌<◌, ◌≡◌, refl, sym, ◌∙◌, ap, Bool, true, false,
  Option, none, some, List, [], ◌∷◌, ◌++◌, append_assoc, append-nil, length, All, ℤ, pos, negsuc,
  IsInt64, Bytes, codes, ltb, if◌then◌else◌, arith, append_cancel,
}
use tokayops.Outbound.Keys.Codec.{
  put_uint64, enc, enc_opt, enc_opt_int64, int64_bytes, enc_all, enc_list,
}

-- What was read, and the input behind it.
abbrev pub Reader {ℓ} : Type ℓ → Type ℓ
Reader A = Bytes → Option (A × Bytes)

infixl 5 ◌>>=◌
abbrev ◌>>=◌ {ℓ} : {A B : Type ℓ} → Option A → (A → Option B) → Option B
none >>= f = none
some a >>= f = f a

abbrev read_uint32 : Reader ℕ
read_uint32 (a ∷ b ∷ c ∷ d ∷ rest) = some (a * 2 ^ 24 + b * 2 ^ 16 + c * 2 ^ 8 + d, rest)
read_uint32 _ = none

abbrev read_bytes : ℕ → Reader Bytes
read_bytes zero input = some ([], input)
read_bytes (suc n) [] = none
read_bytes (suc n) (b ∷ input) = read_bytes n input >>= λ read. some (b ∷ read.0, read.1)

unfoldable pub read_field : Reader Bytes
read_field input = read_uint32 input >>= λ size. read_bytes size.0 size.1

unfoldable pub read_fields : ℕ → Reader (List Bytes)
read_fields zero input = some ([], input)
read_fields (suc n) input = read_field input >>= λ first.
    read_fields n first.1 >>= λ others. some (first.0 ∷ others.0, others.1)

unfoldable pub read_list : Reader (List Bytes)
read_list input = read_uint32 input >>= λ count. read_fields count.0 count.1

-- Shorter than 4 GiB, so that the length fits its prefix.
abbrev pub Fits {ℓ} : {A : Type ℓ} → List A → Type 0
Fits value = length value < 2 ^ 32

-- The number that four bytes spell.
abbrev joined : ℕ → ℕ
joined n = n / 2 ^ 24 % 256 * 2 ^ 24 + n / 2 ^ 16 % 256 * 2 ^ 16 + n / 2 ^ 8 % 256 * 2 ^ 8 + n % 256

joined_whole : (n : ℕ) → n < 2 ^ 32 → joined (n % 2 ^ 32) ≡ n
joined_whole n h = omega arith

read_bytes-append :
    (value rest : Bytes) → read_bytes (length value) (value ++ rest) ≡ some (value, rest)
read_bytes-append [] rest = refl
read_bytes-append (b ∷ value) rest = rw (read_bytes-append value rest)

pub read_field-enc :
    (value rest : Bytes) → Fits value → read_field (enc value ++ rest) ≡ some (value, rest)
unfolding read_field enc
read_field-enc value rest fits =
    ap (λ size. read_bytes size (value ++ rest)) (joined_whole (length value) fits)
    ∙ read_bytes-append value rest

pub read_fields-enc_all :
    (values : List Bytes) (rest : Bytes)
    → All Fits values
    → read_fields (length values) (enc_all values ++ rest) ≡ some (values, rest)
unfolding read_fields enc_all
read_fields-enc_all [] rest _ = refl
read_fields-enc_all (value ∷ values) rest (fits, fit) =
    rw (append_assoc, read_field-enc value _ fits, read_fields-enc_all values rest fit) refl

-- A list that the grammar writes is read back whole from the front of any input, and leaves what
-- follows it, when it has fewer than 2^32 members, each shorter than 2^32 bytes.
pub read_list-enc_list :
    (values : List Bytes) (rest : Bytes)
    → Fits values
    → All Fits values
    → read_list (enc_list values ++ rest) ≡ some (values, rest)
unfolding read_list enc_list
read_list-enc_list values rest short fit =
    ap (λ count. read_fields count (enc_all values ++ rest)) (joined_whole (length values) short)
    ∙ read_fields-enc_all values rest fit

-- One written field ends where the next begins.
pub enc-cancel :
    (a b : Bytes) {s t : Bytes} → Fits a → Fits b → enc a ++ s ≡ enc b ++ t → (a ≡ b) × (s ≡ t)
enc-cancel a b {s} {t} ha hb same =
    let front = read_field-enc a s ha in let back = read_field-enc b t hb in (cc, cc)

abbrev pub FitsOption : Option Bytes → Type 0
FitsOption none = Unit
FitsOption (some value) = Fits value

-- An absent value and an empty one are told apart, and each from what follows.
pub enc_opt-cancel :
    (a b : Option Bytes) {s t : Bytes}
    → FitsOption a
    → FitsOption b
    → enc_opt a ++ s ≡ enc_opt b ++ t
    → (a ≡ b) × (s ≡ t)
unfolding enc_opt
enc_opt-cancel none none _ _ same =
    let (_, behind) = enc-cancel (codes "0") (codes "0") (omega arith) (omega arith) same in
    (refl, behind)
enc_opt-cancel none (some b) {s} {t} _ _ same =
    let spelled = same ∙ append_assoc (enc (codes "1")) (enc b) t in
    let (mark, _) = enc-cancel (codes "0") (codes "1") (omega arith) (omega arith) spelled in
    ground arith
enc_opt-cancel (some a) none {s} {t} _ _ same =
    let spelled = sym (append_assoc (enc (codes "1")) (enc a) s) ∙ same in
    let (mark, _) = enc-cancel (codes "1") (codes "0") (omega arith) (omega arith) spelled in
    ground arith
enc_opt-cancel (some a) (some b) {s} {t} ha hb same =
    let spelled =
      sym (append_assoc (enc (codes "1")) (enc a) s)
      ∙ same
      ∙ append_assoc (enc (codes "1")) (enc b) t in
    let (_, behind) = enc-cancel (codes "1") (codes "1") (omega arith) (omega arith) spelled in
    let (values, rest) = enc-cancel a b ha hb behind in (cc, rest)

pub enc_list-cancel :
    (xs ys : List Bytes) {s t : Bytes}
    → Fits xs × All Fits xs
    → Fits ys × All Fits ys
    → enc_list xs ++ s ≡ enc_list ys ++ t
    → (xs ≡ ys) × (s ≡ t)
enc_list-cancel xs ys {s} {t} hx hy same =
    let front = read_list-enc_list xs s hx.0 hx.1 in
    let back = read_list-enc_list ys t hy.0 hy.1 in (cc, cc)

-- A material tells its fields, their number included.
pub enc_all-injective :
    (xs ys : List Bytes) → All Fits xs → All Fits ys → enc_all xs ≡ enc_all ys → xs ≡ ys
unfolding enc_all
enc_all-injective [] [] _ _ same = refl
enc_all-injective [] (y ∷ ys) _ _ same = unfold enc in ground arith
enc_all-injective (x ∷ xs) [] _ _ same = unfold enc in ground arith
enc_all-injective (x ∷ xs) (y ∷ ys) (hx, fit_x) (hy, fit_y) same =
    let (first, others) = enc-cancel x y hx hy same in
    let behind = enc_all-injective xs ys fit_x fit_y others in (cc)

pub enc_all-append : (xs ys : List Bytes) → enc_all (xs ++ ys) ≡ enc_all xs ++ enc_all ys
unfolding enc_all
enc_all-append [] ys = refl
enc_all-append (x ∷ xs) ys = rw (enc_all-append xs ys) (sym (append_assoc (enc x) _ _))

-- `int64` of eight bytes.
abbrev pub read_int64 : Bytes → Option ℤ
read_int64 (a ∷ b ∷ c ∷ d ∷ low) = read_uint32 low >>= λ read.
    let n = (a * 2 ^ 24 + b * 2 ^ 16 + c * 2 ^ 8 + d) * 2 ^ 32 + read.0 in
    some (if ltb n (2 ^ 63) then pos n else negsuc (2 ^ 64 - 1 - n))
read_int64 _ = none

joined_halves : (n : ℕ) → n < 2 ^ 64 → joined (n / 2 ^ 32) * 2 ^ 32 + joined n ≡ n
joined_halves n h = omega arith

-- Every number that an int64 holds reads back from its eight bytes.
pub read_int64-int64_bytes : (v : ℤ) → IsInt64 v → read_int64 (int64_bytes v) ≡ some v
unfolding int64_bytes put_uint64
read_int64-int64_bytes (pos n) h =
    let whole = joined_halves (n % 2 ^ 64) (omega arith) in ground (arith, whole)
read_int64-int64_bytes (negsuc n) h =
    let whole = joined_halves (2 ^ 64 - 1 - n % 2 ^ 64) (omega arith) in ground (arith, whole)

pub int64_bytes-injective :
    (v w : ℤ) → IsInt64 v → IsInt64 w → int64_bytes v ≡ int64_bytes w → v ≡ w
int64_bytes-injective v w hv hw same =
    cc (read_int64-int64_bytes v hv, read_int64-int64_bytes w hw, same)

pub int64_bytes-Fits : (v : ℤ) → Fits (int64_bytes v)
unfolding int64_bytes put_uint64
int64_bytes-Fits v = omega arith

pub enc_all_cons : (x : Bytes) (xs : List Bytes) → enc_all (x ∷ xs) ≡ enc x ++ enc_all xs
unfolding enc_all
enc_all_cons x xs = refl

pub enc_all_empty : enc_all [] ≡ []
unfolding enc_all
enc_all_empty = refl

-- The writes of a material, one behind the other.
pub ruleset writes = (enc_all-append, enc_all_cons, enc_all_empty, append_assoc, append-nil)

abbrev pub Int64Option : Option ℤ → Type 0
Int64Option none = Unit
Int64Option (some v) = IsInt64 v

abbrev bytes_of : Option ℤ → Option Bytes
bytes_of none = none
bytes_of (some v) = some (int64_bytes v)

enc_opt_int64-bytes : (v : Option ℤ) → enc_opt_int64 v ≡ enc_opt (bytes_of v)
unfolding enc_opt enc_opt_int64
enc_opt_int64-bytes none = refl
enc_opt_int64-bytes (some v) = refl

bytes_of-Fits : (v : Option ℤ) → FitsOption (bytes_of v)
bytes_of-Fits none = tt
bytes_of-Fits (some v) = int64_bytes-Fits v

bytes_of-injective :
    (v w : Option ℤ) → Int64Option v → Int64Option w → bytes_of v ≡ bytes_of w → v ≡ w
bytes_of-injective none none hv hw same = refl
bytes_of-injective none (some w) hv hw same = ground arith
bytes_of-injective (some v) none hv hw same = ground arith
bytes_of-injective (some v) (some w) hv hw same =
    let numbers = int64_bytes-injective v w hv hw (cc) in (cc)

pub enc_opt_int64-cancel :
    (v w : Option ℤ) {s t : Bytes}
    → Int64Option v
    → Int64Option w
    → enc_opt_int64 v ++ s ≡ enc_opt_int64 w ++ t
    → (v ≡ w) × (s ≡ t)
enc_opt_int64-cancel v w {s} {t} hv hw same =
    let spelled : enc_opt (bytes_of v) ++ s ≡ enc_opt (bytes_of w) ++ t =
      cc (enc_opt_int64-bytes v, enc_opt_int64-bytes w, same) in
    let (numbers, rest) =
      enc_opt-cancel (bytes_of v) (bytes_of w) (bytes_of-Fits v) (bytes_of-Fits w) spelled in
    (bytes_of-injective v w hv hw numbers, rest)
