-- ===== src/Cache/BlockId.antt =====
-- internal/cache/blockid.go: the index of a chunk, from the block id that its PUT carries.
--
-- The four base64 decoders are parameters: each gives the bytes or fails. The largest decimal index
-- has 12 digits and the largest binary one 32 bits, so an int of 64 bits does not overflow.
use multirunner.Common.{
  All-append, ℕ, zero, suc, ◌+◌, ◌-◌, ◌*◌, ◌/◌, ◌%◌, ◌^◌, ◌<◌, ◌≡◌, refl, ◌∙◌, ap, Bool, true, not,
  ◌||◌, Option, none, some, List, [], ◌∷◌, ◌++◌, ◌==◌, ltb, if◌then◌else◌, length, length-append,
  All, Text, arith,
}
use native.Mathlib.Nat.{pow-suc, pow-zero}

pub record Decoders : Type 0 where
  pub std : Text → Option Text
  pub raw_std : Text → Option Text
  pub url : Text → Option Text
  pub raw_url : Text → Option Text

-- decodeBase64: the first decoder that succeeds; nil, which has no bytes, if none does.
unfoldable pub first_decoded : List (Option Text) → Text
first_decoded [] = []
first_decoded (none ∷ xs) = first_decoded xs
first_decoded (some b ∷ xs) = b

unfoldable pub decode_base64 : Decoders → Text → Text
unfolding first_decoded
decode_base64 d s = first_decoded (d.std s ∷ d.raw_std s ∷ d.url s ∷ d.raw_url s ∷ [])

abbrev pub is_digit : ℕ → Bool
is_digit c = not (ltb c 48 || ltb 57 c)

-- The loop of parseLeadingInt: what n and count are at its end.
unfoldable pub parse_loop : Text → ℕ → ℕ → ℕ × ℕ
parse_loop [] n count = (n, count)
parse_loop (c ∷ s) n count =
    let rest = parse_loop s (n * 10 + (c - 48)) (count + 1) in
    if is_digit c then rest else (n, count)

-- parseLeadingInt
unfoldable pub parse_leading_int : Text → Option ℕ
unfolding parse_loop
parse_leading_int s = let (n, count) = parse_loop s 0 0 in if count == 0 then none else some n

-- s[n:]
unfoldable pub drop : ℕ → Text → Text
drop zero s = s
drop (suc n) [] = []
drop (suc n) (c ∷ s) = drop n s

-- binary.BigEndian.Uint32
unfoldable pub big_endian_uint32 : Text → ℕ
big_endian_uint32 (a ∷ b ∷ c ∷ d ∷ s) = ((a * 256 + b) * 256 + c) * 256 + d
big_endian_uint32 _ = 0

-- The cases of chunkIndexFromBlockID on what was decoded.
unfoldable pub chunk_index : Text → Option ℕ
unfolding parse_leading_int drop big_endian_uint32
chunk_index decoded =
    if length decoded == 64
    then some (big_endian_uint32 (drop 16 decoded))
    else if length decoded == 48
    then parse_leading_int (drop 36 decoded)
    else none

-- chunkIndexFromBlockID
unfoldable pub chunk_index_from_block_id : Decoders → Text → Option ℕ
unfolding decode_base64 chunk_index
chunk_index_from_block_id d id = chunk_index (decode_base64 d id)

-- The value of a list of digits, read from the left onto n.
abbrev pub value : List ℕ → ℕ → ℕ
value [] n = n
value (c ∷ s) n = value s (n * 10 + (c - 48))

abbrev pub AllDigits : Text → Type 0
AllDigits s = All (λ c. is_digit c ≡ true) s

parse_loop-digits :
    (ds : Text) (n count : ℕ)
    → AllDigits ds
    → parse_loop ds n count ≡ (value ds n, count + length ds)
unfolding parse_loop
parse_loop-digits [] n count a = ap (λ k. (n, k)) (omega arith)
parse_loop-digits (d ∷ ds) n count a = rw a.0 (
    parse_loop-digits ds (n * 10 + (d - 48)) (count + 1) a.1
    ∙ ap (λ k. (value ds (n * 10 + (d - 48)), k)) (omega arith))

-- The decimal text of a number at a fixed width.
unfoldable pub pad : ℕ → ℕ → Text
pad zero n = []
pad (suc w) n = pad w (n / 10) ++ (n % 10 + 48) ∷ []

pad-AllDigits : (w n : ℕ) → AllDigits (pad w n)
unfolding pad
pad-AllDigits zero n = tt
pad-AllDigits (suc w) n =
    All-append (λ c. is_digit c ≡ true) (pad w (n / 10)) _ (pad-AllDigits w (n / 10))
      (ground arith, tt)

length-pad : (w n : ℕ) → length (pad w n) ≡ w
unfolding pad
length-pad zero n = refl
length-pad (suc w) n =
    omega (arith, length-append (pad w (n / 10)) ((n % 10 + 48) ∷ []), length-pad w (n / 10))

value-append : (ds : Text) (d n : ℕ) → value (ds ++ d ∷ []) n ≡ value ds n * 10 + (d - 48)
value-append [] d n = refl
value-append (c ∷ ds) d n = value-append ds d (n * 10 + (c - 48))

value-pad : (w n : ℕ) → n < 10 ^ w → value (pad w n) 0 ≡ n
unfolding pad
value-pad zero n h = omega (arith, h, pow-zero 10)
value-pad (suc w) n h =
    value-append (pad w (n / 10)) (n % 10 + 48) 0
    ∙ omega (arith, value-pad w (n / 10) (omega (arith, h, pow-suc 10 w)))

drop-append : (u s : Text) (n : ℕ) → length u ≡ n → drop n (u ++ s) ≡ s
unfolding drop
drop-append [] s zero h = refl
drop-append [] s (suc n) h = absurd (omega (arith, h))
drop-append (c ∷ u) s zero h = absurd (omega (arith, h))
drop-append (c ∷ u) s (suc n) h = drop-append u s n (omega (arith, h))

parse_leading_int-pad : (n : ℕ) → n < 10 ^ 12 → parse_leading_int (pad 12 n) ≡ some n
unfolding parse_leading_int
parse_leading_int-pad n h =
    rw (parse_loop-digits (pad 12 n) 0 0 (pad-AllDigits 12 n), length-pad 12 n, value-pad 12 n h)
      refl

-- The bytes of a number of 32 bits.
unfoldable pub bytes_of : ℕ → Text
bytes_of n = n / 16777216 ∷ n / 65536 % 256 ∷ n / 256 % 256 ∷ n % 256 ∷ []

big_endian_uint32-bytes_of : (n : ℕ) (s : Text) → big_endian_uint32 (bytes_of n ++ s) ≡ n
unfolding big_endian_uint32 bytes_of
big_endian_uint32-bytes_of n s = omega arith

length-bytes_of : (n : ℕ) (s : Text) → length (bytes_of n ++ s) ≡ 4 + length s
unfolding bytes_of
length-bytes_of n s = omega arith

-- The index is read back from both of the formats: 36 bytes and 12 decimal digits, and 16 bytes,
-- the 4 bytes of an index below 2^32 and 44 further bytes.
pub chunk_index-inverts :
    (n m : ℕ) (u v w : Text)
    → n < 10 ^ 12
    → m < 2 ^ 32
    → length u ≡ 36
    → length v ≡ 16
    → length w ≡ 44
    → (chunk_index (u ++ pad 12 n) ≡ some n) × (chunk_index (v ++ (bytes_of m ++ w)) ≡ some m)
unfolding chunk_index
chunk_index-inverts n m u v w h k hu hv hw = (
  rw (length-append u (pad 12 n), hu, length-pad 12 n, drop-append u (pad 12 n) 36 hu)
      (parse_leading_int-pad n h),
  rw
      (
        length-append v (bytes_of m ++ w),
        hv,
        length-bytes_of m w,
        hw,
        drop-append v (bytes_of m ++ w) 16 hv,
      )
      (ap (λ x. some x) (big_endian_uint32-bytes_of m w)),
)
