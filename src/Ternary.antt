-- ===== src/Ternary.antt =====
-- crates/ternary/src/codes.rs: two-bit codes packed into 32-bit words, least significant first, and
-- crates/ultragraph/src/pack.rs: five ternary values to a byte in base 3. The `debug_assert!`s are
-- those of a release build: absent.
pub mod Codes
pub mod Illegal
pub mod Bytes
use Prim.Native.Nat.{bit_and, bit_or}
use entheai.Base.{
  ℕ, zero, suc, ◌+◌, ◌-◌, ◌*◌, ◌/◌, ◌%◌, ◌^◌, ◌<◌, Bool, true, false, not, Option, none, some, List,
  [], ◌∷◌, ◌++◌, length, take, leb, ltb, ◌==◌, if◌then◌else◌, ◌>>=◌,
}

abbrev pub codes_per_word : ℕ
codes_per_word = 16

abbrev pub bits_per_code : ℕ
bits_per_code = 2

abbrev shr : ℕ → ℕ → ℕ
shr word k = word / 2 ^ k

-- `u32 << k`: bits above the 32nd are lost.
abbrev shl : ℕ → ℕ → ℕ
shl c k = c * 2 ^ k % 2 ^ 32

-- The fields from the `i`-th on, `n` of them.
unfoldable pub decode_fields : ℕ → ℕ → ℕ → List ℕ
decode_fields zero i word = []
decode_fields (suc n) i word =
    bit_and (shr word (bits_per_code * i)) 3 ∷ decode_fields n (suc i) word

unfoldable pub decode_word : ℕ → List ℕ
unfolding decode_fields
decode_word word = decode_fields codes_per_word 0 word

unfoldable pub encode_fields : ℕ → ℕ → List ℕ → ℕ
encode_fields i word [] = word
encode_fields i word (c ∷ codes) =
    encode_fields (suc i) (bit_or word (shl c (bits_per_code * i))) codes

unfoldable pub encode_word : List ℕ → ℕ
unfolding encode_fields
encode_word codes = encode_fields 0 0 codes

abbrev pub decode_words : List ℕ → List ℕ
decode_words [] = []
decode_words (w ∷ ws) = decode_word w ++ decode_words ws

-- `none` where the assertion on the output's length fails. The two loops write every slot in order.
unfoldable pub decode_row : List ℕ → ℕ → Option (List ℕ)
unfolding decode_word
decode_row words out_len =
    if out_len == length words * codes_per_word then some (decode_words words) else none

unfoldable pub word_has_illegal_code : ℕ → Bool
word_has_illegal_code word = not (bit_and (bit_and word (shr word 1)) 0x55555555 == 0)

-- An `i8`; `negsuc n` is -(n + 1).
pub data ℤ : Type 0 where
  pos : ℕ → ℤ
  negsuc : ℕ → ℤ

abbrev pub place_values : List ℕ
place_values = 1 ∷ 3 ∷ 9 ∷ 27 ∷ 81 ∷ []

-- `val + 1` for a value in -1, 0, 1, and `none` where the assertion fails.
abbrev pub digit_of : ℤ → Option ℕ
digit_of (negsuc zero) = some 0
digit_of (negsuc (suc n)) = none
digit_of (pos zero) = some 1
digit_of (pos (suc zero)) = some 2
digit_of (pos (suc (suc n))) = none

-- `digit as i8 - 1`.
abbrev pub value_of : ℕ → ℤ
value_of zero = negsuc 0
value_of (suc n) = pos n

-- `chunks(5)`: the last one may be shorter.
abbrev pub chunks {ℓ} : {A : Type ℓ} → List A → List (List A)
chunks (a ∷ b ∷ c ∷ d ∷ e ∷ rest) = (a ∷ b ∷ c ∷ d ∷ e ∷ []) ∷ chunks rest
chunks [] = []
chunks xs = xs ∷ []

-- The loop over a chunk, with the place values that are left.
abbrev pub chunk_sum : ℕ → List ℕ → List ℤ → Option ℕ
chunk_sum byte_sum places [] = some byte_sum
chunk_sum byte_sum [] (v ∷ vs) = none
chunk_sum byte_sum (p ∷ places) (v ∷ vs) = do d ← digit_of v; chunk_sum (byte_sum + d * p) places vs

abbrev pub pack_chunks : List (List ℤ) → Option (List ℕ)
pack_chunks [] = some []
pack_chunks (c ∷ cs) = do
  byte_sum ← chunk_sum 0 place_values c
  out ← pack_chunks cs
  some (byte_sum % 256 ∷ out)

unfoldable pub pack_ternary : List ℤ → Option (List ℕ)
pack_ternary q = pack_chunks (chunks q)

abbrev pub unpack_byte : ℕ → ℕ → List ℤ
unpack_byte zero b = []
unpack_byte (suc n) b = value_of (b % 3) ∷ unpack_byte n (b / 3)

abbrev pub unpack_bytes : List ℕ → List ℤ
unpack_bytes [] = []
unpack_bytes (b ∷ bs) = unpack_byte 5 b ++ unpack_bytes bs

unfoldable pub unpack_ternary : List ℕ → ℕ → List ℤ
unpack_ternary packed n = take n (unpack_bytes packed)
