-- ===== src/Stx.antt =====
-- What the program calls in the vendored library deps/libstx: the byte codecs
-- (util/BinaryMessageWriter, util/BinaryMessageReader, io/OutputStream, io/InputStream), the
-- bit-packed integer codec (util/BitPackEncoder, util/BitPackDecoder), SHA1, and IEEE754 with the
-- conversions of floats and texts. Each is a record of operations and of the documented laws
-- that the program relies on, and a parameter of what uses it. A writer or an output stream is
-- the list of bytes written so far.
pub mod Sorting
pub mod Sample
use libcstable.Prelude.{
  ℕ, zero, suc, ◌+◌, ◌^◌, ◌≤◌, ◌<◌, ◌≡◌, ◌≢◌, Option, none, some, List, [], ◌∷◌, ◌++◌, length, All,
  replicate, Bool,
}
use libcstable.Prelude.Bytes.{Bytes, store}
use libcstable.Prelude.Int.{ℤ}
use mathlib.Core.List.{foldl, Permᴰ}
use libcstable.Stx.Sorting.{IsStrictOrder, IsAscending}

-- appendUInt16, appendUInt32, appendUInt64 and appendVarUInt, the reads that undo them, SHA1, and
-- std::sort, which leaves the order of equivalent elements unspecified. A read answers `none` where
-- the library throws because the bytes end.
pub record Wire : Type 1 where
  pub u16 : ℕ → Bytes
  pub u32 : ℕ → Bytes
  pub u64 : ℕ → Bytes
  pub varuint : ℕ → Bytes
  pub get_u32 : Bytes → Option (ℕ × Bytes)
  pub get_u64 : Bytes → Option (ℕ × Bytes)
  pub get_varuint : Bytes → Option (ℕ × Bytes)
  pub sha1 : Bytes → Bytes
  pub sort : {A : Type 0} → (A → A → Bool) → List A → List A
  pub get_u32-u32 : (n : ℕ) (rest : Bytes) → n < 2 ^ 32 → get_u32 (u32 n ++ rest) ≡ some (n, rest)
  pub get_u64-u64 : (n : ℕ) (rest : Bytes) → n < 2 ^ 64 → get_u64 (u64 n ++ rest) ≡ some (n, rest)
  pub get_varuint-varuint :
      (n : ℕ) (rest : Bytes) → n < 2 ^ 64 → get_varuint (varuint n ++ rest) ≡ some (n, rest)
  -- The fixed-width integers are copied from memory, lowest byte first.
  pub u16-store : (n : ℕ) → u16 n ≡ store 2 n
  pub u32-store : (n : ℕ) → u32 n ≡ store 4 n
  pub length-u16 : (n : ℕ) → length (u16 n) ≡ 2
  pub length-u32 : (n : ℕ) → length (u32 n) ≡ 4
  pub length-u64 : (n : ℕ) → length (u64 n) ≡ 8
  pub varuint-pos : (n : ℕ) → 1 ≤ length (varuint n)
  pub length-sha1 : (bs : Bytes) → length (sha1 bs) ≡ 20
  pub sort-Permᴰ :
      {A : Type 0} (lt : A → A → Bool) (xs : List A) → IsStrictOrder lt → Permᴰ (sort lt xs) xs
  pub sort-IsAscending :
      {A : Type 0} (lt : A → A → Bool) (xs : List A)
      → IsStrictOrder lt
      → IsAscending lt (sort lt xs)

-- The decoder hands out these values, in this order.
abbrev pub Yields : {V D : Type 0} → (D → Option (V × D)) → D → List V → Type 0
Yields next d [] = Unit
Yields {D} next d (v ∷ vs) = (d' : D) × (next d ≡ some (v, d')) × Yields next d' vs

-- BitPackEncoder and BitPackDecoder. `packed` is data() with size(), and `next` answers `none`
-- where the library throws at the end of its bytes.
pub record Packing : Type 1 where
  pub Encoder : Type 0
  pub encoder : ℕ → Encoder
  pub encode : Encoder → ℕ → Encoder
  pub flush : Encoder → Encoder
  pub packed : Encoder → Bytes
  pub Decoder : Type 0
  pub decoder : ℕ → Bytes → Decoder
  pub next : Decoder → Option (ℕ × Decoder)
  pub peek : Decoder → ℕ
  -- After one flush the decoder of the same maximum reads the values back.
  pub unpack :
      (max : ℕ) (vs : List ℕ)
      → max < 2 ^ 32
      → All (λ v. v ≤ max) vs
      → Yields next (decoder max (packed (flush (foldl encode (encoder max) vs)))) vs
  -- A peek shows what the next read returns.
  pub peek_next : (d d' : Decoder) (v : ℕ) → next d ≡ some (v, d') → peek d ≡ v

-- `double`: the conversions of the language, IEEE754::toBytes and fromBytes, and the texts of
-- StringUtil::toString, std::stoull, std::stoll and std::stod. A conversion of a text answers
-- `none` where the library throws.
pub record Numerics : Type 1 where
  pub Double : Type 0
  pub zero_double : Double
  pub above_one : Double → Bool
  pub below_zero : Double → Bool
  pub of_unsigned : ℕ → Double
  pub of_signed : ℤ → Double
  pub to_unsigned : Double → ℕ
  pub to_signed : Double → ℤ
  pub to_bytes : Double → ℕ
  pub from_bytes : ℕ → Double
  pub show_unsigned : ℕ → Bytes
  pub show_signed : ℤ → Bytes
  pub show_double : Double → Bytes
  pub stoull : Bytes → Option ℕ
  pub stoll : Bytes → Option ℤ
  pub stod : Bytes → Option Double
  pub from_bytes-to_bytes : (x : Double) → from_bytes (to_bytes x) ≡ x
  pub to_bytes-lt : (x : Double) → to_bytes x < 2 ^ 64
