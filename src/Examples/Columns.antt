-- ===== src/Examples/Columns.antt =====
-- Columns of format v0.1 (cstable/columns/v1) with values and a null.
use libcstable.Prelude.{ℕ, ◌≡◌, refl, Bool, true, false, List, [], ◌∷◌, All, replicate, ok, arith}
use libcstable.Prelude.Bytes.{Bytes, store}
use libcstable.Stx.Sample.{wire, packing, numerics}
use libcstable.V1.{write, body_size, eof_reached, column_writer, write_null, append_datum, commit}
use libcstable.V1.Entries.{Entry, null, datum, cells, read_back, IsEntry}
use libcstable.V1.Leb128
use libcstable.V1.Uint32
use libcstable.V1.Uint64
use libcstable.V1.Text
use libcstable.V1.Double
use libcstable.V1.Boolean
use libcstable.V1.BitPacked

abbrev numbers : List (Entry ℕ)
numbers = datum 0 1 300 ∷ null 1 0 ∷ datum 1 1 0 ∷ []

abbrev texts : List (Entry Bytes)
texts = datum 0 1 (104 ∷ 105 ∷ []) ∷ null 1 0 ∷ datum 1 1 [] ∷ []

abbrev flags : List (Entry Bool)
flags = datum 0 1 true ∷ null 1 0 ∷ datum 1 1 false ∷ []

leb128_entries : All (IsEntry 1 1 (Leb128.IsU64)) numbers
leb128_entries = (
  (omega arith, refl, omega arith),
  ((omega arith, omega arith), ((omega arith, refl, omega arith), tt)),
)

leb128_size :
    72
    ≡ body_size packing (Leb128.size wire packing) (Leb128.written_column wire packing 1 1 numbers)
unfolding store body_size column_writer write_null append_datum commit Leb128.add_value
    Leb128.new_writer Leb128.put_value Leb128.size
leb128_size = refl

leb128_round_trip_example :
    read_back
      (Leb128.new_reader wire packing 1 1)
      (Leb128.read_unsigned_int wire packing)
      (eof_reached packing)
      3
      (write packing wire
        (Leb128.size wire packing)
        (Leb128.write_data wire packing)
        (Leb128.written_column wire packing 1 1 numbers)
        (replicate 72 0))
    ≡ ok (cells 0 numbers, true)
leb128_round_trip_example =
    Leb128.leb128_round_trip wire packing 1 1 numbers (replicate 72 0) (omega arith) (omega arith)
      (omega arith) leb128_entries leb128_size (omega arith)

uint32_entries : All (IsEntry 1 1 (Uint32.IsU32)) numbers
uint32_entries = (
  (omega arith, refl, omega arith),
  ((omega arith, omega arith), ((omega arith, refl, omega arith), tt)),
)

uint32_size :
    68
    ≡ body_size packing (Uint32.size wire packing) (Uint32.written_column wire packing 1 1 numbers)
unfolding store body_size column_writer write_null append_datum commit Uint32.add_value
    Uint32.new_writer Uint32.put_value Uint32.size
uint32_size = refl

uint32_round_trip_example :
    read_back
      (Uint32.new_reader wire packing 1 1)
      (Uint32.read_unsigned_int wire packing)
      (eof_reached packing)
      3
      (write packing wire
        (Uint32.size wire packing)
        (Uint32.write_data wire packing)
        (Uint32.written_column wire packing 1 1 numbers)
        (replicate 68 0))
    ≡ ok (cells 0 numbers, true)
uint32_round_trip_example =
    Uint32.uint32_round_trip wire packing 1 1 numbers (replicate 68 0) (omega arith) (omega arith)
      (omega arith) uint32_entries uint32_size (omega arith)

uint64_entries : All (IsEntry 1 1 (Uint64.IsU64)) numbers
uint64_entries = (
  (omega arith, refl, omega arith),
  ((omega arith, omega arith), ((omega arith, refl, omega arith), tt)),
)

uint64_size :
    80
    ≡ body_size packing (Uint64.size wire packing) (Uint64.written_column wire packing 1 1 numbers)
unfolding store body_size column_writer write_null append_datum commit Uint64.add_value
    Uint64.new_writer Uint64.put_value Uint64.size
uint64_size = refl

uint64_round_trip_example :
    read_back
      (Uint64.new_reader wire packing 1 1)
      (Uint64.read_unsigned_int wire packing)
      (eof_reached packing)
      3
      (write packing wire
        (Uint64.size wire packing)
        (Uint64.write_data wire packing)
        (Uint64.written_column wire packing 1 1 numbers)
        (replicate 80 0))
    ≡ ok (cells 0 numbers, true)
uint64_round_trip_example =
    Uint64.uint64_round_trip wire packing 1 1 numbers (replicate 80 0) (omega arith) (omega arith)
      (omega arith) uint64_entries uint64_size (omega arith)

strings_fit : All (IsEntry 1 1 (Text.IsText)) texts
strings_fit = (
  (omega arith, refl, omega arith),
  ((omega arith, omega arith), ((omega arith, refl, omega arith), tt)),
)

text_size :
    66 ≡ body_size packing (Text.size wire packing) (Text.written_column wire packing 1 1 texts)
unfolding store body_size column_writer write_null append_datum commit Text.add_value
    Text.new_writer Text.put_value Text.size Text.encoded
text_size = refl

string_round_trip_example :
    read_back
      (Text.new_reader wire packing 1 1)
      (Text.read_string wire packing)
      (eof_reached packing)
      3
      (write packing wire
        (Text.size wire packing)
        (Text.write_data wire packing)
        (Text.written_column wire packing 1 1 texts)
        (replicate 66 0))
    ≡ ok (cells [] texts, true)
string_round_trip_example =
    Text.string_round_trip wire packing 1 1 texts (replicate 66 0) (omega arith) (omega arith)
      (omega arith) strings_fit text_size (omega arith)

floats_fit : All (IsEntry 1 1 (Double.IsDouble wire packing numerics)) flags
floats_fit = ((omega arith, refl, tt), ((omega arith, omega arith), ((omega arith, refl, tt), tt)))

double_size :
    80
    ≡ body_size packing
        (Double.size wire packing numerics)
        (Double.written_column wire packing numerics 1 1 flags)
unfolding store body_size column_writer write_null append_datum commit Double.add_value
    Double.new_writer Double.put_value Double.size
double_size = refl

double_round_trip_example :
    read_back
      (Double.new_reader wire packing numerics 1 1)
      (Double.read_float wire packing numerics)
      (eof_reached packing)
      3
      (write packing wire
        (Double.size wire packing numerics)
        (Double.write_data wire packing numerics)
        (Double.written_column wire packing numerics 1 1 flags)
        (replicate 80 0))
    ≡ ok (cells false flags, true)
double_round_trip_example =
    Double.double_round_trip wire packing numerics 1 1 flags (replicate 80 0) (omega arith)
      (omega arith) (omega arith) floats_fit double_size (omega arith)

boolean_entries : All (IsEntry 1 1 (Boolean.IsBool)) flags
boolean_entries =
    ((omega arith, refl, tt), ((omega arith, omega arith), ((omega arith, refl, tt), tt)))

boolean_size :
    64 ≡ body_size packing (Boolean.size packing) (Boolean.written_column wire packing 1 1 flags)
unfolding store body_size column_writer write_null append_datum commit Boolean.add_value
    Boolean.new_writer Boolean.put_value Boolean.size Boolean.commit_column
boolean_size = refl

boolean_round_trip_example :
    read_back
      (Boolean.new_reader packing wire 1 1)
      (Boolean.read_boolean packing)
      (eof_reached packing)
      3
      (write packing wire
        (Boolean.size packing)
        (Boolean.write_data packing)
        (Boolean.written_column wire packing 1 1 flags)
        (replicate 64 0))
    ≡ ok (cells false flags, true)
boolean_round_trip_example =
    Boolean.boolean_round_trip wire packing 1 1 flags (replicate 64 0) (omega arith) (omega arith)
      (omega arith) boolean_entries boolean_size (omega arith)

boolean_texts_shown_true_example :
    read_back
      (Boolean.new_reader packing wire 1 1)
      (Boolean.read_string packing)
      (eof_reached packing)
      3
      (write packing wire
        (Boolean.size packing)
        (Boolean.write_data packing)
        (Boolean.written_column wire packing 1 1 flags)
        (replicate 64 0))
    ≡ ok (cells [] (Boolean.all_texts flags), true)
boolean_texts_shown_true_example =
    Boolean.boolean_texts_shown_true wire packing 1 1 flags (replicate 64 0) (omega arith)
      (omega arith) (omega arith) boolean_entries boolean_size (omega arith)

bitpacked_entries : All (IsEntry 1 1 (BitPacked.IsBelowMax wire packing 300 (omega arith))) numbers
bitpacked_entries = (
  (omega arith, refl, omega arith),
  ((omega arith, omega arith), ((omega arith, refl, omega arith), tt)),
)

bitpacked_size :
    68
    ≡ body_size packing
        (BitPacked.size packing)
        (BitPacked.written_column wire packing 300 (omega arith) 1 1 numbers)
unfolding store body_size column_writer write_null append_datum commit BitPacked.add_value
    BitPacked.new_writer BitPacked.put_value BitPacked.size BitPacked.finish BitPacked.commit_column
bitpacked_size = refl

bitpacked_round_trip_example :
    read_back
      (BitPacked.new_reader packing wire 1 1)
      (BitPacked.read_unsigned_int packing)
      (eof_reached packing)
      3
      (write packing wire
        (BitPacked.size packing)
        (BitPacked.write_data packing wire)
        (BitPacked.written_column wire packing 300 (omega arith) 1 1 numbers)
        (replicate 68 0))
    ≡ ok (cells 0 numbers, true)
bitpacked_round_trip_example =
    BitPacked.bitpacked_round_trip wire packing 300 (omega arith) 1 1 numbers (replicate 68 0)
      (omega arith) (omega arith) (omega arith) bitpacked_entries bitpacked_size (omega arith)

abbrev bits : List (Entry ℕ)
bits = datum 0 1 1 ∷ null 1 0 ∷ datum 1 1 0 ∷ []

bits_flags : All (IsEntry 1 1 Leb128.IsFlag) bits
bits_flags = (
  (omega arith, refl, omega arith),
  ((omega arith, omega arith), ((omega arith, refl, omega arith), tt)),
)

bits_size :
    72 ≡ body_size packing (Leb128.size wire packing) (Leb128.written_column wire packing 1 1 bits)
unfolding store body_size column_writer write_null append_datum commit Leb128.add_value
    Leb128.new_writer Leb128.put_value Leb128.size
bits_size = refl

leb128_booleans_false_example :
    read_back
      (Leb128.new_reader wire packing 1 1)
      (Leb128.read_boolean wire packing)
      (eof_reached packing)
      3
      (write packing wire
        (Leb128.size wire packing)
        (Leb128.write_data wire packing)
        (Leb128.written_column wire packing 1 1 bits)
        (replicate 72 0))
    ≡ ok (cells false (Leb128.all_false bits), true)
leb128_booleans_false_example =
    Leb128.leb128_booleans_false wire packing 1 1 bits (replicate 72 0) (omega arith) (omega arith)
      (omega arith) bits_flags bits_size (omega arith)
