-- ===== src/Format/RoundTrip.antt =====
-- The header of format v0.2 is read back as it was written.
use libcstable.Prelude.{
  ℕ, ◌-◌, ◌%◌, ◌^◌, ◌≤◌, ◌<◌, ◌≡◌, refl, ap, sym, ◌∙◌, false, List, [], ◌∷◌, ◌++◌, length, take,
  All, drop, map, replicate, take-append, drop-append, length-append, length-replicate,
  append_assoc, Option, none, some, Result, ok, eof, need, ◌>>=◌, le→leb, arith,
}
use libcstable.Prelude.Bytes.{Bytes, bytes_eq}
use libcstable.Stx.{Wire}
use libcstable.Format.{
  ColumnType, ColumnEncoding, subrecord, boolean_bitpacked, MetaBlock, ColumnConfig, FileHeader,
  meta_block_size, meta_block_position, pad_to_next_sector, type_code, encoding_code, IsKnownType,
  IsKnownEncoding, type_of_code-type_code, encoding_of_code-encoding_code,
}
use libcstable.Format.Checksum.{
  read_meta_block, write_meta_block, IsMetaBlock, read_meta_block-write_meta_block,
  length-write_meta_block,
}
use libcstable.Format.Header.{
  push, lenenc, get_lenenc, write_column, write_columns, preamble, unpadded, write_header,
  read_column, read_columns, read_header,
}

-- The values fit their types, and the enumerations name them.
pub record IsColumn (col : ColumnConfig) : Type 0 where
  pub id_fits : col.column_id < 2 ^ 32
  pub name_fits : length col.column_name < 2 ^ 64
  pub type_known : IsKnownType col.logical_type
  pub encoding_known : IsKnownEncoding col.storage_type
  pub rlevel_fits : col.rlevel_max < 2 ^ 64
  pub dlevel_fits : col.dlevel_max < 2 ^ 64

-- All fields but the two that the format does not keep.
abbrev pub restored : ColumnConfig → ColumnConfig → ColumnConfig
restored blank col = record col { body_offset = blank.body_offset; body_size = blank.body_size }

type_code-lt : (t : ColumnType) → IsKnownType t → type_code t < 2 ^ 64
type_code-lt subrecord k = omega arith
type_code-lt _ k = ground arith

encoding_code-lt : (e : ColumnEncoding) → IsKnownEncoding e → encoding_code e < 2 ^ 64
encoding_code-lt boolean_bitpacked k = omega arith
encoding_code-lt _ k = ground arith

id_mod : (col : ColumnConfig) → IsColumn col → col.column_id % 2 ^ 32 ≡ col.column_id
id_mod col h = omega (arith, h.id_fits)

regroup : (a b c d e : Bytes) → (a ++ (b ++ (c ++ d))) ++ e ≡ a ++ (b ++ (c ++ (d ++ e)))
regroup a b c d e = simp append_assoc

regroup_tail :
    (a b c d e f : Bytes) → (a ++ (b ++ (c ++ (d ++ e)))) ++ f ≡ a ++ (b ++ (c ++ (d ++ (e ++ f))))
regroup_tail a b c d e f = simp append_assoc

cut :
    (pre zs tail : Bytes)
    → length pre ≡ 14
    → length zs ≡ 112
    → (take 14 (pre ++ (zs ++ tail)) ≡ pre) × (drop 126 (pre ++ (zs ++ tail)) ≡ tail)
cut pre zs tail hp hz = (
  take-append 14 pre (zs ++ tail) (sym hp),
  rw (← append_assoc pre zs tail)
      (drop-append 126 (pre ++ zs) tail (omega (arith, length-append pre zs, hp, hz))),
)

abbrev done :
    List MetaBlock → List ColumnConfig × Bytes → Result (List ColumnConfig × List MetaBlock × Bytes)
done found q = ok (q.0, found, q.1)

ok-injective : {A : Type 0} {x y : A} → ok x ≡ ok y → x ≡ y
ok-injective h = cc

module _ (W : Wire) where
  open W use {u16, u64, varuint, get_u64, get_varuint}

  get_lenenc-lenenc :
      (text rest : Bytes)
      → length text < 2 ^ 64
      → get_lenenc W (lenenc W text ++ rest) ≡ some (text, rest)
  get_lenenc-lenenc text rest h = rw (
    append_assoc,
    get_lenenc,
    W.get_varuint-varuint (length text) (text ++ rest) h,
    le→leb (length text) (length (text ++ rest)) (omega (arith, length-append text rest)),
    take-append (length text) text rest refl,
    drop-append (length text) text rest refl,
  )

  read_column-write_column :
      (blank col : ColumnConfig) (rest : Bytes)
      → IsColumn col
      → read_column W blank (write_column W col ++ rest) ≡ ok (restored blank col, rest)
  unfolding read_column write_column
  read_column-write_column blank col rest h = simp append_assoc (
      rw (
        W.get_varuint-varuint (type_code col.logical_type) _
            (type_code-lt col.logical_type h.type_known),
        W.get_varuint-varuint (encoding_code col.storage_type) _
            (encoding_code-lt col.storage_type h.encoding_known),
        W.get_varuint-varuint col.column_id _ (omega (arith, h.id_fits)),
        ← append_assoc (varuint (length col.column_name)) col.column_name
            (varuint col.rlevel_max ++ (varuint col.dlevel_max ++ rest)),
        get_lenenc-lenenc col.column_name
            (varuint col.rlevel_max ++ (varuint col.dlevel_max ++ rest)) h.name_fits,
        W.get_varuint-varuint col.rlevel_max _ h.rlevel_fits,
        W.get_varuint-varuint col.dlevel_max _ h.dlevel_fits,
        type_of_code-type_code col.logical_type h.type_known,
        encoding_of_code-encoding_code col.storage_type h.encoding_known,
        id_mod col h,
      ))

  read_columns-write_columns :
      (blank : ColumnConfig) (cols : List ColumnConfig) (rest : Bytes)
      → All IsColumn cols
      → read_columns W blank (length cols) (write_columns W cols ++ rest)
        ≡ ok (map (restored blank) cols, rest)
  unfolding read_columns write_columns
  read_columns-write_columns blank [] rest h = refl
  read_columns-write_columns blank (col ∷ cols) rest (h, hs) = rw (
    append_assoc (write_column W col) (write_columns W cols) rest,
    read_column-write_column blank col (write_columns W cols ++ rest) h,
    read_columns-write_columns blank cols rest hs,
  )

  -- A metablock slot of the file, and what reading it gives.
  pub record IsSlot (bs : Bytes) (found : Option MetaBlock) : Type 0 where
    pub slot_size : length bs ≡ meta_block_size
    pub slot_reads : (rest : Bytes) → read_meta_block W (bs ++ rest) ≡ ok (found, rest)

  pub written-IsSlot : (mb : MetaBlock) → IsMetaBlock mb → IsSlot (write_meta_block W mb) (some mb)
  written-IsSlot mb h = record {
    slot_size = length-write_meta_block W mb;
    slot_reads = λ rest. read_meta_block-write_meta_block W mb rest h;
  }

  -- A slot that was never written, if zeros do not hash to zeros.
  pub empty-IsSlot :
      bytes_eq (W.sha1 (replicate 36 0)) (replicate 20 0) ≡ false
      → IsSlot (replicate meta_block_size 0) none
  unfolding read_meta_block
  empty-IsSlot h = record {
    slot_size = refl;
    slot_reads = λ rest. rw (
      read_meta_block,
      le→leb meta_block_size (length (replicate meta_block_size 0 ++ rest))
          (omega (arith, length-append {A = ℕ} (replicate meta_block_size 0) rest)),
      h,
    );
  }

  -- The file's header, with these bytes in the two metablock slots.
  abbrev pub with_slots : Bytes → Bytes → Bytes → Bytes
  with_slots header slot_a slot_b =
      take meta_block_position header ++ (slot_a ++ (slot_b ++ drop 126 header))

  length-preamble : length (preamble W) ≡ 14
  unfolding preamble
  length-preamble = omega (arith, length-append (u16 2) (u64 0), W.length-u16 2, W.length-u64 0)

  abbrev body : FileHeader → Bytes
  body hdr = varuint (length hdr.columns) ++ write_columns W hdr.columns

  abbrev zeros : ℕ → Bytes
  zeros n = replicate n 0

  abbrev padding : FileHeader → ℕ
  padding hdr = pad_to_next_sector (length (unpadded W hdr)) - length (unpadded W hdr)

  -- The five parts of the written header.
  write_header-parts :
      (hdr : FileHeader)
      → write_header W hdr
        ≡ ok (preamble W ++ (zeros 112 ++ (zeros 128 ++ (body hdr ++ zeros (padding hdr)))))
  unfolding unpadded
  write_header-parts hdr =
      unfold write_header in
      rw length-preamble (ap ok (regroup (preamble W) (zeros 112) (zeros 128) (body hdr) _))

  -- The same with the pages of the file behind it.
  file-parts :
      (hdr : FileHeader) (header pages : Bytes)
      → write_header W hdr ≡ ok header
      → header ++ pages
        ≡ preamble W ++ (zeros 112 ++ (zeros 128 ++ (body hdr ++ (zeros (padding hdr) ++ pages))))
  file-parts hdr header pages hw =
      ap (λ t. t ++ pages) (ok-injective (sym hw ∙ write_header-parts hdr))
      ∙ regroup_tail (preamble W) (zeros 112) (zeros 128) (body hdr) (zeros (padding hdr)) pages

  -- Reading the columns behind the slots.
  read_behind :
      (blank : ColumnConfig) (hdr : FileHeader) (found : List MetaBlock) (tail : Bytes)
      → All IsColumn hdr.columns
      → length hdr.columns < 2 ^ 64
      → (need eof (get_varuint (drop 128 (zeros 128 ++ (body hdr ++ tail)))) >>= λ p.
          read_columns W blank p.0 p.1 >>= λ q. done found q)
        ≡ ok (map (restored blank) hdr.columns, found, tail)
  read_behind blank hdr found tail h hn = rw (
    drop-append 128 (zeros 128) (body hdr ++ tail) (sym (length-replicate {A = ℕ} 128 0)),
    append_assoc,
    W.get_varuint-varuint (length hdr.columns) (write_columns W hdr.columns ++ tail) hn,
    read_columns-write_columns blank hdr.columns tail h,
  )

  drop-preamble : (x : Bytes) → drop 6 (preamble W ++ x) ≡ u64 0 ++ x
  unfolding preamble
  drop-preamble x =
      rw (append_assoc (u16 2) (u64 0) x)
        (drop-append 2 (u16 2) (u64 0 ++ x) (sym (W.length-u16 2)))

  -- If the columns' values fit their types and there are fewer than 2 ^ 64 of them, then from the
  -- written header and the pages behind it, whatever stands in the two metablock slots, readHeader
  -- (called behind magic and version) returns the columns with all fields that the format keeps, and
  -- the metablocks that the slots hold, the first slot's first.
  pub header_round_trip :
      (blank : ColumnConfig) (hdr : FileHeader) (header pages slot_a slot_b : Bytes)
      (found_a found_b : Option MetaBlock)
      → All IsColumn hdr.columns
      → length hdr.columns < 2 ^ 64
      → write_header W hdr ≡ ok header
      → IsSlot slot_a found_a
      → IsSlot slot_b found_b
      → (rest : Bytes) × (read_header W blank (drop 6 (with_slots (header ++ pages) slot_a slot_b))
          ≡ ok (map (restored blank) hdr.columns, push found_a (push found_b []), rest))
  unfolding read_header
  header_round_trip blank hdr header pages slot_a slot_b found_a found_b h hn hw sa sb =
      let padded = zeros (padding hdr) ++ pages in
      let tail = zeros 128 ++ (body hdr ++ padded) in
      let e = file-parts hdr header pages hw in
      let (front, back) =
        cut (preamble W) (zeros 112) tail length-preamble (length-replicate {A = ℕ} 112 0) in
      (
        padded,
        rw
            (
              e,
              front,
              back,
              drop-preamble (slot_a ++ (slot_b ++ tail)),
              W.get_u64-u64 0 (slot_a ++ (slot_b ++ tail)) (omega arith),
              sa.slot_reads (slot_b ++ tail),
              sb.slot_reads tail,
            )
            (read_behind blank hdr (push found_a (push found_b [])) padded h hn),
      )

  -- Magic and version stand in front, and are not touched by the slots.
  pub write_header-front :
      (hdr : FileHeader) (header pages slot_a slot_b : Bytes)
      → write_header W hdr ≡ ok header
      → (x : Bytes) × (with_slots (header ++ pages) slot_a slot_b ≡ preamble W ++ x)
  write_header-front hdr header pages slot_a slot_b hw =
      let tail = zeros 128 ++ (body hdr ++ (zeros (padding hdr) ++ pages)) in
      let (front, back) =
        cut (preamble W) (zeros 112) tail length-preamble (length-replicate {A = ℕ} 112 0) in
      let behind = slot_a ++ (slot_b ++ drop 126 (header ++ pages)) in
      (behind, ap (λ t. t ++ behind) (rw (file-parts hdr header pages hw) front))

  -- The header is at least as long as what stands in front of its columns.
  pub length-header :
      (hdr : FileHeader) (header : Bytes) → write_header W hdr ≡ ok header → 126 ≤ length header
  length-header hdr header hw =
      let e = ok-injective (sym hw ∙ write_header-parts hdr) in
      let tail = zeros 128 ++ (body hdr ++ zeros (padding hdr)) in
      rw e (
        omega (
          arith,
          length-append (preamble W) (zeros 112 ++ tail),
          length-append (zeros 112) tail,
          length-replicate {A = ℕ} 112 0,
          length-preamble,
        ))
