-- ===== src/Examples/EndToEnd.antt =====
-- A v0.1 table of a column of numbers and one of texts.
use libcstable.Prelude.{
  ◌+◌, ◌^◌, ◌<◌, ◌≡◌, ◌≢◌, refl, ap, true, false, List, [], ◌∷◌, All, some, replicate,
  length-replicate, ok, ◌>>=◌, arith,
}
use libcstable.Prelude.Bytes.{Bytes, store, load}
use libcstable.Stx.Sample.{wire, packing, numerics}
use libcstable.Format.{ColumnConfig, unsigned_int, string, uint32_plain, string_plain, v0_1_0}
use libcstable.Pages.{page_manager}
use libcstable.Schema.{TableSchema, no_columns, live, copy, copy_columns}
use libcstable.Schema.Flat.{flat_columns, list_flat_columns, flat_column}
use libcstable.V1
use libcstable.V1.Entries.{null, datum}
use libcstable.V1.Uint32
use libcstable.V1.Text
use libcstable.Table.Bodies.{BodyTable, commit_columns, header_size}
use libcstable.Table.Bodies.Layout.{header_end}
use libcstable.Classes.{AnyWriter, bodies, commit, body_size, open_writer}
use libcstable.Classes.Contents.{uint32s, strings, filled}
use libcstable.Classes.Typed.{write_contents, write_contents-filled}
use libcstable.Table.Reader.{TableReader, open_file, num_records}
use libcstable.Table.Reader.Sorted.{AreDistinct}
use libcstable.Table.Reader.Served.{Item, IsItem, sizes}
use libcstable.Table.Reader.RoundTrip.{columns_of, Serves, table_of}
use libcstable.Table.EndToEnd.{session, table_end_to_end}

abbrev unset : ColumnConfig
unset = record {
  column_id = 0;
  column_name = [];
  storage_type = uint32_plain;
  logical_type = unsigned_int;
  rlevel_max = 0;
  dlevel_max = 0;
  body_offset = 0;
  body_size = 0;
}

abbrev two_fields : TableSchema
two_fields =
    live
      (record {
        name = 97 ∷ [];
        type = string;
        encoding = some string_plain;
        type_size = some 0;
        repeated = false;
        optional = true;
      })
      (live
        (record {
          name = 98 ∷ [];
          type = unsigned_int;
          encoding = some uint32_plain;
          type_size = some 0;
          repeated = false;
          optional = true;
        })
        no_columns)

abbrev two_items : List (Item numerics)
two_items =
    (
      record unset { column_name = 98 ∷ []; dlevel_max = 1 },
      uint32s (datum 0 1 5 ∷ (null 0 0 ∷ [])),
    )
    ∷ ((
      record unset {
        column_name = 97 ∷ [];
        storage_type = string_plain;
        logical_type = string;
        dlevel_max = 1;
      },
      strings (null 0 0 ∷ (datum 0 1 (104 ∷ []) ∷ [])),
    )
        ∷ [])

-- The hash map gives the columns out in the other order.
abbrev exchanged : TableSchema → TableSchema
exchanged (live f (live g rest)) = live g (live f rest)
exchanged s = s

fields_flat : flat_columns unset (copy exchanged two_fields) ≡ ok (columns_of two_items)
unfolding flat_columns list_flat_columns flat_column copy copy_columns
fields_flat = refl

two_items-IsItem : All IsItem two_items
two_items-IsItem = (
  record {
    encoding_is = refl;
    name_fits = omega arith;
    rlevel_fits = omega arith;
    dlevel_fits = omega arith;
    within = (omega arith, ((omega arith, refl, omega arith), ((omega arith, omega arith), tt)));
  },
  (
    record {
      encoding_is = refl;
      name_fits = omega arith;
      rlevel_fits = omega arith;
      dlevel_fits = omega arith;
      within = (omega arith, ((omega arith, omega arith), ((omega arith, refl, omega arith), tt)));
    },
    tt,
  ),
)

names_differ : ◌≢◌ {A = Bytes} (98 ∷ []) (97 ∷ [])
unfolding load
names_differ e = omega (arith, ap load e)

two_items-AreDistinct : AreDistinct (columns_of two_items)
two_items-AreDistinct = ((names_differ, tt), (tt, tt))

two_items_small :
    header_end (bodies numerics wire packing) (
        table_of numerics wire packing two_items 2
          (page_manager v0_1_0 (record { content = 9 ∷ []; log = [] }) 0))
      + sizes numerics wire packing two_items
    < 2 ^ 64
unfolding commit_columns header_size commit body_size store V1.column_writer V1.write_null
    V1.append_datum V1.commit V1.body_size Uint32.new_writer Uint32.add_value Uint32.put_value
    Uint32.size Text.new_writer Text.add_value Text.put_value Text.size
two_items_small = omega arith

table_end_to_end_example :
    (t : BodyTable (AnyWriter packing)) × (session numerics wire packing
        (λ n. replicate n 0)
        exchanged
        unset
        (9 ∷ [])
        two_fields
        two_items
        2
      ≡ ok t)
    × (T : TableReader packing) × (open_file numerics wire packing unset t.manager.file.content
        ≡ ok T)
    × (num_records T ≡ 2)
    × All (Serves numerics wire packing T) two_items
table_end_to_end_example =
    table_end_to_end numerics wire packing (λ n. replicate n 0) (λ n. length-replicate n 0)
      exchanged unset (9 ∷ []) two_fields two_items 2 fields_flat two_items-IsItem
      two_items-AreDistinct (omega arith) (omega arith) two_items_small

abbrev text_column : ColumnConfig
text_column = record unset { storage_type = string_plain; logical_type = string; dlevel_max = 1 }

write_contents-filled_example :
    (open_writer numerics wire packing text_column
      >>= write_contents numerics wire packing (strings (datum 0 1 (104 ∷ []) ∷ [])))
    ≡ ok (filled numerics wire packing 0 1 (strings (datum 0 1 (104 ∷ []) ∷ [])))
write_contents-filled_example =
    write_contents-filled numerics wire packing text_column (strings (datum 0 1 (104 ∷ []) ∷ []))
      refl (omega arith, ((omega arith, refl, omega arith), tt))
