-- ===== src/Pages/Filled.antt =====
-- What reaches the disk of the values appended to a 64-bit page writer.
use libcstable.Prelude.{
  ℕ, suc, ◌+◌, ◌*◌, ◌≤◌, ◌≡◌, refl, ap, sym, ◌∙◌, true, false, not, ◌||◌, List, [], ◌∷◌, ◌++◌,
  length, All, ltb, lt→ltb, arith, ◌-◌, replicate, Bool-cases, inl, inr, take-all, false,
  append_assoc, append-nil, length-append, take-append, All-append,
}
use libcstable.Prelude.Bytes.{Bytes}
use libcstable.Stx.{Wire}
use libcstable.Format.{pad_to_next_sector}
use libcstable.Pages.{PageManager, Event, pwrite, fsync, issue, alloc_page, write_page, page_data}
use libcstable.Pages.Writer.{
  PageIndexKey, PageWriter, page_writer, turn_page, write_current, append_value, append_values,
  write_index, index_entries,
}

-- The values as the writer encodes them.
abbrev pub encoded : Wire → List ℕ → Bytes
encoded W [] = []
encoded W (v ∷ vs) = Wire.u64 W v ++ encoded W vs

-- The event writes exactly these bytes.
abbrev pub Writes : Bytes → Event → Type 0
Writes bytes (pwrite offset written) = written ≡ bytes
Writes bytes fsync = ⊥

-- A page of 1024 bytes takes the first 1024 bytes of a longer buffer.
page_data-append :
    (bytes extra : Bytes) → length bytes ≡ 1024 → page_data 1024 (bytes ++ extra) ≡ bytes
unfolding page_data
page_data-append bytes extra h =
    let long : ltb (length (bytes ++ extra)) 1024 ≡ false =
      ground (arith, length-append bytes extra) in
    rw long (take-append 1024 bytes extra (sym h))

module _ (W : Wire) where
  length-encoded : (vs : List ℕ) → length (encoded W vs) ≡ 8 * length vs
  length-encoded [] = refl
  length-encoded (v ∷ vs) =
      omega (arith, length-append (W.u64 v) (encoded W vs), W.length-u64 v, length-encoded vs)

  append_fits :
      (v : ℕ) (pw : PageWriter) (pm : PageManager)
      → pw.has_page ≡ true
      → length pw.page_buf + 8 ≤ pw.page.size
      → append_value W v pw pm ≡ (record pw { page_buf = pw.page_buf ++ W.u64 v }, pm)
  append_fits v pw pm hp h =
      let stays : (not pw.has_page || ltb pw.page.size (length pw.page_buf + 8)) ≡ false =
        rw hp (ground arith) in
      unfold append_value in rw stays

  append_turns :
      (v : ℕ) (pw : PageWriter) (pm : PageManager)
      → (not pw.has_page || ltb pw.page.size (length pw.page_buf + 8)) ≡ true
      → append_value W v pw pm ≡ (
        record (turn_page pw pm).0 { page_buf = (turn_page pw pm).0.page_buf ++ W.u64 v },
        (turn_page pw pm).1,
      )
  append_turns v pw pm h = unfold append_value in rw h

  -- On a page with room for the values they join the buffer, and the file stays.
  append_fitting :
      (vs : List ℕ) (pw : PageWriter) (pm : PageManager)
      → pw.has_page ≡ true
      → length pw.page_buf + 8 * length vs ≤ pw.page.size
      → append_values W vs pw pm ≡ (record pw { page_buf = pw.page_buf ++ encoded W vs }, pm)
  unfolding append_values
  append_fitting [] pw pm hp h =
      ap (λ b. (record pw { page_buf = b }, pm)) (sym (append-nil pw.page_buf))
  append_fitting (v ∷ vs) pw pm hp h =
      let buf = pw.page_buf ++ W.u64 v in
      let n : length buf ≡ length pw.page_buf + 8 =
        omega (arith, length-append pw.page_buf (W.u64 v), W.length-u64 v) in
      rw (append_fits v pw pm hp (omega arith)) (
        append_fitting vs (record pw { page_buf = buf }) pm hp (omega (arith, n))
        ∙ ap (λ b. (record pw { page_buf = b }, pm))
            (append_assoc pw.page_buf (W.u64 v) (encoded W vs)))

  append_values-append :
      (us vs : List ℕ) (pw : PageWriter) (pm : PageManager)
      → append_values W (us ++ vs) pw pm
        ≡ append_values W vs (append_values W us pw pm).0 (append_values W us pw pm).1
  unfolding append_values
  append_values-append [] vs pw pm = refl
  append_values-append (u ∷ us) vs pw pm =
      append_values-append us vs (append_value W u pw pm).0 (append_value W u pw pm).1

  -- The page that the first value begins.
  abbrev begun : PageIndexKey → List ℕ → PageManager → PageWriter
  begun key vs pm = record (page_writer key) {
    has_page = true;
    page = (alloc_page 1024 pm).0;
    page_buf = encoded W vs;
  }

  append_first :
      (key : PageIndexKey) (v : ℕ) (vs : List ℕ) (pm : PageManager)
      → length (v ∷ vs) ≤ 128
      → append_values W (v ∷ vs) (page_writer key) pm
        ≡ (begun key (v ∷ vs) pm, (alloc_page 1024 pm).1)
  append_first key v vs pm h =
      let pw = record (begun key [] pm) { page_buf = W.u64 v } in
      let fresh : append_value W v (page_writer key) pm ≡ (pw, (alloc_page 1024 pm).1) =
        unfold append_value turn_page write_current page_writer in refl in
      unfold append_values page_writer in
      rw fresh (
        unfold alloc_page pad_to_next_sector in
        append_fitting vs pw (alloc_page 1024 pm).1 refl (omega (arith, W.length-u64 v)))

  -- The values and zeros fill the page.
  page_data-encoded :
      (vs : List ℕ)
      → length vs ≤ 128
      → page_data 1024 (encoded W vs) ≡ encoded W vs ++ replicate (1024 - 8 * length vs) 0
  unfolding page_data
  page_data-encoded vs h = elim (Bool-cases (ltb (length (encoded W vs)) 1024)) [
    | inl short ↦ rw (short, length-encoded vs) refl
    | inr full ↦
        let n : 8 * length vs ≡ 1024 = ground (arith, length-encoded vs) in
        let m : length (encoded W vs) ≡ 1024 = length-encoded vs ∙ n in
        rw (full, n)
          (take-all 1024 (encoded W vs) (omega (arith, m)) ∙ sym (append-nil (encoded W vs)))
  ]

  first_page-filled :
      (v : ℕ) (vs : List ℕ) (pm : PageManager)
      → length (v ∷ vs) ≤ 128
      → write_page (alloc_page 1024 pm).0 (encoded W (v ∷ vs)) (alloc_page 1024 pm).1
        ≡ record (alloc_page 1024 pm).1 {
          file =
              issue
                (pwrite
                  (alloc_page 1024 pm).0.offset
                  (encoded W (v ∷ vs) ++ replicate (1024 - 8 * length (v ∷ vs)) 0))
                pm.file;
        }
  unfolding write_page alloc_page pad_to_next_sector
  first_page-filled v vs pm h = rw (page_data-encoded (v ∷ vs) h) refl

  -- If 1 to 128 values are appended to a new writer, then its index names one page, the one
  -- allocated for the first value, with the number of their bytes, and the file gets one write: at
  -- that page's offset, the values as fixed 64-bit integers, one after the other, and zeros up to
  -- the 1024 bytes of the page. Nothing else changes.
  pub write_index-first_page :
      (key : PageIndexKey) (v : ℕ) (vs : List ℕ) (pm : PageManager)
      → length (v ∷ vs) ≤ 128
      → write_index W
          (append_values W (v ∷ vs) (page_writer key) pm).0
          (append_values W (v ∷ vs) (page_writer key) pm).1
        ≡ (
          W.varuint 1 ++ index_entries W (((alloc_page 1024 pm).0, 8 * length (v ∷ vs)) ∷ []),
          record (alloc_page 1024 pm).1 {
            file =
                issue
                  (pwrite
                    (alloc_page 1024 pm).0.offset
                    (encoded W (v ∷ vs) ++ replicate (1024 - 8 * length (v ∷ vs)) 0))
                  pm.file;
          },
        )
  write_index-first_page key v vs pm h = rw (append_first key v vs pm h) (
      unfold write_index write_current page_writer in
      rw (length-encoded (v ∷ vs), first_page-filled v vs pm h))

  -- The current page is full, and the buffer begins with the bytes of `first`.
  record IsFull (first : List ℕ) (pw : PageWriter) : Type 0 where
    has_page_is : pw.has_page ≡ true
    size_is : pw.page.size ≡ 1024
    extra : Bytes
    buf_is : pw.page_buf ≡ encoded W first ++ extra

  write_full :
      (first : List ℕ) (pw : PageWriter) (pm : PageManager)
      → length first ≡ 128
      → IsFull first pw
      → (write_page pw.page pw.page_buf pm).file.log
        ≡ pm.file.log ++ (pwrite pw.page.offset (encoded W first) ∷ [])
  write_full first pw pm h f =
      let n : length (encoded W first) ≡ 1024 = omega (arith, length-encoded first, h) in
      let written : page_data pw.page.size pw.page_buf ≡ encoded W first =
        simp (f.size_is, f.buf_is) (page_data-append (encoded W first) f.extra n) in
      unfold write_page in ap (λ b. pm.file.log ++ (pwrite pw.page.offset b ∷ [])) written

  current_full :
      (first : List ℕ) (pw : PageWriter) (pm : PageManager)
      → length first ≡ 128
      → IsFull first pw
      → (write_current pw pm).1.file.log
        ≡ pm.file.log ++ (pwrite pw.page.offset (encoded W first) ∷ [])
  current_full first pw pm h f =
      unfold write_current in simp f.has_page_is (write_full first pw pm h f)

  turn-IsFull :
      (first : List ℕ) (pw : PageWriter) (pm : PageManager)
      → length first ≡ 128
      → IsFull first pw
      → (v : ℕ)
      → IsFull first (append_value W v pw pm).0
        × ((append_value W v pw pm).1.file.log
            ≡ pm.file.log ++ (pwrite pw.page.offset (encoded W first) ∷ []))
  turn-IsFull first pw pm h f v =
      let turns : (not pw.has_page || ltb pw.page.size (length pw.page_buf + 8)) ≡ true =
        simp (f.has_page_is, f.size_is, f.buf_is)
          (lt→ltb 1024 _
            (omega (arith, length-append (encoded W first) f.extra, length-encoded first, h))) in
      rw (append_turns v pw pm turns) (
        record {
          has_page_is = unfold turn_page in refl;
          size_is = unfold turn_page alloc_page pad_to_next_sector in refl;
          extra = f.extra ++ W.u64 v;
          buf_is =
              unfold turn_page in
              ap (λ b. b ++ W.u64 v) f.buf_is ∙ append_assoc (encoded W first) f.extra (W.u64 v);
        },
        unfold turn_page alloc_page in current_full first pw pm h f,
      )

  -- What the file's log gains.
  record Gains (bytes : Bytes) (n : ℕ) (before after : List Event) : Type 0 where
    events : List Event
    gained : after ≡ before ++ events
    all_write : All (Writes bytes) events
    count : length events ≡ n

  append_more :
      (first more : List ℕ) (pw : PageWriter) (pm : PageManager)
      → length first ≡ 128
      → IsFull first pw
      → IsFull first (append_values W more pw pm).0
        × Gains (encoded W first) (length more) pm.file.log (append_values W more pw pm).1.file.log
  unfolding append_values
  append_more first [] pw pm h f =
      (f, record { events = []; gained = sym (append-nil _); all_write = tt; count = refl })
  append_more first (v ∷ more) pw pm h f =
      let (f', e) = turn-IsFull first pw pm h f v in
      let (f'', g) =
        append_more first more (append_value W v pw pm).0 (append_value W v pw pm).1 h f' in
      (
        f'',
        record {
          events = pwrite pw.page.offset (encoded W first) ∷ g.events;
          gained =
              g.gained
              ∙ ap (λ l. l ++ g.events) e
              ∙ append_assoc pm.file.log (pwrite pw.page.offset (encoded W first) ∷ []) g.events;
          all_write = (refl, g.all_write);
          count = ap suc g.count;
        },
      )

  -- If at least 128 values are appended to a new writer and its index is written, then every write
  -- that this issues, one for each value past the 128th and one for the index, has the bytes of the
  -- first 128 values: the values past the 128th reach no page of the file.
  pub later_values_lost :
      (key : PageIndexKey) (v : ℕ) (vs more : List ℕ) (pm : PageManager)
      → length (v ∷ vs) ≡ 128
      → (events : List Event) × ((write_index W
            (append_values W ((v ∷ vs) ++ more) (page_writer key) pm).0
            (append_values W ((v ∷ vs) ++ more) (page_writer key) pm).1).1.file.log
          ≡ pm.file.log ++ events)
        × All (Writes (encoded W (v ∷ vs))) events
        × (length events ≡ length more + 1)
  later_values_lost key v vs more pm h =
      let first = v ∷ vs in
      let pw = begun key first pm in
      let pm' = (alloc_page 1024 pm).1 in
      let full : IsFull first pw = record {
        has_page_is = refl;
        size_is = unfold alloc_page pad_to_next_sector in refl;
        extra = [];
        buf_is = sym (append-nil (encoded W first));
      } in
      let (f, g) = append_more first more pw pm' h full in
      let last = append_values W more pw pm' in
      let tail = pwrite last.0.page.offset (encoded W first) ∷ [] in
      let indexed : (write_index W last.0 last.1).1.file.log ≡ last.1.file.log ++ tail =
        unfold write_index in current_full first last.0 last.1 h f in
      let unchanged : pm'.file.log ≡ pm.file.log = unfold alloc_page in refl in
      (
        g.events ++ tail,
        rw
            (
              append_values-append first more (page_writer key) pm,
              append_first key v vs pm (omega arith),
            )
            (indexed
              ∙ ap (λ l. l ++ tail) (g.gained ∙ ap (λ l. l ++ g.events) unchanged)
              ∙ append_assoc pm.file.log g.events tail),
        All-append (Writes (encoded W first)) g.events _ g.all_write (refl, tt),
        omega (arith, length-append g.events tail, g.count),
      )
