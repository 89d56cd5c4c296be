-- ===== src/Pages/Overwrite.antt =====
-- Writes behind a known part of a file.
use libcstable.Prelude.{
  ℕ, suc, ◌+◌, ◌-◌, ◌≡◌, refl, sym, [], ◌∷◌, ◌++◌, length, drop, take-append, take-all,
  length-append, append-nil, arith, ltb, false,
}
use libcstable.Prelude.Bytes.{Bytes}
use libcstable.Format.{PageRef}
use libcstable.Pages.{overwrite, PageManager, page_data, write_page}

drop_past : (front old : Bytes) (n : ℕ) → drop (length front + n) (front ++ old) ≡ drop n old
drop_past [] old n = let e : 0 + n ≡ n = omega arith in rw e
drop_past (x ∷ front) old n =
    let e : suc (length front) + n ≡ suc (length front + n) = omega arith in
    rw e (drop_past front old n)

-- A write where the known part ends appends the bytes to it, over what stood there.
pub overwrite-front :
    (front old bytes : Bytes)
    → overwrite (front ++ old) (length front) bytes ≡ front ++ (bytes ++ drop (length bytes) old)
unfolding overwrite
overwrite-front front old bytes =
    let no_gap : length front - length (front ++ old) ≡ 0 =
      omega (arith, length-append front old) in
    rw (
      no_gap,
      append-nil (front ++ old),
      take-append (length front) front old refl,
      drop_past front old (length bytes),
    )

-- A page as long as its data takes the data.
pub page_data-whole : (n : ℕ) (bytes : Bytes) → length bytes ≡ n → page_data n bytes ≡ bytes
unfolding page_data
page_data-whole n bytes h =
    let e : ltb (length bytes) n ≡ false = ground arith in rw e (take-all n bytes (omega arith))

-- So does writePage of a page of that size.
pub write_page-front :
    (page : PageRef) (front old bytes : Bytes) (pm : PageManager)
    → page.offset ≡ length front
    → page.size ≡ length bytes
    → pm.file.content ≡ front ++ old
    → (write_page page bytes pm).file.content ≡ front ++ (bytes ++ drop (length bytes) old)
unfolding write_page
write_page-front page front old bytes pm ho hs hc =
    rw (ho, hc, page_data-whole page.size bytes (sym hs)) (overwrite-front front old bytes)
