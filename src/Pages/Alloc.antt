-- ===== src/Pages/Alloc.antt =====
-- The pages that allocPage hands out.
use libcstable.Prelude.{ℕ, ◌+◌, ◌%◌, ◌^◌, ◌≤◌, ◌≡◌, refl, List, [], ◌∷◌, All, arith}
use libcstable.Format.{PageRef, pad_to_next_sector}
use libcstable.Pages.{PageManager, alloc_page}

-- Allocates pages of these sizes, one after another.
unfoldable pub alloc_pages : List ℕ → PageManager → List PageRef × PageManager
alloc_pages [] pm = ([], pm)
alloc_pages (size ∷ sizes) pm =
    let (page, pm') = alloc_page size pm in
    let (pages, pm'') = alloc_pages sizes pm' in (page ∷ pages, pm'')

-- A page from `start` on that ends before `end`, on sector boundaries, and holds `size` bytes.
pub record IsPage (start size : ℕ) (page : PageRef) : Type 0 where
  pub after : start ≤ page.offset
  pub aligned : page.offset % 512 ≡ 0
  pub whole_sectors : page.size % 512 ≡ 0
  pub holds : size ≤ page.size

-- Each page is as it was asked for, and begins where the one before it ends, the first at `start`.
abbrev pub AreConsecutive : ℕ → List ℕ → List PageRef → Type 0
AreConsecutive start [] [] = Unit
AreConsecutive start [] (page ∷ pages) = ⊥
AreConsecutive start (size ∷ sizes) [] = ⊥
AreConsecutive start (size ∷ sizes) (page ∷ pages) =
    (page.offset ≡ start)
    × IsPage start size page
    × AreConsecutive (page.offset + page.size) sizes pages

abbrev pub total : List ℕ → ℕ
total [] = 0
total (size ∷ sizes) = size + 512 + total sizes

alloc_page_lem :
    (size : ℕ) (pm : PageManager)
    → size + 512 ≤ 2 ^ 32
    → pm.offset + size + 512 ≤ 2 ^ 64
    → pm.offset % 512 ≡ 0
    → let (page, pm') = alloc_page size pm in
      (page.offset ≡ pm.offset)
      × IsPage pm.offset size page
      × (pm'.offset ≡ page.offset + page.size)
      × (pm'.offset % 512 ≡ 0)
      × (pm'.offset ≤ pm.offset + size + 511)
unfolding alloc_page pad_to_next_sector
alloc_page_lem size pm hs ho ha = (
  refl,
  record { after = omega arith; aligned = ha; whole_sectors = omega arith; holds = omega arith },
  omega arith,
  omega arith,
  omega arith,
)

-- If the sizes are below 2 ^ 32 - 511, the end of the file is on a sector boundary and the sizes
-- with a sector each fit below 2 ^ 64 behind it, then the allocated pages lie on sector boundaries,
-- hold the sizes asked for, and follow one another from the end of the file, without overlap.
pub alloc_pages_consecutive :
    (sizes : List ℕ) (pm : PageManager)
    → All (λ size. size + 512 ≤ 2 ^ 32) sizes
    → pm.offset % 512 ≡ 0
    → pm.offset + total sizes ≤ 2 ^ 64
    → AreConsecutive pm.offset sizes (alloc_pages sizes pm).0
unfolding alloc_pages
alloc_pages_consecutive [] pm h ha ho = tt
alloc_pages_consecutive (size ∷ sizes) pm (h, hs) ha ho =
    let (page, pm') = alloc_page size pm in
    let (at, is_page, next, aligned, bound) = alloc_page_lem size pm h (omega arith) ha in
    (at, is_page, rw next at (alloc_pages_consecutive sizes pm' hs aligned (omega arith)))
