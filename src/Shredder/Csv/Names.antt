-- ===== src/Shredder/Csv/Names.antt =====
-- How often a name is in the sets and lists of names of addRecordsFromCSV
-- (cstable/RecordShredder.cc).
use libcstable.Prelude.{
  ℕ, zero, suc, ◌+◌, ◌≤◌, ◌≡◌, refl, ◌∙◌, inl, inr, true, false, List, [], ◌∷◌, length, take,
  Option, none, some, Bool-cases, if◌then◌else◌, arith,
}
use libcstable.Prelude.Bytes.{Bytes, bytes_eq, bytes_eq→eq, is_member}
use libcstable.Format.Open.{bytes_lt}
use libcstable.Shredder.{lookup, update}
use libcstable.Shredder.Csv.{put_name, insert_name, erase_name, names_of}

-- How often a name occurs.
abbrev pub hit : Bytes → Bytes → ℕ
hit name n = if bytes_eq name n then 1 else 0

abbrev pub count_of : Bytes → List Bytes → ℕ
count_of name [] = 0
count_of name (n ∷ names) = hit name n + count_of name names

-- The entries that the rows have for a column: one for each of the header's cells with its name that
-- the row reaches, and a null for each row if the header has no such cell.
abbrev pub cells_for : Bytes → List Bytes → List (List Bytes) → ℕ
cells_for name header [] = 0
cells_for name header (row ∷ rows) =
    (if is_member name header then count_of name (take (length row) header) else 1)
    + cells_for name header rows

pub bytes_eq_sym : (xs ys : Bytes) → bytes_eq xs ys ≡ bytes_eq ys xs
bytes_eq_sym xs ys = elim (Bool-cases (bytes_eq xs ys)) [
  | inl same ↦ rw (bytes_eq→eq xs ys same) refl
  | inr other ↦ elim (Bool-cases (bytes_eq ys xs)) [
    | inl same ↦ rw (bytes_eq→eq ys xs same) refl
    | inr other' ↦ rw (other, other') refl
  ]
]

-- The set of the columns' names.
pub is_member-count :
    (name : Bytes) (names : List Bytes)
    → (if is_member name names then 1 else 0) ≤ count_of name names
is_member-count name [] = omega arith
is_member-count name (n ∷ names) =
    let rest = is_member-count name names in
    elim (Bool-cases (bytes_eq name n)) [
      | inl same ↦ rw (← bytes_eq_sym name n, same) (omega arith)
      | inr other ↦ rw (← bytes_eq_sym name n, other) (omega (arith, rest))
    ]

no_member-count :
    (name : Bytes) (names : List Bytes) → is_member name names ≡ false → count_of name names ≡ 0
no_member-count name [] h = refl
no_member-count name (n ∷ names) h = elim (Bool-cases (bytes_eq name n)) [
  | inl same ↦ absurd (let q = rw (← bytes_eq_sym name n, same) at h in cc)
  | inr other ↦
      rw other (omega (arith, no_member-count name names (rw (← bytes_eq_sym name n, other) at h)))
]

pub no_member-count-take :
    (name : Bytes) (n : ℕ) (names : List Bytes)
    → is_member name names ≡ false
    → count_of name (take n names) ≡ 0
no_member-count-take name zero names h = refl
no_member-count-take name (suc n) [] h = refl
no_member-count-take name (suc n) (m ∷ names) h = elim (Bool-cases (bytes_eq name m)) [
  | inl same ↦ absurd (let q = rw (← bytes_eq_sym name m, same) at h in cc)
  | inr other ↦
      rw other
        (omega (arith, no_member-count-take name n names (rw (← bytes_eq_sym name m, other) at h)))
]

count-put_name :
    (name n : Bytes) (names : List Bytes)
    → count_of name (put_name n names) ≡ hit name n + count_of name names
count-put_name name n [] = refl
count-put_name name n (m ∷ names) =
    let rest = count-put_name name n names in
    elim (Bool-cases (bytes_lt m n)) [
      | inl less ↦ rw less (omega (arith, rest))
      | inr more ↦ rw more refl
    ]

-- A column of the table is once among the names.
abbrev pub found : {K : Type 0} → Option K → ℕ
found none = 0
found (some k) = 1

found_le : {K : Type 0} (o : Option K) → found o ≤ 1
found_le none = omega arith
found_le (some k) = omega arith

pub count-names_of :
    {K : Type 0} (name : Bytes) (ws : List (Bytes × K))
    → count_of name (names_of ws) ≡ found (lookup name ws)
unfolding names_of insert_name
count-names_of name [] = refl
count-names_of name ((n, k) ∷ ws) =
    let rest = count-names_of name ws in
    elim (Bool-cases (bytes_eq name n)) [
      | inl same ↦ elim (Bool-cases (is_member n (names_of ws))) [
        | inl there ↦
            let once : found (lookup name ws) ≤ 1 = found_le (lookup name ws) in
            let many = is_member-count n (names_of ws) in
            rw (there, same)
              (let same_name = bytes_eq→eq name n same in
                let many' = rw (there, ← same_name) at many in omega (arith, rest, once, many'))
        | inr absent ↦
            let none_yet = no_member-count n (names_of ws) absent in
            let same_name = bytes_eq→eq name n same in
            rw (absent, same)
              (let none_yet' = rw (← same_name) at none_yet in
                count-put_name name n (names_of ws) ∙ rw same (omega (arith, none_yet')))
      ]
      | inr other ↦ elim (Bool-cases (is_member n (names_of ws))) [
        | inl there ↦ rw (there, other) rest
        | inr absent ↦
            rw (absent, other)
              (count-put_name name n (names_of ws) ∙ rw other (omega (arith, rest)))
      ]
    ]

pub count-erase_name :
    (name n : Bytes) (names : List Bytes)
    → count_of name (erase_name n names) ≡ (if bytes_eq name n then 0 else count_of name names)
unfolding erase_name
count-erase_name name n [] = elim (Bool-cases (bytes_eq name n)) [
  | inl same ↦ rw same refl
  | inr other ↦ rw other refl
]
count-erase_name name n (m ∷ names) =
    let rest = count-erase_name name n names in
    elim (Bool-cases (bytes_eq n m)) [
      | inl same ↦ elim (Bool-cases (bytes_eq name n)) [
        | inl it ↦ rw (same, it) (let q = rw it at rest in q)
        | inr other ↦
            let other' : bytes_eq name m ≡ false = rw (← bytes_eq→eq n m same) other in
            rw (same, other, other') (let q = rw other at rest in omega (arith, q))
      ]
      | inr differs ↦ elim (Bool-cases (bytes_eq name n)) [
        | inl it ↦
            let other' : bytes_eq name m ≡ false = rw (bytes_eq→eq name n it) differs in
            rw (differs, it, other') (let q = rw it at rest in omega (arith, q))
        | inr other ↦ rw (differs, other) (let q = rw other at rest in omega (arith, q))
      ]
    ]

pub is_member-erase_name :
    (name col : Bytes) (header missing : List Bytes)
    → (if is_member name header then 0 else count_of name (erase_name col missing))
      ≡ (if is_member name (col ∷ header) then 0 else count_of name missing)
is_member-erase_name name col header missing =
    let once = count-erase_name name col missing in
    elim (Bool-cases (is_member name header)) [
      | inl there ↦ elim (Bool-cases (bytes_eq name col)) [
        | inl same ↦ rw (there, ← bytes_eq_sym name col, same) refl
        | inr other ↦ rw (there, ← bytes_eq_sym name col, other) refl
      ]
      | inr absent ↦ elim (Bool-cases (bytes_eq name col)) [
        | inl same ↦ rw (absent, ← bytes_eq_sym name col, same) (let q = rw same at once in q)
        | inr other ↦ rw (absent, ← bytes_eq_sym name col, other) (let q = rw other at once in q)
      ]
    ]

-- The writer of a column after a call on one.
pub lookup-update :
    {K : Type 0} (name col : Bytes) (k k' : K) (ws : List (Bytes × K))
    → lookup col ws ≡ some k
    → lookup name (update col k' ws) ≡ (if bytes_eq name col then some k' else lookup name ws)
lookup-update name col k k' [] h = absurd cc
lookup-update name col k k' ((n, w) ∷ ws) h = elim (Bool-cases (bytes_eq col n)) [
  | inl same ↦ elim (Bool-cases (bytes_eq name n)) [
    | inl it ↦
        let it' : bytes_eq name col ≡ true = rw (bytes_eq→eq col n same) it in
        rw (same, it, it') refl
    | inr other ↦
        let other' : bytes_eq name col ≡ false = rw (bytes_eq→eq col n same) other in
        rw (same, other, other') refl
  ]
  | inr differs ↦
      let rest = lookup-update name col k k' ws (rw differs at h) in
      elim (Bool-cases (bytes_eq name n)) [
        | inl it ↦
            let other' : bytes_eq name col ≡ false =
              rw (bytes_eq→eq name n it) (bytes_eq_sym n col ∙ differs) in
            rw (differs, it, other') refl
        | inr other ↦ rw (differs, other) rest
      ]
]
