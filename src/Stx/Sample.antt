-- ===== src/Stx/Sample.antt =====
-- A model of the codecs, which shows that the laws can hold together: every integer is stored in
-- a fixed width, packed values take four bytes each, and the hash is the bytes cut to twenty.
use libcstable.Prelude.{
  ℕ, ◌^◌, ◌≤◌, ◌<◌, ◌≡◌, ap, ◌∙◌, Option, none, some, List, [], ◌∷◌, ◌++◌, length, All, replicate,
  take, append_assoc, append-nil, arith, length-take, length-append, length-replicate,
  if◌then◌else◌, ◌==◌, ==_iff, Bool-cases, inl, inr, false, true, not, Bool, refl,
}
use libcstable.Prelude.Int.{pos, to_bits, of_bits}
use libcstable.Prelude.Bytes.{Bytes, store, fetch, fetch-store, length-store}
use mathlib.Core.List.{foldl}
use libcstable.Stx.Sorting.{put_all, put_all-Permᴰ, put_all-IsAscending}
use libcstable.Stx.{Wire, Packing, Numerics, Yields}

pub length-hash : (bs : Bytes) → length (take 20 (bs ++ replicate 20 0)) ≡ 20
length-hash bs = omega (
  arith,
  length-take 20 (bs ++ replicate 20 0),
  length-append bs (replicate 20 0),
  length-replicate {A = ℕ} 20 0,
)

pub some_bytes : (n : ℕ) → 1 ≤ length (store 8 n)
some_bytes n = omega (arith, length-store 8 n)

abbrev pub wire : Wire
wire = record {
  u16 = store 2;
  u32 = store 4;
  u64 = store 8;
  varuint = store 8;
  get_u32 = fetch 4;
  get_u64 = fetch 8;
  get_varuint = fetch 8;
  sha1 = λ bs. take 20 (bs ++ replicate 20 0);
  get_u32-u32 = λ n rest h. fetch-store 4 n rest h;
  get_u64-u64 = λ n rest h. fetch-store 8 n rest h;
  get_varuint-varuint = λ n rest h. fetch-store 8 n rest h;
  u16-store = λ n. refl;
  u32-store = λ n. refl;
  length-u16 = length-store 2;
  length-u32 = length-store 4;
  length-u64 = length-store 8;
  varuint-pos = λ n. some_bytes n;
  length-sha1 = length-hash;
  sort = put_all;
  sort-Permᴰ = λ lt xs order. put_all-Permᴰ lt xs;
  sort-IsAscending = λ lt xs order. put_all-IsAscending lt order xs;
}

-- The maximum, and the bytes written. With maximum 0 nothing is written.
abbrev pub Pack : Type 0
Pack = ℕ × Bytes

abbrev pub put : Pack → ℕ → Pack
put e v = if e.0 == 0 then e else (e.0, e.1 ++ store 4 v)

abbrev pub get : Pack → Option (ℕ × Pack)
get d =
    if d.0 == 0
    then some (0, d)
    else elim (fetch 4 d.1) [ none ↦ none | some (v, rest) ↦ some (v, (d.0, rest)) ]

abbrev pub look : Pack → ℕ
look d = elim (get d) [ none ↦ 0 | some (v, rest) ↦ v ]

abbrev all_stored : List ℕ → Bytes
all_stored [] = []
all_stored (v ∷ vs) = store 4 v ++ all_stored vs

foldl-put :
    (max : ℕ) (bs : Bytes) (vs : List ℕ)
    → (max == 0) ≡ false
    → foldl put (max, bs) vs ≡ (max, bs ++ all_stored vs)
foldl-put max bs [] h = ap (λ t. (max, t)) (rw append-nil)
foldl-put max bs (v ∷ vs) h =
    rw h (foldl-put max (bs ++ store 4 v) vs h ∙ ap (λ t. (max, t)) (append_assoc bs _ _))

zeros-Yield : (bs : Bytes) (vs : List ℕ) → All (λ v. v ≤ 0) vs → Yields get (0, bs) vs
zeros-Yield bs [] h = tt
zeros-Yield bs (v ∷ vs) (hv, hvs) =
    ((0, bs), ap (λ n. some (n, (0, bs))) (omega arith), zeros-Yield bs vs hvs)

stored-Yields :
    (max : ℕ) (vs : List ℕ)
    → (max == 0) ≡ false
    → max < 2 ^ 32
    → All (λ v. v ≤ max) vs
    → Yields get (max, all_stored vs) vs
stored-Yields max [] h hm hvs = tt
stored-Yields max (v ∷ vs) h hm (hv, hvs) = (
  (max, all_stored vs),
  rw (h, fetch-store 4 v (all_stored vs) (omega arith)),
  stored-Yields max vs h hm hvs,
)

pub pack_unpack :
    (max : ℕ) (vs : List ℕ)
    → max < 2 ^ 32
    → All (λ v. v ≤ max) vs
    → Yields get (max, (foldl put (max, []) vs).1) vs
pack_unpack max vs hm hvs = elim (Bool-cases (max == 0)) [
  | inl z ↦ rw ((==_iff max 0).0 z) (zeros-Yield _ vs (rw ((==_iff max 0).0 z) at hvs))
  | inr p ↦ rw (foldl-put max [] vs p) (stored-Yields max vs p hm hvs)
]

pub look_next : (d d' : Pack) (v : ℕ) → get d ≡ some (v, d') → look d ≡ v
look_next d d' v h = rw (look, h)

abbrev pub packing : Packing
packing = record {
  Encoder = Pack;
  encoder = λ max. (max, []);
  encode = put;
  flush = λ e. e;
  packed = λ e. e.1;
  Decoder = Pack;
  decoder = λ max bs. (max, bs);
  next = get;
  peek = look;
  unpack = pack_unpack;
  peek_next = look_next;
}

-- Two doubles, 0.0 and 1.0, and texts of the eight bytes of a number.
abbrev pub one_bits : ℕ
one_bits = 0x3ff0000000000000

abbrev pub double_bytes : Bool → ℕ
double_bytes false = 0
double_bytes true = one_bits

abbrev pub text_number : Bytes → Option ℕ
text_number bs = elim (fetch 8 bs) [ none ↦ none | some (n, rest) ↦ some n ]

pub double_bytes-lt : (x : Bool) → double_bytes x < 2 ^ 64
double_bytes-lt true = omega arith
double_bytes-lt false = omega arith

pub double_round_trip : (x : Bool) → not (double_bytes x == 0) ≡ x
double_round_trip true = refl
double_round_trip false = refl

abbrev pub numerics : Numerics
numerics = record {
  Double = Bool;
  zero_double = false;
  above_one = λ x. false;
  below_zero = λ x. false;
  of_unsigned = λ n. not (n == 0);
  of_signed = λ z. true;
  to_unsigned = λ x. if x then 1 else 0;
  to_signed = λ x. if x then pos 1 else pos 0;
  to_bytes = double_bytes;
  from_bytes = λ n. not (n == 0);
  show_unsigned = store 8;
  show_signed = λ z. store 8 (to_bits z);
  show_double = λ x. store 8 (double_bytes x);
  stoull = text_number;
  stoll = λ bs. elim (text_number bs) [ none ↦ none | some n ↦ some (of_bits n) ];
  stod = λ bs. elim (text_number bs) [ none ↦ none | some n ↦ some (not (n == 0)) ];
  from_bytes-to_bytes = double_round_trip;
  to_bytes-lt = double_bytes-lt;
}
