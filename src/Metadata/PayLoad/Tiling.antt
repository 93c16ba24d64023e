-- ===== src/Metadata/PayLoad/Tiling.antt =====
-- The chunks of a file cover it, one after another and with no gap.
use Prim.Native.Nat.{min}
use native.Mathlib.Nat.{div-add-mod, mod-lt, zero-add}
use mathlib.Core.Option
use mathlib.Core.Option.{some-injective}
use mhftp.Base.{
  ℕ, zero, suc, ◌+◌, ◌-◌, ◌*◌, ◌/◌, ◌%◌, ◌^◌, ◌≤◌, ◌<◌, ◌≡◌, refl, sym, ap, ◌∙◌, some, List, [],
  ◌∷◌, arith, ◌==◌, if◌then◌else◌, length, get_elem?, All, length-replicate,
}
use mhftp.Base.Int.{ℤ, pos, pos_part, pos-*ℤ-pos, pos--ℤ-pos}
use mhftp.Metadata.{Metadata, ChunkInfo, IsChunk, ch_pending}
use mhftp.Metadata.PayLoad.{
  chunk_count, pay_load, pay_load_loop, get_pay_load_array, new_chunk, init_loop, new_table,
  init_control_data,
}

-- The number of chunks, over the natural numbers.
abbrev pub count : ℕ → ℕ → ℕ
count f c = f / c + (if f % c == 0 then 0 else 1)

pub chunk_count_lem : (f c : ℕ) → 0 < c → chunk_count f (pos c) ≡ some (pos (count f c))
unfolding chunk_count
chunk_count_lem f zero h = absurd (omega arith)
chunk_count_lem f (suc c) h = refl

-- As long as the chunk starts in the file, its size is what is left of the file, a chunk at most.
pub pay_load_lem : (f c i : ℕ) → c * i ≤ f → pay_load (pos f) (pos c) i ≡ pos (min c (f - c * i))
unfolding pay_load
pay_load_lem f c i h = rw (pos-*ℤ-pos c i, pos--ℤ-pos f (c * i) h) (ground arith)

mul_mono : (c a b : ℕ) → a ≤ b → c * a ≤ c * b
mul_mono c a b h = grind arith

-- A chunk below the count starts in the file.
pub starts_inside : (f c i : ℕ) → 0 < c → i < count f c → c * i < f
starts_inside f c i h k =
    ground (arith, div-add-mod f c, mul_mono c (i + 1) (f / c), mul_mono c i (f / c))

pub count_covers : (f c : ℕ) → 0 < c → f ≤ c * count f c
count_covers f c h = ground (arith, div-add-mod f c, mod-lt f h)

module _ (f c : ℕ) where
  get_elem?-pay_load_loop :
      (n i k : ℕ)
      → k < n
      → get_elem? (pay_load_loop (pos f) (pos c) n i) k ≡ some (pay_load (pos f) (pos c) (i + k))
  unfolding pay_load_loop
  get_elem?-pay_load_loop zero i k h = absurd (omega arith)
  get_elem?-pay_load_loop (suc n) i zero h =
      let e : i ≡ i + 0 = omega arith in ap (λ j. some (pay_load (pos f) (pos c) j)) e
  get_elem?-pay_load_loop (suc n) i (suc k) h =
      let e : suc i + k ≡ i + suc k = omega arith in
      get_elem?-pay_load_loop n (suc i) k (omega arith)
      ∙ ap (λ j. some (pay_load (pos f) (pos c) j)) e

abbrev pub sum_sizes : List ℤ → ℕ
sum_sizes [] = 0
sum_sizes (z ∷ zs) = pos_part z + sum_sizes zs

sum_sizes-loop :
    (f c n i : ℕ)
    → ((k : ℕ) → k < i + n → c * k ≤ f)
    → sum_sizes (pay_load_loop (pos f) (pos c) n i) ≡ min (c * n) (f - c * i)
unfolding pay_load_loop
sum_sizes-loop f c zero i h = omega arith
sum_sizes-loop f c (suc n) i h =
    let first : pay_load (pos f) (pos c) i ≡ pos (min c (f - c * i)) =
      pay_load_lem f c i (h i (omega arith)) in
    let later : sum_sizes (pay_load_loop (pos f) (pos c) n (suc i)) ≡ min (c * n) (f - c * suc i) =
      sum_sizes-loop f c n (suc i) (λ k lt. h k (omega arith)) in
    rw (first, later) (omega arith)

module _ (f c n : ℕ) (positive : 0 < c) (counted : chunk_count f (pos c) ≡ some (pos n)) where
  n-count : n ≡ count f c
  n-count = ap pos_part (some-injective _ _ (sym counted ∙ chunk_count_lem f c positive))

  begins : (i : ℕ) → i < n → c * i < f
  begins i h = starts_inside f c i positive (omega (arith, n-count))

  -- The sizes in the array of `getPayLoadArray`, for a positive chunk size and the count of
  -- `chunk_count`, add up to the size of the file.
  pub get_pay_load_array_total : sum_sizes (get_pay_load_array (pos f) (pos c) (pos n)) ≡ f
  unfolding get_pay_load_array
  get_pay_load_array_total =
      rw (sum_sizes-loop f c n 0 (λ k lt. omega (arith, begins k (omega arith))))
        (omega (arith, count_covers f c positive, ap (λ (t : ℕ). c * t) n-count))

  -- For a positive chunk size, the count of `chunk_count` and an index below it, entry `i` of the array
  -- of `getPayLoadArray` is the size of the part of the file that starts at `c * i`: a chunk, or what is
  -- left of the file if that is less. It is at least 1, and the part ends inside the file.
  pub get_pay_load_array_entry :
      (i : ℕ)
      → i < n
      → (size : ℕ) × (get_elem? (get_pay_load_array (pos f) (pos c) (pos n)) i ≡ some (pos size))
        × (1 ≤ size)
        × (size ≤ c)
        × (c * i + size ≤ f)
        × (size ≡ min c (f - c * i))
  unfolding get_pay_load_array
  get_pay_load_array_entry i h =
      let start : c * i < f = begins i h in
      (
        min c (f - c * i),
        get_elem?-pay_load_loop f c n 0 i h
            ∙ ap some
                (ap (pay_load (pos f) (pos c)) (zero-add i) ∙ pay_load_lem f c i (omega arith)),
        omega arith,
        omega arith,
        omega arith,
        refl,
      )

  pub chunk_of_byte : (j : ℕ) → j < f → j / c < n
  chunk_of_byte j h = ground (
    arith,
    div-add-mod j c,
    mul_mono c n (j / c),
    count_covers f c positive,
    ap (λ (t : ℕ). c * t) n-count,
  )

  -- For a positive chunk size and the count of `chunk_count`, byte `j` of the file lies in the part that
  -- entry `j / c` of the array of `getPayLoadArray` is the size of.
  pub get_pay_load_array_covers :
      (j : ℕ)
      → j < f
      → (size : ℕ) × (get_elem? (get_pay_load_array (pos f) (pos c) (pos n)) (j / c)
          ≡ some (pos size))
        × (c * (j / c) ≤ j)
        × (j < c * (j / c) + size)
  get_pay_load_array_covers j h =
      let below = chunk_of_byte j h in
      let (size, e, _, _, _, is_min) = get_pay_load_array_entry (j / c) below in
      (
        size,
        e,
        omega (arith, div-add-mod j c),
        omega (arith, div-add-mod j c, mod-lt j positive, is_min),
      )

module _ (f c : ℕ) where
  pub length-init_loop : (n i : ℕ) → length (init_loop (pos f) (pos c) n i) ≡ n
  unfolding init_loop
  length-init_loop zero i = refl
  length-init_loop (suc n) i = ap suc (length-init_loop n (suc i))

  get_elem?-init_loop :
      (n i k : ℕ)
      → k < n
      → get_elem? (init_loop (pos f) (pos c) n i) k
        ≡ some (new_chunk (pay_load (pos f) (pos c) (i + k)))
  unfolding init_loop
  get_elem?-init_loop zero i k h = absurd (omega arith)
  get_elem?-init_loop (suc n) i zero h =
      let e : i ≡ i + 0 = omega arith in ap (λ j. some (new_chunk (pay_load (pos f) (pos c) j))) e
  get_elem?-init_loop (suc n) i (suc k) h =
      let e : suc i + k ≡ i + suc k = omega arith in
      get_elem?-init_loop n (suc i) k (omega arith)
      ∙ ap (λ j. some (new_chunk (pay_load (pos f) (pos c) j))) e

  -- Every chunk of a new table is pending.
  pub init_loop-pending :
      (n i a : ℕ) (e : ChunkInfo)
      → get_elem? (init_loop (pos f) (pos c) n i) a ≡ some e
      → e.status ≡ ch_pending
  unfolding init_loop
  init_loop-pending zero i a e there = cc
  init_loop-pending (suc n) i zero e there = ap ChunkInfo.status (sym (some-injective _ _ there))
  init_loop-pending (suc n) i (suc a) e there = init_loop-pending n (suc i) a e there

  init_loop-IsChunk :
      (n i : ℕ)
      → c < 2 ^ 63
      → ((k : ℕ) → k < i + n → c * k ≤ f)
      → All IsChunk (init_loop (pos f) (pos c) n i)
  unfolding init_loop
  init_loop-IsChunk zero i h k = tt
  init_loop-IsChunk (suc n) i h k = (
    (length-replicate {0} {A = ℕ} 16 0, rw (pay_load_lem f c i (k i (omega arith))) (omega arith)),
    init_loop-IsChunk n (suc i) h (λ j lt. k j (omega arith)),
  )

-- The table that `initControlData` makes is well-formed.
pub init_loop-All-IsChunk :
    (f c n : ℕ)
    → 0 < c
    → c < 2 ^ 63
    → chunk_count f (pos c) ≡ some (pos n)
    → All IsChunk (init_loop (pos f) (pos c) n 0)
init_loop-All-IsChunk f c n positive fits counted =
    init_loop-IsChunk f c n 0 fits
      (λ k lt. omega (arith, begins f c n positive counted k (omega arith)))

-- `initControlData` on an object with a positive chunk size whose count is the one of `chunk_count` for
-- its file: the table has an entry for each chunk, and entry `i` is pending, with zeros for a digest and
-- the size of part `i` of the file; the other fields are kept.
pub init_control_data_lem :
    (m : Metadata) (f c n : ℕ)
    → 0 < c
    → m.file_size ≡ pos f
    → m.chunk_size ≡ pos c
    → m.chunks ≡ pos n
    → chunk_count f (pos c) ≡ some (pos n)
    → (i : ℕ) → i < n
    → (table : List ChunkInfo) × (init_control_data m ≡ some (record m { chunk_info = table }))
      × (length table ≡ n)
      × (get_elem? table i ≡ some (new_chunk (pos (min c (f - c * i)))))
unfolding init_control_data
init_control_data_lem m f c n positive ef ec en counted i h = (
  init_loop (pos f) (pos c) n 0,
  ap (Option.map (λ table. record m { chunk_info = table })) table_lem,
  length-init_loop f c n 0,
  get_elem?-init_loop f c n 0 i h
      ∙ ap (λ s. some (new_chunk s))
          (ap (pay_load (pos f) (pos c)) (zero-add i)
            ∙ pay_load_lem f c i (omega (arith, begins f c n positive counted i h))),
)
  where
    table_lem : new_table m.file_size m.chunk_size m.chunks ≡ some (init_loop (pos f) (pos c) n 0)
    table_lem =
        ap (λ z. new_table z m.chunk_size m.chunks) ef
        ∙ ap (λ z. new_table (pos f) z m.chunks) ec
        ∙ ap (new_table (pos f) (pos c)) en
