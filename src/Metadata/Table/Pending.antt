-- ===== src/Metadata/Table/Pending.antt =====
-- Which chunk is transferred next, and what a change of status leaves alone.
use mhftp.Base.{
  ℕ, zero, suc, ◌+◌, ◌<◌, ◌≡◌, refl, inl, inr, true, false, some, List, [], ◌∷◌, arith, Bool-cases,
  length, get_elem?,
}
use mhftp.Base.Int.{ℤ, pos, negsuc}
use mhftp.Metadata.{ChunkInfo, Metadata}
use mhftp.Metadata.Table.{is_pending, pending_loop, get_next_pending_chunk}

-- Every entry below `i` is transferred or under way.
abbrev pub NoneBelow : List ChunkInfo → ℕ → Type 0
NoneBelow table i =
    (j : ℕ) (c : ChunkInfo) → j < i → get_elem? table j ≡ some c → is_pending c.status ≡ false

-- What the result of `getNextPendingChunk` says of the table.
abbrev pub IsNextPending : List ChunkInfo → ℤ → Type 0
IsNextPending table (pos i) =
    (c : ChunkInfo) × (get_elem? table i ≡ some c)
    × (is_pending c.status ≡ true)
    × NoneBelow table i
IsNextPending table (negsuc n) = (n ≡ 0) × NoneBelow table (length table)

NoneBelow-cons :
    (c : ChunkInfo) (table : List ChunkInfo) (i : ℕ)
    → is_pending c.status ≡ false
    → NoneBelow table i
    → NoneBelow (c ∷ table) (suc i)
NoneBelow-cons c table i h k zero d lt e = ground arith
NoneBelow-cons c table i h k (suc j) d lt e = k j d (omega arith) e

-- The loop, started at `base`: the result counts from there.
abbrev From : List ChunkInfo → ℕ → ℤ → Type 0
From table base (pos r) =
    (i : ℕ) × (r ≡ base + i)
    × (c : ChunkInfo) × (get_elem? table i ≡ some c)
    × (is_pending c.status ≡ true)
    × NoneBelow table i
From table base (negsuc n) = (n ≡ 0) × NoneBelow table (length table)

From-cons :
    (c : ChunkInfo) (table : List ChunkInfo) (base : ℕ) (r : ℤ)
    → is_pending c.status ≡ false
    → From table (suc base) r
    → From (c ∷ table) base r
From-cons c table base (pos r) h (i, e, d, g, p, k) =
    (suc i, omega arith, d, g, p, NoneBelow-cons c table i h k)
From-cons c table base (negsuc n) h (e, k) = (e, NoneBelow-cons c table _ h k)

pending_loop_finds :
    (table : List ChunkInfo) (base : ℕ)
    → (r : ℤ) × (pending_loop table (length table) base ≡ some r) × From table base r
unfolding pending_loop
pending_loop_finds [] base = (negsuc 0, refl, (refl, λ j c h. absurd (omega arith)))
pending_loop_finds (c ∷ table) base = elim (Bool-cases (is_pending c.status)) [
  | inl p ↦ (pos base, rw p refl, (0, omega arith, c, refl, p, λ j d h. absurd (omega arith)))
  | inr p ↦
      let (r, e, f) = pending_loop_finds table (suc base) in
      (r, rw p e, From-cons c table base r p f)
]

From-zero : (table : List ChunkInfo) (r : ℤ) → From table 0 r → IsNextPending table r
From-zero table (pos r) (i, e, c, g, p, k) = let q : r ≡ i = omega arith in rw q (c, g, p, k)
From-zero table (negsuc n) h = h

pub get_next_pending_chunk_finds :
    (m : Metadata)
    → m.chunks ≡ pos (length m.chunk_info)
    → (r : ℤ) × (get_next_pending_chunk m ≡ some r) × IsNextPending m.chunk_info r
unfolding get_next_pending_chunk
get_next_pending_chunk_finds m h =
    let (r, e, f) = pending_loop_finds m.chunk_info 0 in (r, rw h e, From-zero m.chunk_info r f)
