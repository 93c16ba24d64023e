-- ===== src/Protocol/Download/Changes.antt =====
-- What a step of a process does to the table, and the chunks that are still to be brought.
use mathlib.Core.Option.{some-injective}
use mhftp.Base.{
  ℕ, zero, suc, ◌+◌, ◌≤◌, ◌≡◌, refl, ap, Bool, true, some, List, [], ◌∷◌, arith, length, get_elem?,
  set, if◌then◌else◌,
}
use mhftp.Metadata.{ChunkStatus, ChunkInfo, ch_ok, ch_pending, ch_error, ch_download, ch_upload}
use mhftp.Metadata.Table.{is_pending}
use mhftp.Protocol.Download.{Pc, publishing, recording}

-- The status that `note` records.
abbrev pub result : Bool → ChunkStatus
result err = if err then ch_error else ch_ok

-- A step that does not update the metadata file keeps the table. The others change the status of one
-- entry: of a pending one to CH_DOWNLOAD, or of one in CH_DOWNLOAD to the result.
abbrev pub Changed : Pc → List ChunkInfo → List ChunkInfo → Type 0
Changed (publishing m i) table table' =
    (e : ChunkInfo) × (v : ChunkInfo) × (get_elem? table i ≡ some e)
    × (is_pending e.status ≡ true)
    × (v.status ≡ ch_download)
    × (table' ≡ set table i v)
Changed (recording m i err d) table table' =
    (e : ChunkInfo) × (v : ChunkInfo) × (get_elem? table i ≡ some e)
    × (e.status ≡ ch_download)
    × (v.status ≡ result err)
    × (table' ≡ set table i v)
Changed _ table table' = table' ≡ table

-- 1 for a chunk that is not in CH_OK.
abbrev pub missing : ChunkStatus → ℕ
missing ch_ok = 0
missing _ = 1

-- The number of chunks that are not in CH_OK.
abbrev pub to_do : List ChunkInfo → ℕ
to_do [] = 0
to_do (c ∷ table) = missing c.status + to_do table

pub to_do-set :
    (table : List ChunkInfo) (i : ℕ) (e v : ChunkInfo)
    → get_elem? table i ≡ some e
    → to_do (set table i v) + missing e.status ≡ to_do table + missing v.status
to_do-set [] i e v there = cc
to_do-set (c ∷ table) zero e v there =
    let same : missing c.status ≡ missing e.status =
      ap (λ x. missing (ChunkInfo.status x)) (some-injective _ _ there) in
    omega (arith, same)
to_do-set (c ∷ table) (suc i) e v there = omega (arith, to_do-set table i e v there)

missing-le_one : (s : ChunkStatus) → missing s ≤ 1
missing-le_one ch_ok = omega arith
missing-le_one ch_pending = omega arith
missing-le_one ch_error = omega arith
missing-le_one ch_download = omega arith
missing-le_one ch_upload = omega arith

pub to_do-le_length : (table : List ChunkInfo) → to_do table ≤ length table
to_do-le_length [] = omega arith
to_do-le_length (c ∷ table) = omega (arith, to_do-le_length table, missing-le_one c.status)

pub missing-is_pending : (s : ChunkStatus) → is_pending s ≡ true → missing s ≡ 1
missing-is_pending ch_ok h = cc
missing-is_pending ch_pending h = refl
missing-is_pending ch_error h = refl
missing-is_pending ch_download h = cc
missing-is_pending ch_upload h = cc
