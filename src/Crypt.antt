-- ===== src/Crypt.antt =====
-- crypt/md5Utils.cpp: digests of buffers and of files. The hash itself is OpenSSL's, a parameter here.
pub mod Stream
pub mod Hex
use mhftp.Base.{
  ℕ, zero, suc, ◌+◌, ◌≡◌, Option, none, some, List, [], ◌∷◌, ◌++◌, ◌==◌, if◌then◌else◌, length,
  take, drop,
}
use mhftp.Posix.{Bytes}

-- MD5_Init, MD5_Update and MD5_Final, with what their documentation says: a message may be handed over
-- in pieces, and a digest has 16 bytes.
pub record Md5 : Type 1 where
  pub Context : Type 0
  pub init : Context
  pub update : Context → Bytes → Context
  pub final : Context → Bytes
  pub update_nil : (c : Context) → update c [] ≡ c
  pub update-append : (c : Context) (xs ys : Bytes) → update c (xs ++ ys) ≡ update (update c xs) ys
  pub length-final : (c : Context) → length (final c) ≡ 16

module _ (md5 : Md5) where
  open md5 use {Context, init, update, final}

  abbrev pub md5_buffer : Bytes → Bytes
  md5_buffer message = final (update init message)

  -- `do { br = read(fd, buffer, 2048); … } while (br != 0 && br != -1)` on the rest of the file. `none` is
  -- a round more than the file has bytes.
  unfoldable pub md5_file_loop : ℕ → Context → Bytes → Option Context
  md5_file_loop zero context rest = none
  md5_file_loop (suc fuel) context rest =
      let block = take 2048 rest in
      let more = md5_file_loop fuel (update context block) (drop 2048 rest) in
      if length block == 0 then some context else more

  abbrev finish : Option Context → Option Bytes
  finish none = none
  finish (some context) = some (final context)

  unfoldable pub md5_file : Bytes → Option Bytes
  unfolding md5_file_loop
  md5_file content = finish (md5_file_loop (length content + 1) init content)
