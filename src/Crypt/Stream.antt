-- ===== src/Crypt/Stream.antt =====
-- The digest of a file is that of its bytes.
use mhftp.Base.{
  ℕ, zero, suc, ◌+◌, ◌<◌, ◌≡◌, refl, sym, ap, ◌∙◌, inl, inr, some, [], ◌∷◌, arith, ◌==◌, Bool-cases,
  length, take, drop, length-take, length-drop, take-append-drop,
}
use mhftp.Posix.{Bytes}
use mhftp.Crypt.{Md5, md5_buffer, md5_file_loop, md5_file}

module _ (md5 : Md5) where
  empty : (xs : Bytes) → length xs ≡ 0 → xs ≡ []
  empty [] h = refl
  empty (x ∷ xs) h = absurd (omega arith)

  loop_hashes :
      (fuel : ℕ) (context : md5.Context) (rest : Bytes)
      → length rest < fuel
      → md5_file_loop md5 fuel context rest ≡ some (md5.update context rest)
  unfolding md5_file_loop
  loop_hashes zero context rest h = absurd (omega arith)
  loop_hashes (suc fuel) context rest h = elim (Bool-cases (length (take 2048 rest) == 0)) [
    | inl e ↦
        let none_left : rest ≡ [] = empty rest (ground (arith, length-take {0} 2048 rest)) in
        rw (e, none_left, md5.update_nil context) refl
    | inr e ↦ rw e (
        loop_hashes fuel (md5.update context (take 2048 rest)) (drop 2048 rest)
          (ground (arith, length-take {0} 2048 rest, length-drop {0} 2048 rest))
        ∙ ap some (
            sym (md5.update-append context (take 2048 rest) (drop 2048 rest))
            ∙ ap (md5.update context) (take-append-drop 2048 rest)))
  ]

  -- `md5File` ends, and its digest is that of `md5Buffer` on all the bytes of the file.
  pub md5_file-md5_buffer : (content : Bytes) → md5_file md5 content ≡ some (md5_buffer md5 content)
  unfolding md5_file
  md5_file-md5_buffer content =
      rw (loop_hashes (length content + 1) md5.init content (omega arith)) refl
