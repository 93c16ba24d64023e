-- ===== src/Posix.antt =====
-- What the program uses of the C library: strings in buffers, files, and the ways a call can end.
-- Bytes are numbers, and a file is the list of its bytes. Output for the terminal is left out.
pub mod Write
pub mod Decimal
pub mod Socket
use mhftp.Base.{
  ℕ, zero, suc, ◌+◌, ◌-◌, ◌≡◌, Bool, true, false, ◌&&◌, Option, none, some, List, [], ◌∷◌, ◌++◌,
  arith, refl, ap₂, ◌==◌, ==_iff, if◌then◌else◌, length, take, drop, replicate,
}

abbrev pub Bytes : Type 0
Bytes = List ℕ

-- A C string without its terminating zero.
abbrev pub FileName : Type 0
FileName = List ℕ

unfoldable pub bytes_eq : Bytes → Bytes → Bool
bytes_eq [] [] = true
bytes_eq [] (y ∷ ys) = false
bytes_eq (x ∷ xs) [] = false
bytes_eq (x ∷ xs) (y ∷ ys) = x == y && bytes_eq xs ys

pub bytes_eq_refl : (xs : Bytes) → bytes_eq xs xs ≡ true
unfolding bytes_eq
bytes_eq_refl [] = refl
bytes_eq_refl (x ∷ xs) = ground (arith, bytes_eq_refl xs)

pub bytes_eq→eq : (xs ys : Bytes) → bytes_eq xs ys ≡ true → xs ≡ ys
unfolding bytes_eq
bytes_eq→eq [] [] h = refl
bytes_eq→eq [] (y ∷ ys) h = cc
bytes_eq→eq (x ∷ xs) [] h = cc
bytes_eq→eq (x ∷ xs) (y ∷ ys) h = ground (arith, bytes_eq→eq xs ys)

-- The string in a buffer: the bytes before the first zero.
unfoldable pub c_string : Bytes → Bytes
c_string [] = []
c_string (x ∷ xs) = if x == 0 then [] else x ∷ c_string xs

-- `snprintf(buf, strlen(s) + 1, "%s", s)`: the string and a zero, over the front of the buffer.
unfoldable pub put_string : Bytes → Bytes → Bytes
put_string buf s = s ++ (0 ∷ drop (length s + 1) buf)

-- The files that exist, and the names whose `open` is refused for want of permission.
pub record World : Type 0 where
  pub files : FileName → Option Bytes
  pub deny : FileName → Bool

-- `exit` is a call of `exit`; `fault` is undefined behaviour, such as an index past an array.
pub data Outcome {ℓ} (A : Type ℓ) : Type ℓ where
  done : A → World → Outcome A
  exit : ℕ → World → Outcome A
  fault : Outcome A

abbrev pub M {ℓ} : Type ℓ → Type ℓ
M A = World → Outcome A

infixl 5 ◌>>=◌ ◌>>◌
abbrev pub ◌>>=◌ {ℓ κ} : {A : Type ℓ} {B : Type κ} → M A → (A → M B) → M B
◌>>=◌ m f w = elim (m w) [ done a w' ↦ f a w' | exit c w' ↦ exit c w' | fault ↦ fault ]

abbrev pub ◌>>◌ {ℓ} : {B : Type ℓ} → M (Unit {0}) → M B → M B
m >> k = m >>= λ _. k

abbrev pub pure {ℓ} : {A : Type ℓ} → A → M A
pure a w = done a w

pub >>=-done {ℓ κ} :
    {A : Type ℓ} {B : Type κ} (m : M A) (f : A → M B) (w w' : World) {a : A}
    → m w ≡ done a w'
    → (m >>= f) w ≡ f a w'
>>=-done m f w w' e = rw (e, ◌>>=◌) refl

pub >>=-exit {ℓ κ} :
    {A : Type ℓ} {B : Type κ} (m : M A) (f : A → M B) (w w' : World) {c : ℕ}
    → m w ≡ exit c w'
    → (m >>= f) w ≡ exit c w'
>>=-exit m f w w' e = rw (e, ◌>>=◌) refl

-- `none` is undefined behaviour in a computation that touches no file.
abbrev pub lift {ℓ} : {A : Type ℓ} → Option A → M A
lift none w = fault
lift (some a) w = done a w

abbrev pub exit_unless : Bool → ℕ → M (Unit {0})
exit_unless true c w = done tt w
exit_unless false c w = exit c w

unfoldable pub update_file : (FileName → Option Bytes) → FileName → Bytes → FileName → Option Bytes
update_file files name bs other = if bytes_eq name other then some bs else files other

-- `open` of a file that exists: its bytes, or -1.
unfoldable pub open_file : FileName → World → Option Bytes
open_file name w = if w.deny name then none else w.files name

-- `open` with a failure that ends the process.
unfoldable pub open_or_exit : FileName → ℕ → M Bytes
unfolding open_file
open_or_exit name c w = elim (open_file name w) [ none ↦ exit c w | some bs ↦ done bs w ]

pub open_or_exit_lem :
    (w : World) (name : FileName) (code : ℕ) (bs : Bytes)
    → w.files name ≡ some bs
    → w.deny name ≡ false
    → open_or_exit name code w ≡ done bs w
unfolding open_or_exit
open_or_exit_lem w name code bs e d = rw (d, e, open_or_exit, open_file) refl

unfoldable pub put_file : FileName → Bytes → M (Unit {0})
unfolding update_file
put_file name bs w = done tt (record w { files = update_file w.files name bs })

-- `open` with O_CREAT: a file that is not there is made empty; one that is there keeps its bytes.
unfoldable pub create_or_exit : FileName → ℕ → M Bytes
unfolding update_file
create_or_exit name c w = if w.deny name then exit c w else elim (w.files name) [
  | none ↦ done [] (record w { files = update_file w.files name [] })
  | some bs ↦ done bs w
]

-- `read(fd, buf, n)` where `rest` is the file from the position on: the buffer afterwards. A short
-- file leaves the end of the buffer as it was.
unfoldable pub read_into : Bytes → ℕ → Bytes → Bytes
read_into buf n rest = take n (take n rest ++ drop (length (take n rest)) buf)

-- What lies before position `p`; a gap is filled with zeros.
unfoldable pub front : ℕ → Bytes → Bytes
front p file = take p file ++ replicate (p - length file) 0

-- `lseek` to `p` and `write` of `bs`: the bytes of the file afterwards.
unfoldable pub write_at : ℕ → Bytes → Bytes → Bytes
unfolding front
write_at p [] file = file
write_at p (b ∷ bs) file = front p file ++ ((b ∷ bs) ++ drop (p + length (b ∷ bs)) file)

-- Writes that follow one another from position `p` on.
unfoldable pub write_seq : ℕ → List Bytes → Bytes → Bytes
unfolding write_at
write_seq p [] file = file
write_seq p (bs ∷ more) file = write_seq (p + length bs) more (write_at p bs file)
