-- ===== src/Toy/Files.antt =====
-- A stand-in for the file system: the files with their paths. Writing and making folders never fail.
use cryp.Prelude.{
  ◌≡◌, ◌≢◌, refl, ap, Bool, true, false, ◌&&◌, Bool-cases, inl, inr, Option, none, some, List, [],
  ◌∷◌, arith, if◌then◌else◌, sym, ◌∙◌,
}
use cryp.Bytes.{Bytes}
use cryp.Crypto.Vault.{FsPath, FileSystem, bytes_eq}

unfoldable pub path_eq : FsPath → FsPath → Bool
path_eq [] [] = true
path_eq [] (y ∷ ys) = false
path_eq (x ∷ xs) [] = false
path_eq (x ∷ xs) (y ∷ ys) = let rest = path_eq xs ys in bytes_eq x y && rest

bytes_eq_sound : (a b : Bytes) → bytes_eq a b ≡ true → a ≡ b
unfolding bytes_eq
bytes_eq_sound [] [] h = refl
bytes_eq_sound [] (y ∷ ys) h = absurd (ground (arith, h))
bytes_eq_sound (x ∷ xs) [] h = absurd (ground (arith, h))
bytes_eq_sound (x ∷ xs) (y ∷ ys) h = ground (arith, h, bytes_eq_sound xs ys)

bytes_eq_self : (a : Bytes) → bytes_eq a a ≡ true
unfolding bytes_eq
bytes_eq_self [] = refl
bytes_eq_self (x ∷ xs) = ground (arith, bytes_eq_self xs)

path_eq_sound : (a b : FsPath) → path_eq a b ≡ true → a ≡ b
unfolding path_eq
path_eq_sound [] [] h = refl
path_eq_sound [] (y ∷ ys) h = absurd (ground (arith, h))
path_eq_sound (x ∷ xs) [] h = absurd (ground (arith, h))
path_eq_sound (x ∷ xs) (y ∷ ys) h = ground (arith, h, bytes_eq_sound x y, path_eq_sound xs ys)

path_eq_self : (a : FsPath) → path_eq a a ≡ true
unfolding path_eq
path_eq_self [] = refl
path_eq_self (x ∷ xs) = ground (arith, bytes_eq_self x, path_eq_self xs)

abbrev Disk : Type 0
Disk = List (FsPath × Bytes)

unfoldable pub read_disk : Disk → FsPath → Option Bytes
read_disk [] q = none
read_disk ((p, b) ∷ others) q = if path_eq q p then some b else read_disk others q

pub read_written :
    (d e : Disk) (p : FsPath) (b : Bytes) → some ((p, b) ∷ d) ≡ some e → read_disk e p ≡ some b
unfolding read_disk
read_written d e p b h =
    let same : (p, b) ∷ d ≡ e = cc h in
    let there : read_disk ((p, b) ∷ d) p ≡ some b = rw (path_eq_self p) refl in
    ap (λ (x : Disk). read_disk x p) (sym same) ∙ there

pub read_other :
    (d e : Disk) (p q : FsPath) (b : Bytes)
    → some ((p, b) ∷ d) ≡ some e
    → q ≢ p
    → read_disk e q ≡ read_disk d q
unfolding read_disk
read_other d e p q b h other =
    let same : (p, b) ∷ d ≡ e = cc h in
    elim (Bool-cases (path_eq q p)) [
      | inl equal ↦ absurd (other (path_eq_sound q p equal))
      | inr differs ↦
          let there : read_disk ((p, b) ∷ d) q ≡ read_disk d q = rw differs refl in
          ap (λ (x : Disk). read_disk x q) (sym same) ∙ there
    ]

pub read_mkdir : (d e : Disk) (p q : FsPath) → some d ≡ some e → read_disk e q ≡ read_disk d q
read_mkdir d e p q h = let same : d ≡ e = cc h in ap (λ (x : Disk). read_disk x q) (sym same)

abbrev pub toy_files : FileSystem
toy_files = record {
  D = Disk;
  read_file = read_disk;
  write_file = λ d p b. some ((p, b) ∷ d);
  mkdir_all = λ d p. some d;
  read_written = read_written;
  read_other = read_other;
  read_mkdir = read_mkdir;
}
