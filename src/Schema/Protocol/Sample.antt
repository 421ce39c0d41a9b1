-- ===== src/Schema/Protocol/Sample.antt =====
-- A concrete lib0, for the tests.
use hamboom.Base.{ℕ, zero, suc, ◌≡◌, refl, ◌++◌, Option, none, some, [], ◌∷◌, length}
use hamboom.Schema.Protocol.{Bytes, Lib0}
use hamboom.Schema.Protocol.Inverse.{IsInverse}

-- A number is one entry, and an array its length and its entries.
abbrev pub read_entry : Bytes → Option (ℕ × Bytes)
read_entry [] = none
read_entry (n ∷ rest) = some (n, rest)

abbrev pub prepend : ℕ → Option (Bytes × Bytes) → Option (Bytes × Bytes)
prepend x none = none
prepend x (some (b, rest)) = some (x ∷ b, rest)

abbrev pub split : ℕ → Bytes → Option (Bytes × Bytes)
split zero rest = some ([], rest)
split (suc n) [] = none
split (suc n) (x ∷ xs) = prepend x (split n xs)

abbrev pub read_array : Bytes → Option (Bytes × Bytes)
read_array [] = none
read_array (n ∷ rest) = split n rest

abbrev pub simple : Lib0
simple = record {
  write_uint = λ n. n ∷ [];
  read_uint = read_entry;
  write_bytes = λ b. length b ∷ b;
  read_bytes = read_array;
  write_string = λ t. length t ∷ t;
  read_string = read_array;
}

split-length : (b rest : Bytes) → split (length b) (b ++ rest) ≡ some (b, rest)
split-length [] rest = refl
split-length (x ∷ b) rest = rw (split-length b rest)

pub simple-IsInverse : IsInverse simple
simple-IsInverse = record {
  uint = λ n h rest. refl;
  bytes = split-length;
  string = λ t w rest. split-length t rest;
}
