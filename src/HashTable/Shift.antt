-- ===== src/HashTable/Shift.antt =====
-- src/hev-hash-table.c: the sizes of a table. A table of shift `k` has `2 ^ k` places.
use Prim.Native.Nat.{bit_or}
use hev_lib.Base.{
  ℕ, zero, suc, ◌+◌, ◌*◌, ◌/◌, ◌%◌, ◌^◌, List, [], ◌∷◌, ltb, ◌==◌, if◌then◌else◌, get_or,
}
use hev_lib.HashTable.{HashTable}

abbrev pub min_shift : ℕ
min_shift = 3

abbrev pub prime_mod : List ℕ
prime_mod =
    1 ∷ 2 ∷ 3 ∷ 7 ∷ 13 ∷ 31 ∷ 61 ∷ 127 ∷ 251 ∷ 509 ∷ 1021 ∷ 2039 ∷ 4093 ∷ 8191 ∷ 16381 ∷ 32749
    ∷ 65521 ∷ 131071 ∷ 262139 ∷ 524287 ∷ 1048573 ∷ 2097143 ∷ 4194301 ∷ 8388593 ∷ 16777213 ∷ 33554393
    ∷ 67108859 ∷ 134217689 ∷ 268435399 ∷ 536870909 ∷ 1073741789 ∷ 2147483647 ∷ []

-- `for (i = 0; i < shift; i++) { mask <<= 1; mask |= 1; }`
unfoldable pub mask_loop : (rounds mask : ℕ) → ℕ
mask_loop zero mask = mask
mask_loop (suc n) mask = mask_loop n (bit_or (mask * 2 % 2 ^ 32) 1)

unfoldable pub set_shift : HashTable → ℕ → HashTable
unfolding mask_loop
set_shift t shift = record t {
  size = 2 ^ shift;
  mod_prime = get_or prime_mod shift 0;
  mask = mask_loop shift 0;
}

-- `for (i = 0; n; i++) n >>= 1;` an `int` is 0 after 32 rounds.
unfoldable pub closest_loop : (rounds n i : ℕ) → ℕ
closest_loop zero n i = i
closest_loop (suc f) n i = let rest = closest_loop f (n / 2) (i + 1) in if n == 0 then i else rest

unfoldable pub find_closest_shift : ℕ → ℕ
unfolding closest_loop
find_closest_shift n = closest_loop 32 n 0

unfoldable pub set_shift_from_size : HashTable → ℕ → HashTable
unfolding set_shift find_closest_shift
set_shift_from_size t size =
    let shift = find_closest_shift size in
    set_shift t (if ltb min_shift shift then shift else min_shift)
