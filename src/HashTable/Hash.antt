-- ===== src/HashTable/Hash.antt =====
-- src/hev-hash-table.c: the hash and equality functions that the file offers.
--
-- What a pointer points to is an argument, since the functions only read it. A signed number comes
-- as its bit pattern.
use hev_lib.Base.{ℕ, ◌+◌, ◌-◌, ◌*◌, ◌%◌, ◌^◌, Bool, List, [], ◌∷◌, ltb, ◌==◌, if◌then◌else◌}

-- A pointer, or the `int` or `int64_t` at it, cast to `unsigned int`.
unfoldable pub direct_hash : ℕ → ℕ
direct_hash v = v % 2 ^ 32

pub direct_equal : ℕ → ℕ → Bool
direct_equal v w = v == w

pub int_hash : ℕ → ℕ
int_hash v = v % 2 ^ 32

pub int_equal : ℕ → ℕ → Bool
int_equal v w = v == w

pub int64_hash : ℕ → ℕ
int64_hash v = v % 2 ^ 32

pub int64_equal : ℕ → ℕ → Bool
int64_equal v w = v == w

-- A byte read as a `signed char`, then widened to `unsigned int`.
abbrev sign_extended : ℕ → ℕ
sign_extended b = if ltb b 128 then b else 2 ^ 32 - 256 + b

-- `h = (h << 5) + h + *p` up to the byte 0, which ends the list.
str_hash_from : ℕ → List ℕ → ℕ
str_hash_from h [] = h
str_hash_from h (b ∷ bs) = str_hash_from ((h * 32 % 2 ^ 32 + h + sign_extended b) % 2 ^ 32) bs

pub str_hash : List ℕ → ℕ
unfolding str_hash_from
str_hash bs = str_hash_from 5381 bs
