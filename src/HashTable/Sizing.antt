-- ===== src/HashTable/Sizing.antt =====
-- The size that `hev_hash_table_set_shift_from_size` of src/hev-hash-table.c gives to a table.
use native.Mathlib.Nat.{two-pow-succ, pow-le-pow_right}
use hev_lib.Base.{
  ℕ, zero, suc, ◌+◌, ◌-◌, ◌/◌, ◌^◌, ◌≤◌, ◌<◌, ◌≡◌, inl, inr, true, false, ltb, ◌==◌, arith, get_or,
  Bool-cases,
}
use hev_lib.HashTable.{HashTable}
use hev_lib.HashTable.Shift.{
  min_shift, prime_mod, closest_loop, find_closest_shift, set_shift, set_shift_from_size,
}
use hev_lib.HashTable.Mask.{mask_loop-ones}

pos : (b : ℕ) {n : ℕ} → 0 < n → n < 2 ^ b → 1 ≤ b
pos zero more l = absurd (omega arith)
pos (suc b) more l = omega arith

half : (n b : ℕ) → 0 < n → n < 2 ^ b → n / 2 < 2 ^ (b - 1)
half n zero more l = absurd (omega arith)
half n (suc b) more l = let e : suc b - 1 ≡ b = omega arith in rw e (omega (arith, two-pow-succ b))

-- The loop counts the binary digits of its number.
closest_loop_lem :
    (f n i b : ℕ)
    → n < 2 ^ f
    → n < 2 ^ b
    → (s : ℕ) × (closest_loop f n i ≡ i + s) × (n < 2 ^ s) × (s ≤ b)
unfolding closest_loop
closest_loop_lem zero n i b h l = (0, omega arith, h, omega arith)
closest_loop_lem (suc f) n i b h l = elim (Bool-cases (n == 0)) [
  | inl e ↦ (0, rw e (omega arith), ground arith, omega arith)
  | inr e ↦
      let more : 0 < n = ground arith in
      let (s, run, big, least) =
        closest_loop_lem f (n / 2) (i + 1) (b - 1) (omega (arith, two-pow-succ f))
          (half n b more l) in
      (suc s, rw (e, run) (omega arith), omega (arith, two-pow-succ s), omega (arith, pos b more l))
]

at_most : (s : ℕ) → ltb min_shift s ≡ false → s ≤ 3
at_most s e = ground arith

at_least : (s : ℕ) → ltb min_shift s ≡ true → min_shift ≤ s
at_least s e = ground arith

-- The new size: a power of two, larger than the number asked for.
pub record Sized (new : HashTable) (size : ℕ) : Type 0 where
  pub shift : ℕ
  pub least : min_shift ≤ shift
  pub most : shift < 31
  pub power : new.size ≡ 2 ^ shift
  pub ones : new.mask ≡ 2 ^ shift - 1
  pub prime : new.mod_prime ≡ get_or prime_mod shift 0
  pub room : size < new.size

pub set_shift_from_size-Sized :
    (t : HashTable) (size : ℕ) → size < 2 ^ 30 → Sized (set_shift_from_size t size) size
unfolding set_shift_from_size set_shift find_closest_shift
set_shift_from_size-Sized t size low =
    let (s, run, big, least) = closest_loop_lem 32 size 0 30 (omega arith) low in
    let found : closest_loop 32 size 0 ≡ s = omega (arith, run) in
    elim (Bool-cases (ltb min_shift s)) [
      | inl e ↦ record {
        shift = s;
        least = at_least s e;
        most = omega arith;
        power = rw (found, e);
        ones = rw (found, e, mask_loop-ones s (omega arith));
        prime = rw (found, e);
        room = rw (found, e) big;
      }
      | inr e ↦
          let small : s ≤ 3 = at_most s e in
          record {
            shift = 3;
            least = omega arith;
            most = omega arith;
            power = rw (found, e);
            ones = rw (found, e, mask_loop-ones 3 (omega arith));
            prime = rw (found, e);
            room =
                rw (found, e)
                  (omega
                    (arith, big, pow-le-pow_right {n = 2} (omega arith) {i = s} {j = 3} small));
          }
    ]
