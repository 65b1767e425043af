-- ===== src/HashTable/Vacancy.antt =====
-- The inner loop of `hev_hash_table_resize` of src/hev-hash-table.c: it finds an unused place.
use native.Mathlib.Numerals.{add-one}
use hev_lib.Base.{
  ℕ, zero, suc, ◌+◌, ◌%◌, ◌≤◌, ◌<◌, ◌≡◌, ◌≢◌, inl, inr, refl, ap, ◌∙◌, if◌then◌else◌, ◌==◌, arith,
  Bool-cases,
}
use hev_lib.HashTable.{HashTable, ok, is_unused}
use hev_lib.HashTable.Resize.{vacant}
use hev_lib.HashTable.Valid.{count, is_occupied, hash_at, stop, IsSized, Reachable}
use hev_lib.HashTable.Search.{read-ok, stop-lt, stop-suc, stop_start, unused_stop}

-- The place that the loop returns.
pub record Vacant (t : HashTable) (hash : ℕ) : Type 0 where
  pub place : ℕ
  pub run : vacant t.mask t.hashes t.size (hash % t.mod_prime) 0 ≡ ok place
  pub inside : place < t.size
  pub free : hash_at t place ≡ 0
  pub way : Reachable t hash place

module _ {t : HashTable} {k : ℕ} (sized : IsSized t k) (hash : ℕ) where
  abbrev at : ℕ → ℕ
  at s = stop t hash s

  vacant-round :
      (f s : ℕ)
      → s < t.size
      → vacant t.mask t.hashes (suc f) (at s) s ≡ (
          if is_unused (hash_at t (at s))
          then ok (at s)
          else vacant t.mask t.hashes f (at (suc s)) (suc s))
  unfolding vacant
  vacant-round f s h = rw (
    read-ok t.hashes (at s) (omega (arith, sized.hashes, stop-lt sized hash s)),
    stop-suc sized hash s h,
    add-one,
  )

  vacant-loop :
      (f s last : ℕ)
      → ((r : ℕ) → r < s → hash_at t (at r) ≢ 0)
      → s ≤ last
      → last < s + f
      → last < t.size
      → hash_at t (at last) ≡ 0
      → (e : ℕ) × (vacant t.mask t.hashes f (at s) s ≡ ok (at e))
        × (e < t.size)
        × (hash_at t (at e) ≡ 0)
        × ((r : ℕ) → r < e → hash_at t (at r) ≢ 0)
  vacant-loop zero s last past lo hi inside free = absurd (omega arith)
  vacant-loop (suc f) s last past lo hi inside free =
      elim (Bool-cases (is_unused (hash_at t (at s)))) [
        | inl e ↦ (s, rw (vacant-round f s (omega arith), e), omega arith, ground arith, past)
        | inr e ↦
            let busy : hash_at t (at s) ≢ 0 = ground arith in
            let apart : s ≢ last = λ same. busy (ap (λ (x : ℕ). hash_at t (at x)) same ∙ free) in
            let (w, run, low, empty, before) =
              vacant-loop f (suc s) last
                (λ r l. elim (Bool-cases (r == s)) [
                  | inl hit ↦ let same : r ≡ s = ground arith in rw same busy
                  | inr miss ↦ past r (ground arith)
                ])
                (omega (arith, apart)) (omega arith) inside free in
            (w, rw (vacant-round f s (omega arith), e, run), low, empty, before)
      ]

  pub vacant-Vacant : count is_occupied t.hashes < t.size → Vacant t hash
  vacant-Vacant spare =
      let (last, near, free) = unused_stop sized hash spare in
      let (e, run, inside, empty, past) =
        vacant-loop t.size 0 last (λ r l. absurd (omega arith)) (omega arith) (omega arith) near
          free in
      record {
        place = at e;
        run = ap (λ (i : ℕ). vacant t.mask t.hashes t.size i 0) (stop_start sized hash) ∙ run;
        inside = stop-lt sized hash e;
        free = empty;
        way = record { steps = e; near = inside; lands = refl; busy = past };
      }
