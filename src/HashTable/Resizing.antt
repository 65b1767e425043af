-- ===== src/HashTable/Resizing.antt =====
-- `hev_hash_table_resize` of src/hev-hash-table.c: the new table holds the entries of the old one.
use hev_lib.Base.{
  ℕ, ◌*◌, ◌^◌, ◌≤◌, ◌<◌, ◌≡◌, refl, sym, ap, ◌∙◌, Bool, true, inl, inr, arith, Bool-cases, subst,
}
use hev_lib.HashTable.{HashTable, Settings, ◌>>=◌, Run, ok, is_real}
use hev_lib.HashTable.Resize.{Arrays, move_nodes, fresh_arrays, resize, maybe_resize, wants_resize}
use hev_lib.HashTable.Shift.{set_shift_from_size, set_shift}
use hev_lib.HashTable.Valid.{count, IsValid}
use hev_lib.HashTable.View.{IsLawful, entry, entry-cases}
use hev_lib.HashTable.Entries.{drop_all}
use hev_lib.HashTable.Sizing.{Sized, set_shift_from_size-Sized}
use hev_lib.HashTable.Moving.{table_of}
use hev_lib.HashTable.Carrying.{Moved, all-Moved}
use hev_lib.HashTable.Bare.{bare, bare_single, fresh-bare, bare-IsValid, bare-entry}

-- What a table is after its size was changed.
pub record Resized (c : Settings) (t : HashTable) (run : Run HashTable) : Type 0 where
  pub table : HashTable
  pub returns : run ≡ ok table
  pub valid : IsValid c table
  pub swept : table.noccupied ≡ t.nnodes
  pub entries : (key : ℕ) → entry c table key ≡ entry c t key

module _ {c : Settings} {t : HashTable} (lawful : IsLawful c) (valid : IsValid c t) where
  module _ (size : ℕ) (low : size < 2 ^ 30) (room : t.nnodes * 2 ≤ size) where
    abbrev new : HashTable
    new = set_shift_from_size t size

    sized : Sized new size
    sized = set_shift_from_size-Sized t size low

    olds :
        (new.hashes ≡ t.hashes)
        × (new.keys ≡ t.keys)
        × (new.values ≡ t.values)
        × (new.nnodes ≡ t.nnodes)
    unfolding set_shift_from_size set_shift
    olds = (refl, refl, refl, refl)

    roomy : t.nnodes * 2 < new.size
    roomy = omega (arith, sized.room, room)

    -- All entries are carried over, from the first place on.
    carried :
        (a : Arrays) × (n : ℕ) × (move_nodes new t.size 0 (bare new size sized) ≡ ok a)
        × Moved lawful valid new olds.0 olds.1 olds.2 roomy t.size n a
    carried =
        all-Moved lawful valid new olds.0 olds.1 olds.2 roomy t.size 0 0 (bare new size sized)
          (omega arith)
          (record {
            fine = bare-IsValid new size sized c;
            left = omega (arith, valid.nnodes);
            single = λ e. sym olds.2 ∙ bare_single new size sized e;
            kept = λ key j m l. absurd (omega arith);
            rest = λ key nowhere. bare-entry new size sized c lawful key;
          })

-- All places are moved: all entries are there.
all-entries :
    {c : Settings} {t : HashTable} (lawful : IsLawful c) (valid : IsValid c t) (new : HashTable)
    (hashes : new.hashes ≡ t.hashes) (keys : new.keys ≡ t.keys) (values : new.values ≡ t.values)
    (room : t.nnodes * 2 < new.size) (n : ℕ) (a : Arrays)
    → Moved lawful valid new hashes keys values room t.size n a
    → (n ≡ t.nnodes) × ((key : ℕ) → entry c (table_of new a n) key ≡ entry c t key)
unfolding count
all-entries {c} {t} lawful valid new hashes keys values room n a moved = (
  (let none_left =
        ap (count is_real) (drop_all t.hashes t.size (omega (arith, valid.sized.hashes))) in
      omega (arith, none_left, moved.left)),
  λ key. elim (entry-cases lawful valid key) [
    | inl (j, m, e) ↦ moved.kept key j m m.inside ∙ sym e
    | inr (nowhere, e) ↦ moved.rest key (λ j l. nowhere j) ∙ sym e
  ],
)

-- The new table with its arrays.
abbrev finished : HashTable → Arrays → ℕ → HashTable
finished new a nodes = record new {
  keys = a.keys;
  values = a.values;
  hashes = a.hashes;
  noccupied = nodes;
}

resize-eq :
    (served : ℕ → Bool) (t : HashTable)
    → resize served t ≡ (
        move_nodes
          (set_shift_from_size t (t.nnodes * 2))
          t.size
          0
          (fresh_arrays served (set_shift_from_size t (t.nnodes * 2)))
        >>= λ a. ok (finished (set_shift_from_size t (t.nnodes * 2)) a t.nnodes))
unfolding resize
resize-eq served t = refl

-- With memory for the new arrays, and fewer than 2 ^ 29 entries, `resize` of a valid table with
-- lawful functions neither faults nor runs on, and gives a valid table with the same entries and
-- no tombstone.
pub resize-Resized :
    {c : Settings} {t : HashTable}
    → IsLawful c
    → IsValid c t
    → (served : ℕ → Bool) → served 0 ≡ true
    → served 1 ≡ true
    → served 2 ≡ true
    → t.nnodes < 2 ^ 29
    → Resized c t (resize served t)
resize-Resized {c} {t} lawful valid served a b d few =
    let low : t.nnodes * 2 < 2 ^ 30 = omega arith in
    let room : t.nnodes * 2 ≤ t.nnodes * 2 = omega arith in
    let (arrays, n, run, moved) = carried lawful valid (t.nnodes * 2) low room in
    let big = set_shift_from_size t (t.nnodes * 2) in
    let old = olds lawful valid (t.nnodes * 2) low room in
    let (all, same) =
      all-entries lawful valid big old.0 old.1 old.2 (roomy lawful valid (t.nnodes * 2) low room) n
        arrays moved in
    let made =
      fresh-bare big (t.nnodes * 2) (sized lawful valid (t.nnodes * 2) low room) served a b d in
    let table : table_of big arrays n ≡ finished big arrays t.nnodes = λ i.
      record (set_shift_from_size t (t.nnodes * 2)) {
        keys = arrays.keys;
        values = arrays.values;
        hashes = arrays.hashes;
        nnodes = (all ∙ sym old.3) i;
        noccupied = all i;
      } in
    record {
      table = finished big arrays t.nnodes;
      returns = rw (resize-eq served t, made, run);
      valid = subst (λ (x : HashTable). IsValid c x) table moved.fine;
      swept = refl;
      entries = λ key. ap (λ (x : HashTable). entry c x key) (sym table) ∙ same key;
    }

-- A table that may have changed its size.
pub record Fitted (c : Settings) (t : HashTable) (run : Run HashTable) : Type 0 where
  pub table : HashTable
  pub returns : run ≡ ok table
  pub valid : IsValid c table
  pub entries : (key : ℕ) → entry c table key ≡ entry c t key

pub maybe_resize-Fitted :
    {c : Settings} {t : HashTable}
    → IsLawful c
    → IsValid c t
    → (served : ℕ → Bool) → ((i : ℕ) → served i ≡ true)
    → t.nnodes < 2 ^ 29
    → Fitted c t (maybe_resize served t)
unfolding maybe_resize
maybe_resize-Fitted {c} {t} lawful valid served all few = elim (Bool-cases (wants_resize t)) [
  | inl e ↦
      let r = resize-Resized lawful valid served (all 0) (all 1) (all 2) few in
      record { table = r.table; returns = rw (e, r.returns); valid = r.valid; entries = r.entries }
  | inr e ↦ record { table = t; returns = rw e; valid = valid; entries = λ key. refl }
]
