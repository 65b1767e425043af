-- ===== src/Event/Order.antt =====
-- The order of the queue of src/hev-event-loop.c: `insert_event_source_fd_sorted`.
use hev_lib.Base.{
  ℕ, ◌+◌, ◌-◌, ◌%◌, ◌^◌, ◌≤◌, ◌<◌, ◌≡◌, ◌≢◌, ◌⊎◌, inl, inr, refl, ap, true, false, Option, none,
  some, List, [], ◌∷◌, ◌++◌, arith, ◌==◌, if◌then◌else◌, All, All-map, All-insert, Bool-cases,
}
use hev_lib.Event.World.{Fd, Source, World, ok, fetch, Outside, prepend}
use hev_lib.Event.Source.{get_priority}
use hev_lib.Event.Loop.{fd_priority, insert_sorted, int_gt}

pub fetch-ok :
    {A : Type 0} (m : ℕ → Option A) (p : ℕ) (x : A) (w : World)
    → p ≢ 0
    → m p ≡ some x
    → fetch m p w ≡ ok x w
unfolding fetch
fetch-ok m p x w live at = let e : (p == 0) ≡ false = ground arith in rw (e, at)

-- A descriptor whose priority can be read: it is live, and so is its source, if it has one.
pub record IsLive (w : World) (f : ℕ) : Type 0 where
  pub object : Fd
  pub address : f ≢ 0
  pub at : w.fds f ≡ some object
  pub owned : (object.source ≡ 0) ⊎ ((x : Source) × (w.sources object.source ≡ some x))

unfoldable pub source_priority : World → (s : ℕ) → ℕ
source_priority w s =
    if s == 0 then 2 ^ 31 - 1 else elim (w.sources s) [ none ↦ 0 | some x ↦ x.priority ]

unfoldable pub priority_of : World → (f : ℕ) → ℕ
unfolding source_priority
priority_of w f = elim (w.fds f) [ none ↦ 0 | some d ↦ source_priority w d.source ]

get_priority-ok :
    (w : World) (s : ℕ)
    → (s ≡ 0) ⊎ ((x : Source) × (w.sources s ≡ some x))
    → get_priority s w ≡ ok (source_priority w s) w
unfolding get_priority source_priority
get_priority-ok w s owned = elim (Bool-cases (s == 0)) [
  | inl e ↦ rw e
  | inr e ↦ elim owned [
    | inl z ↦ absurd (ground arith)
    | inr (x, at) ↦ rw (e, fetch-ok w.sources s x w (λ z. ground arith) at, at)
  ]
]

pub priority_of-at :
    (w : World) (f : ℕ) (d : Fd) → w.fds f ≡ some d → priority_of w f ≡ source_priority w d.source
unfolding priority_of
priority_of-at w f d at = ground arith

module _ {w : World} {f : ℕ} (live : IsLive w f) where
  pub fd_priority-ok : fd_priority f w ≡ ok (priority_of w f) w
  unfolding fd_priority
  fd_priority-ok =
      rw
        (
          fetch-ok w.fds f live.object w live.address live.at,
          priority_of-at w f live.object live.at,
        )
        (get_priority-ok w live.object.source live.owned)

-- The priority as a number that grows with it.
abbrev pub level : World → ℕ → ℕ
level w f = (priority_of w f + 2 ^ 31) % 2 ^ 32

-- No later one has a higher priority.
abbrev pub IsDescending : World → List ℕ → Type 0
IsDescending w [] = Unit
IsDescending w (f ∷ fs) = All (λ g. level w g ≤ level w f) fs × IsDescending w fs

-- Where a descriptor is put: behind all of at least its priority, in front of all of a lower one.
pub record Placed (o : Outside) (w : World) (f : ℕ) (fs : List ℕ) : Type 0 where
  pub before : List ℕ
  pub after : List ℕ
  pub split : fs ≡ before ++ after
  pub returns : insert_sorted o f fs w ≡ ok (before ++ f ∷ after) w
  pub higher : All (λ g. level w f ≤ level w g) before
  pub lower : All (λ g. level w g < level w f) after
  pub sorted : IsDescending w (before ++ f ∷ after)

pub prepend-ok :
    (o : Outside) (x : ℕ) (xs : List ℕ) (w : World)
    → o.has_node w ≡ true
    → prepend o x xs w ≡ ok (x ∷ xs) w
unfolding prepend
prepend-ok o x xs w h = rw h

-- With memory for a node, sorting a live descriptor into a list of live ones in descending order of
-- priority puts it behind those of at least its priority and in front of the lower ones, keeps the
-- order, and changes no object.
pub insert_sorted-Placed :
    (o : Outside) (w : World) (f : ℕ) (fs : List ℕ)
    → o.has_node w ≡ true
    → IsLive w f
    → All (IsLive w) fs
    → IsDescending w fs
    → Placed o w f fs
unfolding insert_sorted
insert_sorted-Placed o w f [] room live lives sorted = record {
  before = [];
  after = [];
  split = refl;
  returns = prepend-ok o f [] w room;
  higher = tt;
  lower = tt;
  sorted = (tt, tt);
}
insert_sorted-Placed o w f (g ∷ gs) room live lives sorted =
    let p = fd_priority-ok live in
    let q = fd_priority-ok lives.0 in
    elim (Bool-cases (int_gt (priority_of w f) (priority_of w g))) [
      | inl gt ↦
          let above : level w g < level w f = ground arith in
          record {
            before = [];
            after = g ∷ gs;
            split = refl;
            returns = rw (p, q, gt, prepend-ok o f (g ∷ gs) w room);
            higher = tt;
            lower = (above, All-map gs (λ h le. omega arith) sorted.0);
            sorted = ((omega arith, All-map gs (λ h le. omega arith) sorted.0), sorted);
          }
      | inr le ↦
          let r = insert_sorted-Placed o w f gs room live lives.1 sorted.1 in
          let under : level w f ≤ level w g = ground arith in
          record {
            before = g ∷ r.before;
            after = r.after;
            split = ap (λ l. g ∷ l) r.split;
            returns = rw (p, q, le, r.returns);
            higher = (under, r.higher);
            lower = r.lower;
            sorted = (
              All-insert (λ h. level w h ≤ level w g) f r.before r.after (rw r.split at sorted.0)
                  under,
              r.sorted,
            );
          }
    ]
