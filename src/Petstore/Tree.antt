-- ===== src/Petstore/Tree.antt =====
-- The part of github.com/biogo/store/llrb that petstore/server/storage/mem uses: a tree of items
-- ordered by their Compare, that is by the birthday that the pets of one item share. The package
-- is not in the repository, so the tree is a parameter, with what its documentation promises.
use gofordevopsclass.Prelude.{
  String, Bool, true, ◌&&◌, not, if◌then◌else◌, ◌==◌, List, [], ◌∷◌, Option, none, some, ◌≡◌,
  is_some, one_if, count, keep_if, string_eq,
}
use gofordevopsclass.GoMap.{GoMap}
use gofordevopsclass.Petstore.Calendar.{Time, before, time_eq}
use gofordevopsclass.Petstore.Pet.{Pet}

-- type birthdays map[string]*pb.Pet: the pets of one birthday, by id.
abbrev pub Birthdays : Type 0
Birthdays = GoMap String Pet

-- start ≤ t < end
abbrev pub in_range : Time → Time → Time → Bool
in_range start end t = not (before t start) && before t end

-- The items that stand in the tree at the listed times.
abbrev pub items_at : (Time → Option Birthdays) → List Time → List Birthdays
items_at get [] = []
items_at get (t ∷ ts) = elim (get t) [ none ↦ items_at get ts | some b ↦ b ∷ items_at get ts ]

pub record BirthdayTree : Type 1 where
  pub Tree : Type 0
  -- &llrb.Tree{}
  pub empty : Tree
  -- Get(birthdayGet{p}): the item that compares equal to the birthday, or nil.
  pub get : Time → Tree → Option Birthdays
  -- Insert(item), for an item whose pets have the birthday.
  pub insert : Time → Birthdays → Tree → Tree
  -- Delete(birthdayGet{p}).
  pub delete : Time → Tree → Tree
  -- A write to the map that Get returned: an item is a Go map, which the tree shares.
  pub replace : Time → Birthdays → Tree → Tree
  -- The birthdays of the items, in the order of a walk.
  pub times : Tree → List Time
  -- The items that DoRange visits between two birthdays, in order; none is its panic.
  pub do_range : Time → Time → Tree → Option (List Birthdays)
  pub get-empty : (t : Time) → get t empty ≡ none
  pub get-insert :
      (t u : Time) (b : Birthdays) (r : Tree)
      → get t r ≡ none
      → get u (insert t b r) ≡ (if t == u then some b else get u r)
  pub get-delete : (t u : Time) (r : Tree) → get u (delete t r) ≡ (if t == u then none else get u r)
  pub get-replace :
      (t u : Time) (b : Birthdays) (r : Tree)
      → is_some (get t r) ≡ true
      → get u (replace t b r) ≡ (if t == u then some b else get u r)
  -- Each item is walked over once.
  pub times_once : (t : Time) (r : Tree) → count t (times r) ≡ one_if (is_some (get t r))
  -- DoRange performs fn on all values stored over the interval [from, to) from left to right.
  pub do_range_lem :
      (start end : Time) (r : Tree)
      → before start end ≡ true
      → do_range start end r
        ≡ some (items_at (λ t. get t r) (keep_if (in_range start end) (times r)))
  -- If to is less than from DoRange will panic.
  pub do_range_inverted :
      (start end : Time) (r : Tree)
      → before end start ≡ true
      → ((t : Time) × (is_some (get t r) ≡ true))
      → do_range start end r ≡ none
