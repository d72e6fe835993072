-- ===== src/Petstore/Examples/SortedTree.antt =====
-- A tree of items as a map from birthdays, which fills the interface of Petstore/Tree.
use gofordevopsclass.Prelude.{
  true, false, not, if◌then◌else◌, ◌==◌, List, [], ◌∷◌, Option, none, some, ◌≡◌, refl, arith,
  is_some, one_if, count, keep_if,
}
use gofordevopsclass.GoMap.{GoMap, lookup, insert, delete, keys}
use gofordevopsclass.GoMap.Laws.{lookup-insert, lookup-delete}
use gofordevopsclass.Petstore.Calendar.{Time, before, time_eq}
use gofordevopsclass.Petstore.Tree.{BirthdayTree, Birthdays, in_range, items_at}

-- Each key once.
unfoldable pub once_each : List Time → List Time
once_each [] = []
once_each (t ∷ ts) = t ∷ keep_if (λ u. not (u == t)) (once_each ts)

count-kept :
    (t u : Time) (ts : List Time)
    → count u (keep_if (λ x. not (x == t)) ts) ≡ (if t == u then 0 else count u ts)
count-kept t u [] = ground arith
count-kept t u (x ∷ ts) =
    ground (arith, count-kept t u ts, time_eq.beq_iff x t, time_eq.beq_iff x u, time_eq.beq_iff t u)

pub times_lem :
    (t : Time) (m : GoMap Time Birthdays)
    → count t (once_each (keys m)) ≡ one_if (is_some (lookup t m))
unfolding once_each lookup
times_lem t [] = refl
times_lem t ((u, b) ∷ m) = ground (arith, count-kept u t (once_each (keys m)), times_lem t m)

before_asym : (a b : Time) → before a b ≡ true → before b a ≡ false
unfolding before
before_asym a b h = ground arith

unfoldable pub range : Time → Time → GoMap Time Birthdays → Option (List Birthdays)
range start end m =
    if before end start
    then none
    else some (items_at (λ t. lookup t m) (keep_if (in_range start end) (once_each (keys m))))

pub range_lem :
    (start end : Time) (m : GoMap Time Birthdays)
    → before start end ≡ true
    → range start end m
      ≡ some (items_at (λ t. lookup t m) (keep_if (in_range start end) (once_each (keys m))))
unfolding range
range_lem start end m h = ground (arith, before_asym start end h)

pub range_inverted :
    (start end : Time) (m : GoMap Time Birthdays)
    → before end start ≡ true
    → ((t : Time) × (is_some (lookup t m) ≡ true))
    → range start end m ≡ none
unfolding range
range_inverted start end m h (t, i) = ground arith

pub empty_lem : (t : Time) → lookup {V = Birthdays} t [] ≡ none
unfolding lookup
empty_lem t = refl

abbrev pub sorted_tree : BirthdayTree
sorted_tree = record {
  Tree = GoMap Time Birthdays;
  empty = [];
  get = lookup;
  insert = insert;
  delete = delete;
  replace = insert;
  times = λ m. once_each (keys m);
  do_range = range;
  get-empty = empty_lem;
  get-insert = λ t u b m h. lookup-insert t u b m;
  get-delete = lookup-delete;
  get-replace = λ t u b m h. lookup-insert t u b m;
  times_once = times_lem;
  do_range_lem = range_lem;
  do_range_inverted = range_inverted;
}
