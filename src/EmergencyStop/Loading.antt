-- ===== src/EmergencyStop/Loading.antt =====
-- What load of design_for_chaos/es/es.go makes of a file.
use gofordevopsclass.Prelude.{
  String, true, ◌&&◌, if◌then◌else◌, ◌==◌, string_eq, is_some, List, [], ◌∷◌, ◌++◌, map, Option,
  none, some, ◌≡◌, refl, arith, Option-cases, Bool-cases, inl, inr,
}
use gofordevopsclass.GoMap.{GoMap, lookup, insert, IsGoMap}
use gofordevopsclass.GoMap.Laws.{lookup-insert, insert-IsGoMap, empty-IsGoMap}
use gofordevopsclass.EmergencyStop.{Info, Reader, validate, load_entries, load}

-- The first entry of a name that is valid.
abbrev pub first_valid : String → List Info → Option Info
first_valid n [] = none
first_valid n (i ∷ l) =
    let rest = first_valid n l in if i.name == n && validate i then some i else rest

abbrev or_else : Option Info → Option Info → Option Info
or_else none o = o
or_else (some i) o = some i

or_else-none : (o : Option Info) → or_else o none ≡ o
or_else-none none = refl
or_else-none (some i) = refl

abbrev Loads : List Info → GoMap String Info → Option (GoMap String Info) → Type 0
Loads l m r =
    (m' : GoMap String Info) × (r ≡ some m')
    × (IsGoMap m → IsGoMap m')
    × ((n : String) → lookup n m' ≡ or_else (lookup n m) (first_valid n l))

-- A name that the map has keeps its entry.
or_else-some : (o p : Option Info) → is_some o ≡ true → or_else o p ≡ o
or_else-some none p h = ground arith
or_else-some (some i) p h = refl

pub load_entries_lem :
    (l : List Info) (m : GoMap String Info) → Loads l m (load_entries (map some l) m)
unfolding load_entries
load_entries_lem [] m = (m, refl, (λ g. g), λ n. ground (arith, or_else-none (lookup n m)))
load_entries_lem (i ∷ l) m = elim (Bool-cases (is_some (lookup i.name m))) [
  | inl y ↦
      let (m', e, g, f) = load_entries_lem l m in
      (
        m',
        ground arith,
        g,
        λ n. ground (arith, f n, string_eq.beq_iff i.name n, or_else-some (lookup n m)),
      )
  | inr y ↦ elim (Bool-cases (validate i)) [
    | inr z ↦
        let (m', e, g, f) = load_entries_lem l m in (m', ground arith, g, λ n. ground (arith, f n))
    | inl z ↦
        let (m', e, g, f) = load_entries_lem l (insert i.name i m) in
        (
          m',
          ground arith,
          (λ q. g (insert-IsGoMap i.name i m q)),
          λ n. ground (
            arith,
            f n,
            lookup-insert i.name n i m,
            string_eq.beq_iff i.name n,
            Option-cases (lookup n m),
          ),
        )
  ]
]

pub load_entries_fails :
    (l : List Info) (ds : List (Option Info)) (m : GoMap String Info)
    → load_entries (map some l ++ none ∷ ds) m ≡ none
unfolding load_entries
load_entries_fails [] ds m = refl
load_entries_fails (i ∷ l) ds m =
    load_entries_fails l ds
      (if is_some (lookup i.name m) then m else if validate i then insert i.name i m else m)

-- A file whose entries all decode loads without an error, and then a name has the first of its
-- valid entries. A file that has an entry that does not decode is an error, and clears the entries
-- of the reader.
pub load_exact :
    (l : List Info) (ds : List (Option Info)) (r : Reader)
    → ((m : GoMap String Info) × (load (some (map some l)) r ≡ (some m, r))
        × IsGoMap m
        × ((n : String) → lookup n m ≡ first_valid n l))
      × (load (some (map some l ++ none ∷ ds)) r ≡ (none, record r { entries = [] }))
unfolding load lookup
load_exact l ds r =
    let (m, e, g, f) = load_entries_lem l [] in
    (
      (m, ground arith, g (empty-IsGoMap Info), λ n. ground (arith, f n)),
      ground (arith, load_entries_fails l ds []),
    )
