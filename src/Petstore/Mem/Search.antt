-- ===== src/Petstore/Mem/Search.antt =====
-- SearchPets of mem.go against what a search means: the pets that match every filter that is set.
use gofordevopsclass.Prelude.{
  ℕ, ◌+◌, ◌<◌, String, Bool, true, false, ◌&&◌, ◌||◌, leb, string_eq, nat_eq, List, [], ◌∷◌, ◌++◌,
  Option, none, some, one_if, count, count-append, contains, concat, keep_if, Option-cases,
  IsDistinct, ◌≡◌, ◌≢◌, refl, ◌∙◌, arith, beq_self, beq_comm,
}
use gofordevopsclass.GoMap.{lookup, keys, values}
use gofordevopsclass.Petstore.Calendar.{Time, time_eq, before, time_or_zero}
use gofordevopsclass.Petstore.Pet.{Pet, SearchPetsReq, DateRange}
use gofordevopsclass.Petstore.Tree.{BirthdayTree, Birthdays, items_at, in_range}
use gofordevopsclass.Petstore.Mem.{
  Data, pet_time, pet_ids, item_ids, ids_at, filters, by_names, by_types, by_birthdays,
  search_results,
}
use gofordevopsclass.Petstore.Mem.Invariant.{Inv}
use gofordevopsclass.Petstore.Mem.Counts.{count-distinct, count-keep_if, count-ids_at, pet_ids-keys}

abbrev starts : DateRange → Time
starts r = time_or_zero r.start

abbrev ends : DateRange → Time
ends r = time_or_zero r.end

abbrev is_nil {ℓ} : {A : Type ℓ} → List A → Bool
is_nil [] = true
is_nil (x ∷ xs) = false

-- A pet matches if it has one of the names, one of the types, and a birthday in [start, end),
-- where these filters are set.
abbrev pub matches : SearchPetsReq → Pet → Bool
matches f p =
    (is_nil f.names || contains p.name f.names)
    && (is_nil f.types || contains p.type f.types)
    && (elim f.birthdate_range [ none ↦ true | some r ↦ in_range (starts r) (ends r) (pet_time p) ])

-- A range whose start is before its end.
abbrev pub IsRange : Option DateRange → Type 0
IsRange none = Unit {0}
IsRange (some r) = before (starts r) (ends r) ≡ true

module _ (tree : BirthdayTree) where
  open tree use {get, times, do_range_lem, times_once}

  abbrev pub wanted : Data tree → SearchPetsReq → String → Bool
  wanted d f id = elim (lookup id d.ids) [ none ↦ false | some p ↦ matches f p ]

  items_count :
      (d : Data tree)
      → Inv tree d
      → (ts : List Time) (id : String)
      → count id (item_ids (items_at (λ t. get t d.birthday) ts))
        ≡ (elim (lookup id d.ids) [ none ↦ 0 | some p ↦ count (pet_time p) ts ])
  items_count d v [] id = ground arith
  items_count d v (t ∷ ts) id =
      items_step (get t d.birthday) (lookup id d.ids) refl refl (items_count d v ts id)
    where
      named : (w : Birthdays) → get t d.birthday ≡ some w → pet_ids (values w) ≡ keys w
      named w x = pet_ids-keys w (v.by_birthday.maps t w x) (λ k p y.
          ground (arith, v.by_birthday.exact t k, v.keyed k p, Option-cases (lookup k d.ids)))

      items_step :
          (w : Option Birthdays) (o : Option Pet)
          → get t d.birthday ≡ w
          → lookup id d.ids ≡ o
          → count id (item_ids (items_at (λ u. get u d.birthday) ts))
            ≡ (elim (lookup id d.ids) [ none ↦ 0 | some p ↦ count (pet_time p) ts ])
          → count id (item_ids (items_at (λ u. get u d.birthday) (t ∷ ts)))
            ≡ (elim (lookup id d.ids) [ none ↦ 0 | some p ↦ count (pet_time p) (t ∷ ts) ])
      items_step none none x y ih = ground arith
      items_step none (some p) x y ih =
          ground (arith, v.by_birthday.exact t id, beq_comm t (pet_time p))
      items_step (some w) none x y ih = ground (
        arith,
        v.by_birthday.exact t id,
        v.by_birthday.maps t w x id,
        named w x,
        count-append id (pet_ids (values w)) (item_ids (items_at (λ u. get u d.birthday) ts)),
      )
      items_step (some w) (some p) x y ih = ground (
        arith,
        v.by_birthday.exact t id,
        v.by_birthday.maps t w x id,
        named w x,
        count-append id (pet_ids (values w)) (item_ids (items_at (λ u. get u d.birthday) ts)),
        beq_comm t (pet_time p),
      )

  range_count :
      (d : Data tree) (r : DateRange)
      → Inv tree d
      → (id : String)
      → count id (
          item_ids (
            items_at
              (λ t. get t d.birthday)
              (keep_if (in_range (starts r) (ends r)) (times d.birthday))))
        ≡ one_if (elim (lookup id d.ids) [
          | none ↦ false
          | some p ↦ in_range (starts r) (ends r) (pet_time p)
        ])
  range_count d r v id =
      items_count d v (keep_if (in_range (starts r) (ends r)) (times d.birthday)) id
      ∙ go (lookup id d.ids) refl
    where
      go :
          (o : Option Pet)
          → lookup id d.ids ≡ o
          → (elim (lookup id d.ids) [
            | none ↦ 0
            | some p ↦
                count (pet_time p) (keep_if (in_range (starts r) (ends r)) (times d.birthday))
          ])
            ≡ one_if (elim (lookup id d.ids) [
              | none ↦ false
              | some p ↦ in_range (starts r) (ends r) (pet_time p)
            ])
      go none x = ground arith
      go (some p) x = ground (
        arith,
        count-keep_if (in_range (starts r) (ends r)) (pet_time p) (times d.birthday),
        times_once (pet_time p) d.birthday,
        v.by_birthday.exact (pet_time p) id,
        beq_self (pet_time p),
        Option-cases (get (pet_time p) d.birthday),
      )

  abbrev born : Data tree → Option DateRange → String → ℕ
  born d none id = 0
  born d (some r) id =
      one_if (elim (lookup id d.ids) [
        | none ↦ false
        | some p ↦ in_range (starts r) (ends r) (pet_time p)
      ])

  by_birthdays_total :
      (d : Data tree) (f : SearchPetsReq) (o : Option DateRange)
      → Inv tree d
      → f.birthdate_range ≡ o
      → IsRange o
      → (b : List String) × (by_birthdays tree d f ≡ some b)
        × ((id : String) → count id b ≡ born d o id)
  unfolding by_birthdays
  by_birthdays_total d f none v x h = ([], ground arith, λ id. refl)
  by_birthdays_total d f (some r) v x h = (
    item_ids (
        items_at (λ t. get t d.birthday)
          (keep_if (in_range (starts r) (ends r)) (times d.birthday))),
    ground (arith, do_range_lem (starts r) (ends r) d.birthday),
    range_count d r v,
  )

  -- A search over a well-formed store and a proper range does not panic.
  pub search_results_total :
      (d : Data tree) (f : SearchPetsReq)
      → Inv tree d
      → IsRange f.birthdate_range
      → search_results tree d f ≢ none
  unfolding search_results
  search_results_total d f v h e =
      let (b, x, c) = by_birthdays_total d f f.birthdate_range v refl h in ground arith

  pub results_count :
      (d : Data tree) (f : SearchPetsReq) (rs : List (List String))
      → Inv tree d
      → IsRange f.birthdate_range
      → search_results tree d f ≡ some rs
      → (id : String)
      → count id (concat rs)
        ≡ count id (ids_at f.names d.names)
          + count id (ids_at f.types d.types)
          + born d f.birthdate_range id
  unfolding search_results by_names by_types
  results_count d f rs v h e id =
      let (b, x, c) = by_birthdays_total d f f.birthdate_range v refl h in
      let same : rs ≡ ids_at f.names d.names ∷ ids_at f.types d.types ∷ b ∷ [] = ground arith in
      rw same (
        omega (
          arith,
          c id,
          count-append id (ids_at f.names d.names) (ids_at f.types d.types ++ (b ++ [])),
          count-append id (ids_at f.types d.types) (b ++ []),
          count-append id b [],
        ))

  -- The sum of the counts reaches the number of filters exactly for the pets that match.
  pub crosses :
      (d : Data tree) (f : SearchPetsReq) (id : String)
      → Inv tree d
      → IsDistinct f.names
      → IsDistinct f.types
      → (o : Option Pet) → lookup id d.ids ≡ o
      → 0 < filters f
      → leb (filters f) (
          count id (ids_at f.names d.names)
          + count id (ids_at f.types d.types)
          + born d f.birthdate_range id)
        ≡ wanted d f id
  unfolding filters
  crosses d f id v dn dt none x h = ground (
    arith,
    count-ids_at (λ p. p.name) d.names d.ids v.by_name f.names id,
    count-ids_at (λ p. p.type) d.types d.ids v.by_type f.types id,
    Option-cases f.birthdate_range,
  )
  crosses d f id v dn dt (some p) x h = ground (
    arith,
    count-ids_at (λ p. p.name) d.names d.ids v.by_name f.names id,
    count-ids_at (λ p. p.type) d.types d.ids v.by_type f.types id,
    count-distinct p.name f.names (dn p.name),
    count-distinct p.type f.types (dt p.type),
    Option-cases f.birthdate_range,
  )
