-- ===== src/Petstore/Examples/Searches.antt =====
-- Searches of the store of two pets.
use gofordevopsclass.Prelude.{
  ◌<◌, String, string_eq, nat_eq, List, [], ◌∷◌, none, some, count, IsDistinct, pair-IsDistinct,
  beq-ne, ◌≡◌, refl, arith,
}
use gofordevopsclass.Prelude.Int.{pos}
use gofordevopsclass.GoMap.{lookup, insert}
use gofordevopsclass.Petstore.Calendar.{
  before, time_or_zero, birthday_to_time, go_date, days_in, equal,
}
use gofordevopsclass.Petstore.Pet.{Pet, SearchPetsReq, DateRange}
use gofordevopsclass.Petstore.Mem.{
  new, add_pets, checked_populate, find_present, r_lock, can_lock, populate, populate_pet,
  delete_pets, search_results, filters, by_names, by_types, by_birthdays, index_add, ids_at,
  birthday_add,
}
use gofordevopsclass.Petstore.Mem.Search.{IsRange}
use gofordevopsclass.Petstore.Mem.Faults.{rename, renamed_then_deleted}
use gofordevopsclass.Petstore.Examples.SortedTree.{sorted_tree, range, once_each}
use gofordevopsclass.Petstore.Examples.Stores.{tom, store, store-Inv, store-IsFree, stored_tom}

abbrev year_2020 : DateRange
year_2020 = record {
  start = record { year = pos 2020; month = pos 1; day = pos 1 };
  end = record { year = pos 2021; month = pos 1; day = pos 1 };
}

-- Rex or Tom, born in 2020.
abbrev asked : SearchPetsReq
asked = record { names = "Rex" ∷ "Tom" ∷ []; types = []; birthdate_range = some year_2020 }

abbrev anyone : SearchPetsReq
anyone = record { names = []; types = []; birthdate_range = none }

abbrev results : List (List String)
results = ("a" ∷ "b" ∷ []) ∷ [] ∷ ("a" ∷ []) ∷ []

asked-IsRange : IsRange asked.birthdate_range
unfolding before time_or_zero birthday_to_time go_date days_in
asked-IsRange = refl

found : search_results sorted_tree store asked ≡ some results
unfolding new add_pets r_lock find_present can_lock populate populate_pet lookup checked_populate
    insert search_results by_names by_types by_birthdays index_add ids_at birthday_add range
    once_each before time_or_zero birthday_to_time go_date days_in equal
found = refl

two_names : IsDistinct {A = String} ("Rex" ∷ "Tom" ∷ [])
two_names = pair-IsDistinct "Rex" "Tom" refl

some_filters : 0 < filters asked
unfolding filters
some_filters = omega arith

no_filters : filters anyone ≡ 0
unfolding filters
no_filters = refl

-- Tom under another name.
abbrev thomas : Pet
thomas = record tom { name = "Thomas" }

abbrev for_tom : SearchPetsReq
for_tom = record { names = "Tom" ∷ []; types = []; birthdate_range = none }

renamed_then_deleted_example :
    let e = (delete_pets sorted_tree (rename sorted_tree store thomas) (thomas.id ∷ [])).1 in
    (0 < count thomas.id (by_names sorted_tree e for_tom)) × (lookup thomas.id e.ids ≡ none)
renamed_then_deleted_example =
    renamed_then_deleted sorted_tree store tom thomas for_tom store-Inv store-IsFree stored_tom
      (beq-ne "Tom" "Thomas" refl) refl
