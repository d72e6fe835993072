-- ===== src/Petstore/Examples/Streams.antt =====
-- Searches of the server over the store of two pets.
use mathlib.Core.List.Perm
use gofordevopsclass.Prelude.{
  ◌<◌, String, false, [], ◌∷◌, List, some, one_if, count, length, pair-IsDistinct, string_eq, ◌≡◌,
  true, refl, arith,
}
use gofordevopsclass.Prelude.Int.{pos}
use gofordevopsclass.GoMap.{lookup, insert}
use gofordevopsclass.Petstore.Calendar.{
  before, equal, time_or_zero, birthday_to_time, go_date, days_in, is_leap,
}
use gofordevopsclass.Petstore.Pet.{DateRange}
use gofordevopsclass.Petstore.Mem.{
  new, add_pets, checked_populate, find_present, r_lock, can_lock, populate, populate_pet,
  search_results, send_items, filters, by_names, by_types, by_birthdays, index_add, ids_at,
  birthday_add,
}
use gofordevopsclass.Petstore.Mem.Search.{IsRange, wanted, matches}
use gofordevopsclass.Petstore.Mem.Exact.{AllPets}
use gofordevopsclass.Petstore.Server.{Api, SearchMsg, fine, validate_search}
use gofordevopsclass.Petstore.Server.Search.{search_pets, request, stream_crashed}
use gofordevopsclass.Petstore.Server.Streams.{
  take, end_of, behind, search_streams_matches, inverted_range_crashes,
}
use gofordevopsclass.Petstore.Examples.SortedTree.{sorted_tree, range, once_each}
use gofordevopsclass.Petstore.Examples.Stores.{tom, store, store-Inv, store-IsFree, stored_tom}
use gofordevopsclass.Petstore.Examples.Requests.{text_of, no_calls}

abbrev two_pets : Api sorted_tree text_of
two_pets = record {
  store = store;
  drawn = 3;
  total = 1;
  add = no_calls;
  update = no_calls;
  delete = no_calls;
  search = no_calls;
}

abbrev year_2020 : DateRange
year_2020 = record {
  start = record { year = pos 2020; month = pos 1; day = pos 1 };
  end = record { year = pos 2021; month = pos 1; day = pos 1 };
}

-- Rex or Tom, born in 2020.
abbrev born_2020 : SearchMsg
born_2020 = record {
  names = "Rex" ∷ "Tom" ∷ [];
  types = [];
  birthdate_range = some (record { start = some year_2020.start; end = some year_2020.end });
}

passes : validate_search born_2020 ≡ fine (some year_2020)
unfolding validate_search birthday_to_time go_date days_in is_leap
passes = refl

is_range : IsRange (some year_2020)
unfolding before time_or_zero birthday_to_time go_date days_in
is_range = refl

abbrev results : List (List String)
results = ("a" ∷ "b" ∷ []) ∷ [] ∷ ("a" ∷ []) ∷ []

found : search_results sorted_tree store (request born_2020 (some year_2020)) ≡ some results
unfolding new add_pets r_lock find_present can_lock populate populate_pet lookup checked_populate
    insert search_results by_names by_types by_birthdays index_add ids_at birthday_add range
    once_each before time_or_zero birthday_to_time go_date days_in equal
found = refl

asks_born : 0 < filters (request born_2020 (some year_2020))
unfolding filters
asks_born = omega arith

search_streams_matches_example :
    (ids : List String) × ((id : String)
      → count id ids ≡ one_if (wanted sorted_tree store (request born_2020 (some year_2020)) id))
    × AllPets (matches (request born_2020 (some year_2020))) (send_items sorted_tree store ids)
    × (search_pets sorted_tree text_of two_pets born_2020 results 5 false true ≡ (
      (
        take 5 (send_items sorted_tree store ids),
        end_of 5 false (length (send_items sorted_tree store ids)),
      ),
      behind sorted_tree text_of two_pets 5 true
          (length (send_items sorted_tree store ids))
          (end_of 5 false (length (send_items sorted_tree store ids))),
    ))
search_streams_matches_example =
    search_streams_matches sorted_tree text_of two_pets born_2020 (some year_2020) results results 5
      false true passes store-Inv store-IsFree (pair-IsDistinct "Rex" "Tom" refl) (λ t. omega arith)
      is_range found (Perm.refl results) asks_born

-- The same year, from its end to its start.
abbrev backwards : DateRange
backwards = record { start = year_2020.end; end = year_2020.start }

abbrev inverted : SearchMsg
inverted = record {
  names = [];
  types = [];
  birthdate_range = some (record { start = some backwards.start; end = some backwards.end });
}

inverted_range_crashes_example :
    (validate_search inverted ≡ fine (some backwards))
    × ((search_pets sorted_tree text_of two_pets inverted [] 5 false true).0 ≡ ([], stream_crashed))
unfolding before birthday_to_time go_date days_in is_leap
inverted_range_crashes_example =
    inverted_range_crashes sorted_tree text_of two_pets inverted backwards tom.id tom
      (record { year = pos 2021; month = 1; day = 1 })
      (record { year = pos 2020; month = 1; day = 1 }) [] 5 true store-Inv store-IsFree stored_tom
      refl refl refl refl refl
