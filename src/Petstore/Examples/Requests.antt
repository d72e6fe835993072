-- ===== src/Petstore/Examples/Requests.antt =====
-- Messages to the server over the store of two pets.
use gofordevopsclass.Prelude.{
  ℕ, zero, suc, String, true, false, string_eq, [], ◌∷◌, none, some, IsDistinct, ◌≡◌, ◌≢◌, ◌↔◌,
  refl, arith, ap,
}
use gofordevopsclass.Prelude.Int.{pos}
use gofordevopsclass.Prelude.Text.{trim_space, all_space, is_space, trim_left, trim_right}
use gofordevopsclass.GoMap.{lookup}
use gofordevopsclass.Petstore.Calendar.{
  Date, time_of, IsDate, midnight, birthday_to_time, birthday_to_time-IsDate, go_date, days_in,
  is_leap,
}
use gofordevopsclass.Petstore.Pet.{Pet, PetMsg, ok, doesnt_exist}
use gofordevopsclass.Petstore.Validate.{
  validate_pet, validate_rest, IsPassable, validate_pet-IsPassable,
}
use gofordevopsclass.Petstore.Mem.{new, pet_ids}
use gofordevopsclass.Petstore.Mem.Invariant.{new-Inv}
use gofordevopsclass.Petstore.Mem.Effects.{IsFree, latest}
use gofordevopsclass.Petstore.Server.{Api, Meter, resp, internal, prepare, add_pets, update_pets}
use gofordevopsclass.Petstore.Server.Calls.{ApiInv, add_pets_answers, unknown_update_jams}
use gofordevopsclass.Petstore.Examples.SortedTree.{sorted_tree}

abbrev pub leap_day : Date
leap_day = record { year = pos 2020; month = pos 2; day = pos 29 }

birthday_to_time-IsDate_example :
    (birthday_to_time leap_day ≡ time_of (midnight leap_day))
    ↔ (IsDate leap_day × (midnight leap_day ≡ midnight leap_day))
birthday_to_time-IsDate_example = birthday_to_time-IsDate leap_day (midnight leap_day)

abbrev pub rex_msg : PetMsg
rex_msg = record { id = ""; name = " Rex "; type = 2; birthday = some leap_day }

abbrev pub rex : Pet
rex = record { id = ""; name = "Rex"; type = 2; birthday = leap_day }

rex_passes : validate_pet rex_msg false ≡ ok rex
unfolding validate_pet validate_rest trim_space trim_left trim_right is_space birthday_to_time
    go_date days_in is_leap
rex_passes = refl

validate_pet-IsPassable_example : (validate_pet rex_msg false ≡ ok rex) ↔ (
    (d : Date) × IsPassable rex_msg false d
    × (rex ≡ record { id = ""; name = trim_space " Rex "; type = 2; birthday = d }))
validate_pet-IsPassable_example = validate_pet-IsPassable rex_msg false rex

abbrev no_birthday : PetMsg
no_birthday = record { id = ""; name = "Rex"; type = 2; birthday = none }

rex_named : all_space "Rex" ≡ false
unfolding is_space
rex_named = refl

-- Ids of one letter more each time.
unfoldable pub text_of : ℕ → String
text_of zero = ""
text_of (suc n) = String.◌∷◌ "a" (text_of n)

size : String → ℕ
size String.[] = 0
size (String.◌∷◌ c s) = suc (size s)

size-text_of : (n : ℕ) → size (text_of n) ≡ n
unfolding size text_of
size-text_of zero = refl
size-text_of (suc n) = omega (arith, size-text_of n)

pub text_of_different : (i j : ℕ) → text_of i ≡ text_of j → i ≡ j
text_of_different i j h = omega (arith, ap size h, size-text_of i, size-text_of j)

abbrev pub no_calls : Meter
no_calls = record { requests = 0; current = 0; latencies = 0; errors = 0 }

abbrev pub api : Api sorted_tree text_of
api = record {
  store = new sorted_tree;
  drawn = 0;
  total = 0;
  add = no_calls;
  update = no_calls;
  delete = no_calls;
  search = no_calls;
}

new-IsFree : IsFree (new sorted_tree).mu
unfolding new
new-IsFree = (refl, refl)

empty_store : (id : String) → lookup id (new sorted_tree).ids ≡ none
unfolding new lookup
empty_store id = refl

api-ApiInv : ApiInv sorted_tree text_of api
api-ApiInv = record {
  inv = new-Inv sorted_tree;
  from_draws = λ id h. absurd (ground (arith, empty_store id));
}

abbrev pub drawn_rex : Pet
drawn_rex = record rex { id = text_of 0 }

prepared : prepare sorted_tree text_of 0 (rex_msg ∷ []) ≡ (ok (drawn_rex ∷ []), 1)
unfolding prepare validate_pet validate_rest trim_space trim_left trim_right is_space
    birthday_to_time go_date days_in is_leap
prepared = refl

add_pets_answers_example :
    let (r, a) = add_pets sorted_tree text_of api (rex_msg ∷ []) in
    (r ≡ resp (pet_ids (drawn_rex ∷ [])))
    × IsDistinct {A = String} (pet_ids (drawn_rex ∷ []))
    × ((id : String) → lookup id a.store.ids ≡ latest id (drawn_rex ∷ []) (lookup id api.store.ids))
    × IsFree a.store.mu
add_pets_answers_example =
    add_pets_answers sorted_tree text_of text_of_different api (rex_msg ∷ []) (drawn_rex ∷ []) 1
      api-ApiInv new-IsFree prepared

abbrev unknown_msg : PetMsg
unknown_msg = record rex_msg { id = "x" }

unknown_passes : validate_pet unknown_msg true ≡ ok (record rex { id = "x" })
unfolding validate_pet validate_rest trim_space trim_left trim_right is_space birthday_to_time
    go_date days_in is_leap
unknown_passes = refl

unknown_update_jams_example :
    let (r, a) = update_pets sorted_tree text_of api (unknown_msg ∷ []) in
    (r ≡ internal (doesnt_exist "x"))
    × ((add_pets sorted_tree text_of a (rex_msg ∷ [])).0 ≢ resp (pet_ids (drawn_rex ∷ [])))
unknown_update_jams_example =
    unknown_update_jams sorted_tree text_of api unknown_msg (record rex { id = "x" }) (rex_msg ∷ [])
      (drawn_rex ∷ []) 1 new-IsFree unknown_passes (empty_store "x") prepared
