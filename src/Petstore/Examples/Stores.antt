-- ===== src/Petstore/Examples/Stores.antt =====
-- Writes to a store of two pets.
use gofordevopsclass.Prelude.{
  ◌≤◌, List, String, true, string_eq, [], ◌∷◌, some, count, pair-IsDistinct, ◌≡◌, refl, arith,
}
use gofordevopsclass.Prelude.Int.{pos}
use gofordevopsclass.GoMap.{lookup, insert}
use gofordevopsclass.Petstore.Pet.{Pet, already_present}
use gofordevopsclass.Petstore.Mem.{
  Data, new, add_pets, update_pets, delete_pets, failed, checked_populate, find_present, r_lock,
  can_lock, populate, populate_pet,
}
use gofordevopsclass.Petstore.Mem.Invariant.{Inv, new-Inv, KeepKeys}
use gofordevopsclass.Petstore.Mem.Writes.{add_pets-Inv, update_pets-Inv, delete_pets-Inv}
use gofordevopsclass.Petstore.Mem.Effects.{IsFree, Written, add_pets-Written}
use gofordevopsclass.Petstore.Mem.Effects.{Call, deletes, adds}
use gofordevopsclass.Petstore.Mem.Refines.{SameEnd, store_calls, map_calls, store_calls-map_calls}
use gofordevopsclass.Petstore.Examples.SortedTree.{sorted_tree}

abbrev pub rex : Pet
rex = record {
  id = "a";
  name = "Rex";
  type = 2;
  birthday = record { year = pos 2020; month = pos 2; day = pos 29 };
}

abbrev pub tom : Pet
tom = record {
  id = "b";
  name = "Tom";
  type = 1;
  birthday = record { year = pos 2021; month = pos 1; day = pos 31 };
}

abbrev pub store : Data sorted_tree
store = (add_pets sorted_tree (new sorted_tree) (rex ∷ tom ∷ [])).1

two_ids : (a : String) → count a ("a" ∷ "b" ∷ []) ≤ 1
two_ids = pair-IsDistinct "a" "b" refl

pub store-Inv : Inv sorted_tree store
store-Inv =
    add_pets-Inv sorted_tree (new sorted_tree) (rex ∷ tom ∷ []) (new-Inv sorted_tree) two_ids

new-IsFree : IsFree (new sorted_tree).mu
unfolding new
new-IsFree = (refl, refl)

pub store-IsFree : IsFree store.mu
unfolding new add_pets r_lock find_present can_lock populate populate_pet lookup checked_populate
    insert
store-IsFree = (refl, refl)

pub stored_tom : lookup tom.id store.ids ≡ some tom
unfolding new add_pets r_lock find_present can_lock populate populate_pet lookup checked_populate
    insert
stored_tom = refl

tom_kept : KeepKeys store.ids (tom ∷ [])
tom_kept = (
  record {
    name_kept = λ q h. ground (arith, stored_tom);
    type_kept = λ q h. ground (arith, stored_tom);
    birthday_kept = λ q h. ground (arith, stored_tom);
  },
  tt,
)

update_pets-Inv_example : Inv sorted_tree (update_pets sorted_tree store (tom ∷ [])).1
update_pets-Inv_example = update_pets-Inv sorted_tree store (tom ∷ []) store-Inv tom_kept

delete_pets-Inv_example : Inv sorted_tree (delete_pets sorted_tree store ("a" ∷ "c" ∷ [])).1
delete_pets-Inv_example = delete_pets-Inv sorted_tree store ("a" ∷ "c" ∷ []) store-Inv

add_pets-Written_example :
    Written sorted_tree
      (λ p. already_present p.id)
      true
      store
      (tom ∷ [])
      (add_pets sorted_tree store (tom ∷ []))
add_pets-Written_example = add_pets-Written sorted_tree store (tom ∷ []) store-IsFree

refused : (add_pets sorted_tree store (rex ∷ [])).0 ≡ failed (already_present rex.id)
unfolding new add_pets r_lock find_present can_lock populate populate_pet lookup checked_populate
    insert
refused = refl

-- Rex is deleted and added, and then added again, which is refused.
abbrev some_calls : List Call
some_calls = deletes ("a" ∷ []) ∷ adds (rex ∷ []) ∷ adds (rex ∷ []) ∷ []

store_calls-map_calls_example :
    SameEnd sorted_tree
      (store_calls sorted_tree store some_calls)
      (map_calls (λ id. lookup id store.ids) some_calls)
store_calls-map_calls_example =
    store_calls-map_calls sorted_tree store (λ id. lookup id store.ids) some_calls store-IsFree
      (λ id. refl)
