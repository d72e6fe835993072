-- ===== src/Petstore/Examples/Resources.antt =====
-- Reconciling a resource over the empty store.
use mathlib.Core.List.Perm
use gofordevopsclass.Prelude.{
  ℕ, suc, String, true, false, string_eq, List, [], ◌∷◌, none, some, ◌≡◌, ◌≢◌, refl, arith, beq-ne,
}
use gofordevopsclass.Prelude.Text.{is_empty, is_space, trim_space, trim_left, trim_right}
use gofordevopsclass.GoMap.{lookup}
use gofordevopsclass.Petstore.Calendar.{days_in, is_leap}
use gofordevopsclass.Petstore.Pet.{Pet}
use gofordevopsclass.Petstore.Mem.{new}
use gofordevopsclass.Petstore.Mem.Invariant.{new-Inv}
use gofordevopsclass.Petstore.Mem.Effects.{IsFree}
use gofordevopsclass.Petstore.Server.{Api, add_pets}
use gofordevopsclass.Petstore.Server.Calls.{ApiInv}
use gofordevopsclass.Petstore.Server.Ids.{add_pets-ApiInv}
use gofordevopsclass.Petstore.Server.Search.{stream_ok}
use gofordevopsclass.Petstore.Server.Streams.{searched}
use gofordevopsclass.Petstore.Client.Connected.{server}
use gofordevopsclass.Petstore.Operator.{
  PetResource, found_pet, find_pet_in_store, reconcile, no_failures, reconciled, Failures,
  patch_failed,
}
use gofordevopsclass.Petstore.Operator.Finds.{pet_of_spec, find_pet_in_store_exact}
use gofordevopsclass.Petstore.Operator.Calls.{IsSpec, IsTrimmed, pet_of}
use gofordevopsclass.Petstore.Operator.Rounds.{rounds, Holds, reconcile_settles, made, created}
use gofordevopsclass.Petstore.Operator.Lost.{lost_patch_duplicates, untrimmed_multiplies}
use gofordevopsclass.Petstore.Examples.SortedTree.{sorted_tree}
use gofordevopsclass.Petstore.Examples.Requests.{text_of, text_of_different, no_calls, rex_msg}
use gofordevopsclass.Petstore.Examples.Kubernetes.{cluster, rex_resource}

-- Ids that are never empty.
abbrev name_of : ℕ → String
name_of n = text_of (suc n)

different : (i j : ℕ) → name_of i ≡ name_of j → i ≡ j
different i j h = omega (arith, text_of_different (suc i) (suc j) h)

proper : (n : ℕ) → is_empty (name_of n) ≡ false
unfolding text_of
proper n = refl

abbrev api : Api sorted_tree name_of
api = record {
  store = new sorted_tree;
  drawn = 0;
  total = 0;
  add = no_calls;
  update = no_calls;
  delete = no_calls;
  search = no_calls;
}

new-IsFree : IsFree (new sorted_tree).mu
unfolding new
new-IsFree = (refl, refl)

empty_store : (id : String) → lookup id (new sorted_tree).ids ≡ none
unfolding new lookup
empty_store id = refl

api-ApiInv : ApiInv sorted_tree name_of api
api-ApiInv = record {
  inv = new-Inv sorted_tree;
  from_draws = λ id h. absurd (ground (arith, empty_store id));
}

add_pets-ApiInv_example :
    ApiInv sorted_tree name_of (add_pets sorted_tree name_of api (rex_msg ∷ [])).1
add_pets-ApiInv_example =
    add_pets-ApiInv sorted_tree name_of different api (rex_msg ∷ []) api-ApiInv new-IsFree

abbrev in_order : List (List String) → List (List String)
in_order rs = rs

find_pet_in_store_exact_example :
    find_pet_in_store (server sorted_tree name_of in_order) api rex_resource ≡ (
      found_pet (pet_of_spec rex_resource.spec (lookup rex_resource.id api.store.ids)),
      searched sorted_tree name_of api stream_ok,
    )
find_pet_in_store_exact_example =
    find_pet_in_store_exact sorted_tree name_of in_order (λ rs. Perm.refl rs) api rex_resource
      (new-Inv sorted_tree) new-IsFree

rex-IsSpec : IsSpec rex_resource.spec
unfolding is_space days_in is_leap
rex-IsSpec = record {
  named = refl;
  dated = record {
    month_range = (omega arith, omega arith);
    day_range = (omega arith, omega arith);
  };
}

rex-IsTrimmed : IsTrimmed rex_resource.spec
unfolding trim_space trim_left trim_right is_space
rex-IsTrimmed = refl

reconcile_settles_example :
    Holds sorted_tree name_of in_order cluster api
      (name_of 0)
      rex_resource.spec
      (rounds sorted_tree name_of in_order cluster 3 api (some rex_resource))
reconcile_settles_example =
    reconcile_settles sorted_tree name_of in_order cluster (λ rs. Perm.refl rs) different proper api
      rex_resource 2 api-ApiInv new-IsFree rex-IsSpec rex-IsTrimmed refl refl

lost_patch_duplicates_example :
    let lost : Failures = record no_failures { patch_fails = true } in
    let svc = server sorted_tree name_of in_order in
    let (r, b) = reconcile svc cluster lost api (some rex_resource) in
    let (s, c) = reconcile svc cluster no_failures b (some rex_resource) in
    (r ≡ (patch_failed, some rex_resource))
    × (s.0 ≡ reconciled)
    × (lookup (name_of 0) c.store.ids ≡ some (pet_of (name_of 0) rex_resource.spec))
    × (lookup (name_of 1) c.store.ids ≡ some (pet_of (name_of 1) rex_resource.spec))
lost_patch_duplicates_example =
    lost_patch_duplicates sorted_tree name_of in_order cluster (λ rs. Perm.refl rs) different proper
      api rex_resource api-ApiInv new-IsFree rex-IsSpec refl refl

-- The same with a space behind the name.
abbrev spaced : PetResource
spaced = record rex_resource { spec = record rex_resource.spec { name = "Rex " } }

spaced-IsSpec : IsSpec spaced.spec
unfolding is_space days_in is_leap
spaced-IsSpec = record {
  named = refl;
  dated = record {
    month_range = (omega arith, omega arith);
    day_range = (omega arith, omega arith);
  };
}

spaced_trimmed : trim_space "Rex " ≢ "Rex "
unfolding trim_space trim_left trim_right is_space
spaced_trimmed = beq-ne "Rex" "Rex " refl

spaced_unknown : pet_of_spec spaced.spec (lookup spaced.id api.store.ids) ≡ none
unfolding new lookup
spaced_unknown = refl

untrimmed_multiplies_example :
    lookup (name_of 1) (rounds sorted_tree name_of in_order cluster 3 api (some spaced)).1.store.ids
    ≡ some (pet_of (name_of 1) spaced.spec)
untrimmed_multiplies_example =
    untrimmed_multiplies sorted_tree name_of in_order cluster (λ rs. Perm.refl rs) different proper
      3 api spaced api-ApiInv new-IsFree spaced-IsSpec spaced_trimmed spaced_unknown refl 1
      (omega arith)

-- Rex in the store, and a resource with Rex's id whose spec has got another name.
rex_unknown : pet_of_spec rex_resource.spec (lookup rex_resource.id api.store.ids) ≡ none
unfolding new lookup
rex_unknown = refl

abbrev with_rex : Api sorted_tree name_of
with_rex =
    made sorted_tree name_of in_order cluster (λ rs. Perm.refl rs) different proper api rex_resource

abbrev max_resource : PetResource
max_resource = record rex_resource {
  spec = record rex_resource.spec { name = "Max" };
  id = name_of 0;
}

max-IsSpec : IsSpec max_resource.spec
unfolding is_space days_in is_leap
max-IsSpec = record {
  named = refl;
  dated = record {
    month_range = (omega arith, omega arith);
    day_range = (omega arith, omega arith);
  };
}

abbrev rex_stored : Pet
rex_stored = pet_of (name_of 0) rex_resource.spec

rex_name : rex_stored.name ≢ "Max"
unfolding pet_of trim_space trim_left trim_right is_space
rex_name = beq-ne "Rex" "Max" refl

with_rex_lem :
    ApiInv sorted_tree name_of with_rex
    × IsFree with_rex.store.mu
    × (lookup (name_of 0) with_rex.store.ids ≡ some rex_stored)
unfolding text_of
with_rex_lem =
    let (first, w, free, drawn, after) =
      created sorted_tree name_of in_order cluster (λ rs. Perm.refl rs) different proper api
        rex_resource api-ApiInv new-IsFree rex-IsSpec rex_unknown refl in
    (w, free, after (name_of 0))
