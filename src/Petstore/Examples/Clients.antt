-- ===== src/Petstore/Examples/Clients.antt =====
-- Calls of the client against the empty store, and a change of the sampler.
use gofordevopsclass.Prelude.{
  ℕ, leb, String, Bool, true, false, List, [], ◌∷◌, none, some, ◌≡◌, refl, nat_beq, if◌then◌else◌,
}
use gofordevopsclass.Prelude.Text.{trim_space, is_space, trim_left, trim_right}
use gofordevopsclass.Petstore.Calendar.{birthday_to_time, go_date, days_in, is_leap}
use gofordevopsclass.Petstore.Pet.{PetMsg, ok}
use gofordevopsclass.Petstore.Validate.{validate_pet, validate_rest}
use gofordevopsclass.Petstore.Server
use gofordevopsclass.Petstore.Client.{
  validated, traced, handle_call_options, add_pets, update_pets, delete_pets, search_pets,
  client_panics, search_panics, Service,
}
use gofordevopsclass.Petstore.Client.Connected.{server}
use gofordevopsclass.Petstore.Client.Agreement.{at_client, add_pets_agrees, traced_calls_panic}
use gofordevopsclass.Petstore.Server.{Api, SearchMsg}
use gofordevopsclass.Petstore.Sampler.{
  Child, Sampler, SamplerMsg, SamplingParameters, changed, drop, record_and_sample, should_sample,
  is_asked_for, sampled_as, child_of, client_change_sampler, change_sampler, validate, switch,
  asked, change_panics, changed_sampler_decides,
}
use gofordevopsclass.Petstore.Examples.SortedTree.{sorted_tree}
use gofordevopsclass.Petstore.Examples.Requests.{text_of, api, rex_msg}

abbrev in_order : List (List String) → List (List String)
in_order rs = rs

abbrev service : Service (Api sorted_tree text_of)
service = server sorted_tree text_of in_order

add_pets_agrees_example :
    add_pets service api (rex_msg ∷ rex_msg ∷ []) (none ∷ [])
    ≡ at_client api (Server.add_pets sorted_tree text_of api (rex_msg ∷ rex_msg ∷ []))
unfolding traced
add_pets_agrees_example =
    add_pets_agrees text_of sorted_tree in_order api rex_msg (rex_msg ∷ []) (none ∷ []) refl

abbrev clean : PetMsg
clean = record rex_msg { name = "Rex" }

abbrev known : PetMsg
known = record clean { id = "x" }

abbrev everything : SearchMsg
everything = record { names = []; types = []; birthdate_range = none }

new_passes : validated false (rex_msg ∷ []) ≡ ok (clean ∷ [])
unfolding validated validate_pet validate_rest trim_space trim_left trim_right is_space
    birthday_to_time go_date days_in is_leap
new_passes = refl

known_passes : validated true (known ∷ []) ≡ ok (known ∷ [])
unfolding validated validate_pet validate_rest trim_space trim_left trim_right is_space
    birthday_to_time go_date days_in is_leap
known_passes = refl

asks : traced none (some 7 ∷ []) ≡ some 7
unfolding traced
asks = refl

-- Rates in percent.
abbrev le_zero : ℕ → Bool
le_zero r = nat_beq r 0

abbrev gt_one : ℕ → Bool
gt_one r = leb 101 r

abbrev never : Child
never p = record { decision = drop; state = p.span.trace_state }

abbrev sampled_always : Child
sampled_always p = sampled_as p.span

abbrev ratio : ℕ → Child
ratio r p = record {
  decision = if leb p.trace_id r then record_and_sample else drop;
  state = p.span.trace_state;
}

abbrev half : SamplerMsg ℕ le_zero gt_one
half = record { type = 3; float_value = 50 }

abbrev quiet : Sampler
quiet = record { child = never }

abbrev a_span : SamplingParameters
a_span = record {
  span = record { is_valid = true; is_remote = false; is_sampled = false; trace_state = "s" };
  incoming = none;
  trace_id = 40;
}

half_is_valid : validate ℕ le_zero gt_one half ≡ true
unfolding validate
half_is_valid = refl

traced_calls_panic_example :
    (add_pets service api (rex_msg ∷ []) (some 7 ∷ []) ≡ (client_panics, api))
    × (update_pets service api (known ∷ []) (some 7 ∷ []) ≡ (client_panics, api))
    × (delete_pets service api ("x" ∷ []) (some 7 ∷ []) ≡ (client_panics, api))
    × (search_pets service api (some everything) (some 7 ∷ []) ≡ (search_panics, api))
    × (client_change_sampler ℕ le_zero gt_one never sampled_always ratio quiet half (some 7 ∷ [])
        ≡ change_panics)
traced_calls_panic_example =
    traced_calls_panic service ℕ le_zero gt_one never sampled_always ratio api (some 7 ∷ []) 7 []
      (clean ∷ []) [] rex_msg known "x" [] everything (known ∷ []) quiet half asks new_passes
      known_passes half_is_valid

half_goes_through :
    client_change_sampler ℕ le_zero gt_one never sampled_always ratio quiet half (none ∷ [])
    ≡ asked (changed (record { child = ratio 50 }))
unfolding client_change_sampler change_sampler validate switch handle_call_options traced
half_goes_through = refl

changed_sampler_decides_example : should_sample (record { child = ratio 50 }) a_span ≡ (
    if is_asked_for a_span
    then sampled_as a_span.span
    else child_of ℕ le_zero gt_one never sampled_always ratio half a_span)
changed_sampler_decides_example =
    changed_sampler_decides ℕ le_zero gt_one never sampled_always ratio quiet
      (record { child = ratio 50 }) half (none ∷ []) a_span half_goes_through
