-- ===== src/Petstore/Operator/Calls.antt =====
-- createPetInStore and updatePetInStore of pet_controller.go, over the client and the server of
-- the pet store, for a spec that the store accepts.
use gofordevopsclass.Prelude.{
  ℕ, suc, String, Bool, true, false, not, if◌then◌else◌, ◌==◌, string_eq, nat_eq, List, [], ◌∷◌,
  none, some, ◌≡◌, refl, inl, inr, arith,
}
use gofordevopsclass.Prelude.Text.{trim_space, is_empty, all_space}
use gofordevopsclass.GoMap.{lookup}
use gofordevopsclass.Petstore.Calendar.{IsDate}
use gofordevopsclass.Petstore.Pet.{PetMsg, Pet, ok}
use gofordevopsclass.Petstore.Validate.{validate_pet, validate_pet-IsPassable}
use gofordevopsclass.Petstore.Tree.{BirthdayTree}
use gofordevopsclass.Petstore.Mem.{Data, done, find_present}
use gofordevopsclass.Petstore.Mem
use gofordevopsclass.Petstore.Mem.Effects.{IsFree, update_pets-Written, update_pets-done}
use gofordevopsclass.Petstore.Server.{Api, resp, prepare, validate_all}
use gofordevopsclass.Petstore.Server
use gofordevopsclass.Petstore.Client.{
  arrived, validated, traced, handle_call_options, with_options, answer_of,
}
use gofordevopsclass.Petstore.Client
use gofordevopsclass.Petstore.Client.Connected.{server}
use gofordevopsclass.Petstore.Client.Agreement.{add_pets_agrees}
use gofordevopsclass.Petstore.Operator.{
  PetSpec, PetResource, reconciled, pet_message, pet_type_to_proto_pet_type, time_to_pb_date,
  create_pet_in_store, update_pet_in_store,
}

-- A spec that the store accepts: a name with a character that is no white space, and a date of
-- the calendar.
pub record IsSpec (s : PetSpec) : Type 0 where
  pub named : all_space s.name ≡ false
  pub dated : IsDate s.birthday

-- A name that trimming does not change.
abbrev pub IsTrimmed : PetSpec → Type 0
IsTrimmed s = trim_space s.name ≡ s.name

-- The pet that the store makes of a spec, under an id.
unfoldable pub pet_of : String → PetSpec → Pet
pet_of id s = record {
  id = id;
  name = trim_space s.name;
  type = pet_type_to_proto_pet_type s.type;
  birthday = s.birthday;
}

pub message_passes :
    (id : String) (s : PetSpec) (u : Bool)
    → IsSpec s
    → is_empty id ≡ not u
    → validate_pet (pet_message id s) u ≡ ok (pet_of id s)
unfolding pet_message pet_of time_to_pb_date pet_type_to_proto_pet_type
message_passes id s u h e = (validate_pet-IsPassable (pet_message id s) u (pet_of id s)).1 (
  s.birthday,
  record { id_rule = e; named = h.named; typed = λ y. ground arith; born = refl; dated = h.dated },
  refl,
)

module _ (tree : BirthdayTree) (uuid : ℕ → String) where
  pub prepared :
      (n : ℕ) (s : PetSpec)
      → IsSpec s
      → prepare tree uuid n (pet_message "" s ∷ []) ≡ (ok (pet_of (uuid n) s ∷ []), suc n)
  unfolding prepare pet_of
  prepared n s h = rw (message_passes "" s false h refl, prepare) refl

  pub update_checked :
      (id : String) (s : PetSpec)
      → IsSpec s
      → IsTrimmed s
      → is_empty id ≡ false
      → (validate_all tree uuid (pet_message id s ∷ []) ≡ ok (pet_of id s ∷ []))
        × (validated true (pet_message id s ∷ []) ≡ ok (pet_message id s ∷ []))
  unfolding validate_all validated pet_of pet_message
  update_checked id s h t e = (
    rw (message_passes id s true h e, validate_all) refl,
    rw (message_passes id s true h e, validated, t) refl,
  )

  -- UpdatePets of one pet that is in the store.
  update_stores :
      (d : Data tree) (p q : Pet)
      → IsFree d.mu
      → lookup p.id d.ids ≡ some q
      → ((Mem.update_pets tree d (p ∷ [])).0 ≡ done tt)
        × ((id : String)
            → lookup id (Mem.update_pets tree d (p ∷ [])).1.ids
              ≡ (if p.id == id then some p else lookup id d.ids))
        × IsFree (Mem.update_pets tree d (p ∷ [])).1.mu
  unfolding find_present
  update_stores d p q f x =
      let there : find_present false d.ids (p ∷ []) ≡ none = ground arith in
      let stored = update_pets-done tree d (p ∷ []) f there in
      elim (update_pets-Written tree d (p ∷ []) f) [
        | inl w ↦ (stored, w.2, w.3)
        | inr (r, a, b, e) ↦ absurd (cc (a, stored))
      ]

  module _ (order : List (List String) → List (List String)) where
    pub create_lem :
        (a : Api tree uuid) (pet : PetResource) (ids : List String)
        → IsSpec pet.spec
        → (Server.add_pets tree uuid a (pet_message "" pet.spec ∷ [])).0 ≡ resp (uuid a.drawn ∷ ids)
        → create_pet_in_store (server tree uuid order) a pet ≡ (
          (reconciled, record pet { id = uuid a.drawn }),
          (Server.add_pets tree uuid a (pet_message "" pet.spec ∷ [])).1,
        )
    unfolding create_pet_in_store traced
    create_lem a pet ids h e =
        let same = add_pets_agrees uuid tree order a (pet_message "" pet.spec) [] [] refl in
        rw (same, create_pet_in_store, e) refl

    pub update_lem :
        (a : Api tree uuid) (pet : PetResource) (p : PetMsg)
        → IsSpec pet.spec
        → IsTrimmed pet.spec
        → is_empty p.id ≡ false
        → (Server.update_pets tree uuid a (pet_message p.id pet.spec ∷ [])).0 ≡ resp []
        → update_pet_in_store (server tree uuid order) a pet p
          ≡ (reconciled, (Server.update_pets tree uuid a (pet_message p.id pet.spec ∷ [])).1)
    unfolding update_pet_in_store Client.update_pets with_options handle_call_options traced
        answer_of
    update_lem a pet p h t n e =
        let checked = (update_checked p.id pet.spec h t n).1 in
        rw (checked, update_pet_in_store, Client.update_pets, e) refl

  pub served_update :
      (a : Api tree uuid) (id : String) (s : PetSpec) (q : Pet)
      → IsSpec s
      → IsTrimmed s
      → is_empty id ≡ false
      → IsFree a.store.mu
      → lookup id a.store.ids ≡ some q
      → let (r, b) = Server.update_pets tree uuid a (pet_message id s ∷ []) in
        (r ≡ resp [])
        × ((i : String)
            → lookup i b.store.ids ≡ (if id == i then some (pet_of id s) else lookup i a.store.ids))
        × IsFree b.store.mu
        × (b.drawn ≡ a.drawn)
  unfolding Server.update_pets pet_of
  served_update a id s q h t n f x =
      let (y, z, w) = update_stores a.store (pet_of id s) q f x in
      rw ((update_checked id s h t n).0, Server.update_pets) (rw y refl, z, w, refl)
