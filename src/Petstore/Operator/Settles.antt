-- ===== src/Petstore/Operator/Settles.antt =====
-- Reconciling a resource of pet_controller.go again and again, over the client and the server of
-- the pet store: one pet, whose id is in the status.
use mathlib.Core.List.{Perm}
use gofordevopsclass.Prelude.{
  ℕ, String, false, string_eq, nat_eq, List, [], ◌∷◌, Option, some, ◌≡◌, refl, ◌∙◌, arith, beq_self,
}
use gofordevopsclass.Prelude.Text.{is_empty}
use gofordevopsclass.GoMap.{lookup}
use gofordevopsclass.Petstore.Pet.{PetMsg, Pet, ok}
use gofordevopsclass.Petstore.Tree.{BirthdayTree}
use gofordevopsclass.Petstore.Mem.Invariant.{KeepKeys}
use gofordevopsclass.Petstore.Mem.Effects.{IsFree}
use gofordevopsclass.Petstore.Server.{Api, resp, prepare, validate_all}
use gofordevopsclass.Petstore.Server
use gofordevopsclass.Petstore.Server.Search.{stream_ok}
use gofordevopsclass.Petstore.Server.Streams.{searched}
use gofordevopsclass.Petstore.Server.Calls.{ApiInv}
use gofordevopsclass.Petstore.Server.Ids.{update_pets-ApiInv}
use gofordevopsclass.Petstore.Client.{arrived}
use gofordevopsclass.Petstore.Client.Connected.{server}
use gofordevopsclass.Petstore.Operator.{
  PetSpec, PetResource, pet_finalizer, Kubernetes, no_failures, Reconciled, reconciled, found_pet,
  pet_message, pet_type_to_proto_pet_type, create_or_update, find_pet_in_store, reconcile_normal,
  reconcile,
}
use gofordevopsclass.Petstore.Operator.Finds.{pet_of_spec, find_pet_in_store_exact}
use gofordevopsclass.Petstore.Operator.Calls.{
  IsSpec, IsTrimmed, pet_of, update_checked, update_lem, served_update,
}

module _ (tree : BirthdayTree) (uuid : ℕ → String) where
  -- What a resource and the server have come to: the pet of the spec stands in the store under
  -- the id of the status.
  pub record Settled (a : Api tree uuid) (pet : PetResource) : Type 0 where
    pub inv : ApiInv tree uuid a
    pub free : IsFree a.store.mu
    pub stands : lookup pet.id a.store.ids ≡ some (pet_of pet.id pet.spec)
    pub valid : IsSpec pet.spec
    pub trimmed : IsTrimmed pet.spec
    pub kept : pet.deleting ≡ false
    pub has_id : is_empty pet.id ≡ false

  -- A resource with the finalizer of the operator.
  abbrev pub with_finalizer : Kubernetes → PetResource → PetResource
  with_finalizer k8s pet = record pet {
    finalizers = k8s.add_finalizer pet_finalizer pet.finalizers;
  }

  pub normal_lem :
      (order : List (List String) → List (List String)) (k8s : Kubernetes) (a : Api tree uuid)
      (pet : PetResource) (f : Option PetMsg) (b : Api tree uuid)
      (x : (Reconciled × PetResource) × Api tree uuid)
      → find_pet_in_store (server tree uuid order) a (with_finalizer k8s pet) ≡ (found_pet f, b)
      → create_or_update (server tree uuid order) b (with_finalizer k8s pet) (found_pet f) ≡ x
      → reconcile_normal (server tree uuid order) k8s false a pet ≡ x
  unfolding reconcile_normal
  normal_lem order k8s a pet f b x e h = ground (arith, e, h)

  same_keys :
      (a : Api tree uuid) (id : String) (s : PetSpec)
      → IsSpec s
      → IsTrimmed s
      → is_empty id ≡ false
      → lookup id a.store.ids ≡ some (pet_of id s)
      → (ps : List Pet) → validate_all tree uuid (pet_message id s ∷ []) ≡ ok ps
      → KeepKeys a.store.ids ps
  unfolding pet_of
  same_keys a id s h t n x ps e =
      let is : ps ≡ pet_of id s ∷ [] = ground (arith, (update_checked tree uuid id s h t n).0) in
      rw is (
        record {
          name_kept = λ q y. ground arith;
          type_kept = λ q y. ground arith;
          birthday_kept = λ q y. ground arith;
        },
        tt,
      )

  fits_itself :
      (id : String) (s : PetSpec)
      → IsTrimmed s
      → pet_of_spec s (some (pet_of id s)) ≡ some (arrived (some (pet_of id s)))
  unfolding pet_of
  fits_itself id s t =
      ground (arith, t, beq_self s.name, beq_self (pet_type_to_proto_pet_type s.type))

  module _ (order : List (List String) → List (List String))
      (order-Perm : (rs : List (List String)) → Perm (order rs) rs) (k8s : Kubernetes) where
    pub searched-ApiInv :
        (a : Api tree uuid) → ApiInv tree uuid a → ApiInv tree uuid (searched tree uuid a stream_ok)
    searched-ApiInv a v = record { inv = v.inv; from_draws = v.from_draws }

    pub normal_again :
        (a : Api tree uuid) (pet : PetResource)
        → Settled a pet
        → reconcile_normal (server tree uuid order) k8s false a pet ≡ (
          (reconciled, with_finalizer k8s pet),
          (Server.update_pets tree uuid
              (searched tree uuid a stream_ok)
              (pet_message pet.id pet.spec ∷ [])).1,
        )
    unfolding reconcile_normal create_or_update pet_of
    normal_again a pet h =
        let b = searched tree uuid a stream_ok in
        let r = with_finalizer k8s pet in
        let find = find_pet_in_store_exact tree uuid order order-Perm a r h.inv.inv h.free in
        let up =
          update_lem tree uuid order b r (arrived (some (pet_of pet.id pet.spec))) h.valid h.trimmed
            h.has_id
            (served_update tree uuid b pet.id pet.spec (pet_of pet.id pet.spec) h.valid h.trimmed
              h.has_id h.free h.stands).0 in
        normal_lem order k8s a pet (pet_of_spec pet.spec (lookup pet.id a.store.ids)) b _ find
          (rw (h.stands, fits_itself pet.id pet.spec h.trimmed, create_or_update, up) refl)

    pub Settled-again :
        (a : Api tree uuid) (pet : PetResource)
        → Settled a pet
        → let b =
            (Server.update_pets tree uuid
              (searched tree uuid a stream_ok)
              (pet_message pet.id pet.spec ∷ [])).1 in
          Settled b (with_finalizer k8s pet)
          × ((id : String) → lookup id b.store.ids ≡ lookup id a.store.ids)
          × (b.drawn ≡ a.drawn)
    Settled-again a pet h =
        let c = searched tree uuid a stream_ok in
        let q = pet_of pet.id pet.spec in
        let (r, after, free, drawn) =
          served_update tree uuid c pet.id pet.spec q h.valid h.trimmed h.has_id h.free h.stands in
        let same : (id : String)
            → lookup id
                (Server.update_pets tree uuid c (pet_message pet.id pet.spec ∷ [])).1.store.ids
              ≡ lookup id a.store.ids =
          λ id. ground (arith, after id, h.stands, string_eq.beq_iff pet.id id) in
        (
          record {
            inv =
                update_pets-ApiInv tree uuid c (pet_message pet.id pet.spec ∷ [])
                  (searched-ApiInv a h.inv) h.free
                  (same_keys c pet.id pet.spec h.valid h.trimmed h.has_id h.stands);
            free = free;
            stands = same pet.id ∙ h.stands;
            valid = h.valid;
            trimmed = h.trimmed;
            kept = h.kept;
            has_id = h.has_id;
          },
          same,
          drawn,
        )

    -- Reconcile of a resource whose part of ReconcileNormal goes through.
    pub reconcile_normally :
        (a b : Api tree uuid) (pet r : PetResource)
        → pet.deleting ≡ false
        → r.deleting ≡ false
        → reconcile_normal (server tree uuid order) k8s false a pet ≡ ((reconciled, r), b)
        → reconcile (server tree uuid order) k8s no_failures a (some pet)
          ≡ ((reconciled, some r), b)
    unfolding reconcile
    reconcile_normally a b pet r d e h = ground (arith, d, h, k8s.kept_lem r e)
