-- ===== src/Petstore/Operator/Finds.antt =====
-- findPetInStore of pet_controller.go, over the client and the server of the pet store.
use mathlib.Core.List.{Perm}
use gofordevopsclass.Prelude.{
  ℕ, String, Bool, false, ◌&&◌, leb, string_eq, nat_eq, ◌==◌, if◌then◌else◌, List, [], ◌∷◌, Option,
  none, some, one_if, count, length, Option-cases, IsDistinct, Eq, ap, ◌≡◌, ◌≢◌, refl, subst, ◌∙◌,
  arith, inl, inr,
}
use gofordevopsclass.GoMap.{lookup}
use gofordevopsclass.Petstore.Pet.{PetMsg, Pet, SearchPetsReq}
use gofordevopsclass.Petstore.Tree.{BirthdayTree}
use gofordevopsclass.Petstore.Mem.{
  Data, done, filters, send_items, search_results, by_names, by_types, by_birthdays,
}
use gofordevopsclass.Petstore.Mem
use gofordevopsclass.Petstore.Mem.Invariant.{Inv}
use gofordevopsclass.Petstore.Mem.Effects.{IsFree}
use gofordevopsclass.Petstore.Mem.Search.{matches, wanted}
use gofordevopsclass.Petstore.Mem.Exact.{AllPets, search_pets_exact}
use gofordevopsclass.Petstore.Server.{Api, fine, validate_search}
use gofordevopsclass.Petstore.Server.Search.{StreamEnd, stream_ok, request}
use gofordevopsclass.Petstore.Server.Search
use gofordevopsclass.Petstore.Server.Streams.{take, end_of, searched, streamed}
use gofordevopsclass.Petstore.Client.{
  arrived, received, channel, channel_of, handle_call_options, traced,
}
use gofordevopsclass.Petstore.Client
use gofordevopsclass.Petstore.Client.Connected.{server, search_all, arrivals}
use gofordevopsclass.Petstore.Operator.{
  PetSpec, PetResource, found_pet, find_id, pet_filter, pet_type_to_proto_pet_type,
  find_pet_in_store,
}

take-length : {A : Type 0} (xs : List A) → take (length xs) xs ≡ xs
take-length [] = refl
take-length (x ∷ xs) = ground (arith, take-length xs)

end_of-length : (n : ℕ) → end_of n false n ≡ stream_ok
end_of-length n = ground arith

-- The stored pet of an id, as its message, if it has the name and the type of a spec.
abbrev pub pet_of_spec : PetSpec → Option Pet → Option PetMsg
pet_of_spec s none = none
pet_of_spec s (some p) =
    if (p.name == s.name) && (p.type == pet_type_to_proto_pet_type s.type)
    then some (arrived (some p))
    else none

abbrev arrived_at : Bool → Option Pet → Option PetMsg
arrived_at b none = none
arrived_at b (some p) = if b then some (arrived (some p)) else none

known_type : (t : String) → pet_type_to_proto_pet_type t ≢ 0
unfolding pet_type_to_proto_pet_type
known_type t h = ground arith

filter_passes : (s : PetSpec) → validate_search (pet_filter s) ≡ fine none
unfolding validate_search pet_filter
filter_passes s = ground (arith, known_type s.type)

module _ (tree : BirthdayTree) where
  find_sent :
      (d : Data tree) (id : String) (t : Pet → Bool) (ids : List String)
      → ((j : String) (p : Pet) → lookup j d.ids ≡ some p → p.id ≡ j)
      → AllPets t (send_items tree d ids)
      → find_id id (received (send_items tree d ids) stream_ok)
        ≡ arrived_at (leb 1 (count id ids)) (lookup id d.ids)
  unfolding send_items find_id received
  find_sent d id t [] keyed h = ground (arith, Option-cases (lookup id d.ids))
  find_sent d id t (j ∷ ids) keyed h = elim (Option-cases (lookup j d.ids)) [
    | inl x ↦ absurd (ground arith)
    | inr (p, x) ↦
        let rest : AllPets t (send_items tree d ids) = ground arith in
        ground (arith, keyed j p x, find_sent d id t ids keyed rest, string_eq.beq_iff j id)
  ]

  -- Whether a pet has the name and the type of a spec.
  abbrev fits : PetSpec → Option Pet → Bool
  fits s none = false
  fits s (some p) = (p.name == s.name) && (p.type == pet_type_to_proto_pet_type s.type)

  abbrev for_spec : PetSpec → SearchPetsReq
  for_spec s = request (pet_filter s) none

  wanted-fits :
      (d : Data tree) (s : PetSpec) (id : String)
      → wanted tree d (for_spec s) id ≡ fits s (lookup id d.ids)
  unfolding pet_filter
  wanted-fits d s id = elim (Option-cases (lookup id d.ids)) [
    | inl x ↦ ground arith
    | inr (p, x) ↦ ground (arith, string_eq.beq_iff s.name p.name, string_eq.beq_iff p.name s.name)
  ]

  abbrev searches : Data tree → PetSpec → List (List String)
  searches d s = by_names tree d (for_spec s) ∷ by_types tree d (for_spec s) ∷ [] ∷ []

  searches_lem :
      (d : Data tree) (s : PetSpec) → search_results tree d (for_spec s) ≡ some (searches d s)
  unfolding search_results by_birthdays
  searches_lem d s = refl

  two_filters : (s : PetSpec) → filters (for_spec s) ≡ 2
  unfolding filters pet_filter
  two_filters s = refl

  single-IsDistinct : {A : Type 0} ⦃e : Eq A⦄ (x : A) → IsDistinct (x ∷ [])
  single-IsDistinct x a = ground arith

  chosen :
      (s : PetSpec) (o : Option Pet) (n : ℕ)
      → n ≡ one_if (fits s o)
      → arrived_at (leb 1 n) o ≡ pet_of_spec s o
  chosen s none n h = refl
  chosen s (some p) n h = ground arith

  module _ (uuid : ℕ → String) (order : List (List String) → List (List String))
      (order-Perm : (rs : List (List String)) → Perm (order rs) rs) where
    sent :
        (a : Api tree uuid) (s : PetSpec) (ids : List String)
        → Mem.search_pets tree a.store (for_spec s) (order (searches a.store s))
          ≡ done (send_items tree a.store ids)
        → search_all tree uuid order a (pet_filter s)
          ≡ ((send_items tree a.store ids, stream_ok), searched tree uuid a stream_ok)
    sent a s ids e =
        let n = length (send_items tree a.store ids) in
        rw (filter_passes s, search_all, arrivals, searches_lem a.store s, e)
          (subst
            (λ z.
              Search.search_pets tree uuid a (pet_filter s) (order (searches a.store s)) n false
                false
              ≡ ((z, stream_ok), searched tree uuid a stream_ok))
            (take-length (send_items tree a.store ids))
            (subst
              (λ z.
                Search.search_pets tree uuid a (pet_filter s) (order (searches a.store s)) n false
                  false
                ≡ ((take n (send_items tree a.store ids), z), searched tree uuid a z))
              (end_of-length n)
              (streamed tree uuid a (pet_filter s) none (searches a.store s)
                (order (searches a.store s)) n false false (send_items tree a.store ids)
                (filter_passes s) e (searches_lem a.store s) (omega (arith, two_filters s)))))

    search_fits :
        (a : Api tree uuid) (s : PetSpec)
        → Inv tree a.store
        → IsFree a.store.mu
        → (ids : List String) × (search_all tree uuid order a (pet_filter s)
            ≡ ((send_items tree a.store ids, stream_ok), searched tree uuid a stream_ok))
          × ((id : String) → count id ids ≡ one_if (wanted tree a.store (for_spec s) id))
          × AllPets (matches (for_spec s)) (send_items tree a.store ids)
    unfolding pet_filter
    search_fits a s v f =
        let rs = searches a.store s in
        let (ids, e, counts, all) =
          search_pets_exact tree a.store (for_spec s) rs (order rs) v f (single-IsDistinct s.name)
            (single-IsDistinct (pet_type_to_proto_pet_type s.type)) tt (searches_lem a.store s)
            (order-Perm rs) (omega (arith, two_filters s)) in
        (ids, sent a s ids e, counts, all)

    -- findPetInStore, against a server whose store is well formed and whose lock is free, over a
    -- connection that holds, in whatever order the searches of the server end: it finds the stored
    -- pet that has the id of the status, provided that this pet has the name and the type of the
    -- spec, and else nil. Only the counters of the server change.
    pub find_pet_in_store_exact :
        (a : Api tree uuid) (pet : PetResource)
        → Inv tree a.store
        → IsFree a.store.mu
        → find_pet_in_store (server tree uuid order) a pet ≡ (
          found_pet (pet_of_spec pet.spec (lookup pet.id a.store.ids)),
          searched tree uuid a stream_ok,
        )
    unfolding find_pet_in_store Client.search_pets handle_call_options traced channel_of
    find_pet_in_store_exact a pet v f =
        let (ids, e, counts, all) = search_fits a pet.spec v f in
        let is : find_id pet.id (received (send_items tree a.store ids) stream_ok)
            ≡ pet_of_spec pet.spec (lookup pet.id a.store.ids) =
          find_sent a.store pet.id _ ids v.keyed all
          ∙ chosen pet.spec (lookup pet.id a.store.ids) (count pet.id ids)
              (counts pet.id ∙ ap one_if (wanted-fits a.store pet.spec pet.id)) in
        rw (e, find_pet_in_store, Client.search_pets, is) refl
