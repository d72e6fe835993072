-- ===== src/Petstore/Operator/Rounds.antt =====
-- Rounds of Reconcile of pet_controller.go over a new resource: one pet comes to stand in the
-- store, under the id of the status, and stays the only one.
use mathlib.Core.List.{Perm}
use gofordevopsclass.Prelude.{
  ℕ, zero, suc, String, true, false, if◌then◌else◌, ◌==◌, string_eq, nat_eq, List, [], ◌∷◌, Option,
  none, some, contains, ◌≡◌, refl, sym, ap, ◌∙◌, subst, arith, beq_self,
}
use gofordevopsclass.Prelude.Text.{is_empty}
use gofordevopsclass.GoMap.{lookup}
use gofordevopsclass.Petstore.Pet.{Pet, ok}
use gofordevopsclass.Petstore.Tree.{BirthdayTree}
use gofordevopsclass.Petstore.Mem.Effects.{IsFree}
use gofordevopsclass.Petstore.Server.{Api, resp, prepare, validate_all}
use gofordevopsclass.Petstore.Server
use gofordevopsclass.Petstore.Server.Search.{stream_ok}
use gofordevopsclass.Petstore.Server.Streams.{searched}
use gofordevopsclass.Petstore.Server.Calls.{ApiInv, add_pets_answers}
use gofordevopsclass.Petstore.Server.Ids.{add_pets-ApiInv}
use gofordevopsclass.Petstore.Client.Connected.{server}
use gofordevopsclass.Petstore.Operator.{
  PetSpec, PetResource, pet_finalizer, Kubernetes, no_failures, reconciled, pet_message,
  create_or_update, reconcile_normal, reconcile,
}
use gofordevopsclass.Petstore.Operator.Finds.{pet_of_spec, find_pet_in_store_exact}
use gofordevopsclass.Petstore.Operator.Calls.{IsSpec, IsTrimmed, pet_of, prepared, create_lem}
use gofordevopsclass.Petstore.Operator.Settles.{
  Settled, with_finalizer, searched-ApiInv, normal_again, Settled-again, reconcile_normally,
  normal_lem,
}

module _ (tree : BirthdayTree) (uuid : ℕ → String) (order : List (List String) → List (List String))
    (k8s : Kubernetes) where
  -- A number of calls of Reconcile, one after another, none of whose calls to Kubernetes fails.
  unfoldable pub rounds :
      ℕ → Api tree uuid → Option PetResource → Option PetResource × Api tree uuid
  rounds zero a r = (r, a)
  rounds (suc n) a r =
      let (q, b) = reconcile (server tree uuid order) k8s no_failures a r in rounds n b q.1

  -- The API server holds the resource with a spec, the finalizer of the operator and an id that
  -- the store has the pet of the spec under; any other pet is as in `old`.
  pub record Holds (old : Api tree uuid) (id : String) (s : PetSpec)
      (now : Option PetResource × Api tree uuid) : Type 0 where
    pub pet : PetResource
    pub held : now.0 ≡ some pet
    pub spec : pet.spec ≡ s
    pub has_id : pet.id ≡ id
    pub finalizer : contains pet_finalizer pet.finalizers ≡ true
    pub pets :
        (i : String)
        → lookup i now.1.store.ids
          ≡ (if id == i then some (pet_of id s) else lookup i old.store.ids)

  module _ (order-Perm : (rs : List (List String)) → Perm (order rs) rs)
      (different : (i j : ℕ) → uuid i ≡ uuid j → i ≡ j)
      (proper : (n : ℕ) → is_empty (uuid n) ≡ false) where
    drawn_next :
        (a : Api tree uuid) (s : PetSpec)
        → prepare tree uuid a.drawn (pet_message "" s ∷ [])
          ≡ (ok (pet_of (uuid a.drawn) s ∷ []), suc a.drawn)
        → (Server.add_pets tree uuid a (pet_message "" s ∷ [])).1.drawn ≡ suc a.drawn
    unfolding Server.add_pets
    drawn_next a s e = ground (arith, e)

    pub nobody :
        (a : Api tree uuid)
        → ApiInv tree uuid a
        → (o : Option Pet) → lookup "" a.store.ids ≡ o
        → o ≡ none
    nobody a v none e = refl
    nobody a v (some p) e =
        let (n, l, x) = v.from_draws "" (ground arith) in absurd (cc (ap is_empty x, proper n))

    -- The resource and the server behind a round that finds no pet of the spec under the id.
    abbrev pub made : Api tree uuid → PetResource → Api tree uuid
    made a pet =
        (Server.add_pets tree uuid (searched tree uuid a stream_ok)
          (pet_message "" pet.spec ∷ [])).1

    abbrev pub renewed : Api tree uuid → PetResource → PetResource
    renewed a pet = record (with_finalizer tree uuid k8s pet) { id = uuid a.drawn }

    pub created_normally :
        (a : Api tree uuid) (pet : PetResource)
        → ApiInv tree uuid a
        → IsFree a.store.mu
        → IsSpec pet.spec
        → pet_of_spec pet.spec (lookup pet.id a.store.ids) ≡ none
        → reconcile_normal (server tree uuid order) k8s false a pet
          ≡ ((reconciled, renewed a pet), made a pet)
    unfolding create_or_update pet_of
    created_normally a pet v f h e =
        let c = searched tree uuid a stream_ok in
        let w = searched-ApiInv tree uuid order order-Perm k8s a v in
        let r = with_finalizer tree uuid k8s pet in
        let reply =
          (add_pets_answers tree uuid different c (pet_message "" pet.spec ∷ [])
            (pet_of (uuid a.drawn) pet.spec ∷ []) (suc a.drawn) w f
            (prepared tree uuid a.drawn pet.spec h)).0 in
        normal_lem tree uuid order k8s a pet (pet_of_spec pet.spec (lookup pet.id a.store.ids)) c
          ((reconciled, renewed a pet), made a pet)
          (find_pet_in_store_exact tree uuid order order-Perm a r v.inv f)
          (rw (e, create_or_update) (create_lem tree uuid order c r [] h reply))

    -- Such a round makes a pet.
    pub created :
        (a : Api tree uuid) (pet : PetResource)
        → ApiInv tree uuid a
        → IsFree a.store.mu
        → IsSpec pet.spec
        → pet_of_spec pet.spec (lookup pet.id a.store.ids) ≡ none
        → pet.deleting ≡ false
        → (reconcile (server tree uuid order) k8s no_failures a (some pet)
            ≡ ((reconciled, some (renewed a pet)), made a pet))
          × ApiInv tree uuid (made a pet)
          × IsFree (made a pet).store.mu
          × ((made a pet).drawn ≡ suc a.drawn)
          × ((i : String)
              → lookup i (made a pet).store.ids ≡ (
                  if uuid a.drawn == i
                  then some (pet_of (uuid a.drawn) pet.spec)
                  else lookup i a.store.ids))
    unfolding pet_of
    created a pet v f h e d =
        let c = searched tree uuid a stream_ok in
        let w = searched-ApiInv tree uuid order order-Perm k8s a v in
        let prep = prepared tree uuid a.drawn pet.spec h in
        let (reply, different_ids, after, free) =
          add_pets_answers tree uuid different c (pet_message "" pet.spec ∷ [])
            (pet_of (uuid a.drawn) pet.spec ∷ []) (suc a.drawn) w f prep in
        (
          reconcile_normally tree uuid order order-Perm k8s a (made a pet) pet (renewed a pet) d d
              (created_normally a pet v f h e),
          add_pets-ApiInv tree uuid different c (pet_message "" pet.spec ∷ []) w f,
          free,
          drawn_next c pet.spec prep,
          after,
        )

    again :
        (n : ℕ) (old a : Api tree uuid) (pet : PetResource) (id : String) (s : PetSpec)
        → Settled tree uuid a pet
        → Holds old id s (some pet, a)
        → Holds old id s (rounds n a (some pet))
    unfolding rounds
    again zero old a pet id s t h = h
    again (suc n) old a pet id s t h =
        let (t', same, d) = Settled-again tree uuid order order-Perm k8s a pet t in
        let one =
          reconcile_normally tree uuid order order-Perm k8s a _ pet
            (with_finalizer tree uuid k8s pet) t.kept t.kept
            (normal_again tree uuid order order-Perm k8s a pet t) in
        rw (one, rounds)
          (again n old _ _ id s t' (record {
            pet = with_finalizer tree uuid k8s pet;
            held = refl;
            spec = ground (arith, h.spec, h.held);
            has_id = ground (arith, h.has_id, h.held);
            finalizer = ground (
              arith,
              k8s.contains-add_finalizer pet_finalizer pet_finalizer pet.finalizers,
              beq_self pet_finalizer,
            );
            pets = λ i. same i ∙ h.pets i;
          }))

    -- A new resource, without an id, whose spec the store accepts and whose name trimming does not
    -- change, on a server whose store is well formed, whose ids are drawn ones that are never empty or drawn twice, and whose lock is free;
    -- no call to Kubernetes fails and no connection breaks. After any number of rounds but none, in
    -- whatever order the searches of the server end, the resource has the finalizer, its spec is as
    -- it was, its status has the id that the first round drew, and the store has the pet of the spec
    -- under this id. Every other pet is as it was: no round but the first makes a pet.
    pub reconcile_settles :
        (a : Api tree uuid) (pet : PetResource) (n : ℕ)
        → ApiInv tree uuid a
        → IsFree a.store.mu
        → IsSpec pet.spec
        → IsTrimmed pet.spec
        → pet.id ≡ ""
        → pet.deleting ≡ false
        → Holds a (uuid a.drawn) pet.spec (rounds (suc n) a (some pet))
    unfolding rounds
    reconcile_settles a pet n v f h t e d =
        let unknown : lookup pet.id a.store.ids ≡ none =
          subst (λ i. lookup i a.store.ids ≡ none) (sym e) (nobody a v _ refl) in
        let (first, w, free, drawn, after) =
          created a pet v f h (ap (pet_of_spec pet.spec) unknown) d in
        let settled : Settled tree uuid (made a pet) (renewed a pet) = record {
          inv = w;
          free = free;
          stands = ground (arith, after (uuid a.drawn), beq_self (uuid a.drawn));
          valid = h;
          trimmed = t;
          kept = d;
          has_id = proper a.drawn;
        } in
        rw (first, rounds)
          (again n a (made a pet) (renewed a pet) (uuid a.drawn) pet.spec settled (record {
            pet = renewed a pet;
            held = refl;
            spec = refl;
            has_id = refl;
            finalizer = ground (
              arith,
              k8s.contains-add_finalizer pet_finalizer pet_finalizer pet.finalizers,
              beq_self pet_finalizer,
            );
            pets = after;
          }))
