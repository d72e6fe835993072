-- ===== src/Petstore/Operator/Lost.antt =====
-- How Reconcile of pet_controller.go comes to make pets that no resource has the id of.
use mathlib.Core.List.{Perm}
use gofordevopsclass.Prelude.{
  ℕ, zero, suc, ◌+◌, ◌<◌, String, true, false, if◌then◌else◌, ◌==◌, string_eq, nat_eq, List, none,
  some, ◌≡◌, ◌≢◌, refl, sym, ap, ◌∙◌, subst, arith, beq_self,
}
use gofordevopsclass.Prelude.Text.{trim_space, is_empty}
use gofordevopsclass.GoMap.{lookup}
use gofordevopsclass.Petstore.Pet.{Pet}
use gofordevopsclass.Petstore.Tree.{BirthdayTree}
use gofordevopsclass.Petstore.Mem.Effects.{IsFree}
use gofordevopsclass.Petstore.Server.{Api}
use gofordevopsclass.Petstore.Server.Calls.{ApiInv}
use gofordevopsclass.Petstore.Client.Connected.{server}
use gofordevopsclass.Petstore.Operator.{
  Failures, patch_failed, PetSpec, PetResource, Kubernetes, no_failures, reconciled,
  reconcile_normal, reconcile,
}
use gofordevopsclass.Petstore.Operator.Finds.{pet_of_spec}
use gofordevopsclass.Petstore.Operator.Calls.{IsSpec, pet_of}
use gofordevopsclass.Petstore.Operator.Rounds.{
  nobody, created_normally, rounds, made, renewed, created,
}

module _ (tree : BirthdayTree) (uuid : ℕ → String) (order : List (List String) → List (List String))
    (k8s : Kubernetes) (order-Perm : (rs : List (List String)) → Perm (order rs) rs)
    (different : (i j : ℕ) → uuid i ≡ uuid j → i ≡ j)
    (proper : (n : ℕ) → is_empty (uuid n) ≡ false) where
  -- A pet that was there before a round stays.
  stays :
      (a : Api tree uuid) (pet : PetResource) (i : String) (q : Pet)
      → ApiInv tree uuid a
      → lookup i a.store.ids ≡ some q
      → (if uuid a.drawn == i then some (pet_of (uuid a.drawn) pet.spec) else lookup i a.store.ids)
        ≡ some q
  stays a pet i q v e =
      let (n, l, x) = v.from_draws i (ground arith) in
      ground (arith, string_eq.beq_iff (uuid a.drawn) i, different a.drawn n)

  -- A resource has an id under which the store has a pet of another name, as after a change of the
  -- name in the spec; its spec is one that the store accepts, the store is well formed with drawn
  -- ids, no two draws are the same, and its lock is free. A round of Reconcile, in which nothing
  -- fails, reports success, gives the status a new id, and leaves the old pet in the store.
  pub renamed_spec_orphans :
      (a : Api tree uuid) (pet : PetResource) (q : Pet)
      → ApiInv tree uuid a
      → IsFree a.store.mu
      → IsSpec pet.spec
      → lookup pet.id a.store.ids ≡ some q
      → q.name ≢ pet.spec.name
      → pet.deleting ≡ false
      → let (r, b) = reconcile (server tree uuid order) k8s no_failures a (some pet) in
        (r.0 ≡ reconciled)
        × (r.1 ≡ some (renewed tree uuid order k8s order-Perm different proper a pet))
        × (uuid a.drawn ≢ pet.id)
        × (lookup pet.id b.store.ids ≡ some q)
        × (lookup (uuid a.drawn) b.store.ids ≡ some (pet_of (uuid a.drawn) pet.spec))
  renamed_spec_orphans a pet q v f h e n d =
      let unfit : pet_of_spec pet.spec (lookup pet.id a.store.ids) ≡ none =
        ground (arith, string_eq.beq_iff q.name pet.spec.name) in
      let (first, w, free, drawn, after) =
        created tree uuid order k8s order-Perm different proper a pet v f h unfit d in
      let (m, l, x) = v.from_draws pet.id (ground arith) in
      rw first (
        refl,
        refl,
        λ y. omega (arith, different a.drawn m (y ∙ x)),
        after pet.id ∙ stays a pet pet.id q v e,
        ground (arith, after (uuid a.drawn), beq_self (uuid a.drawn)),
      )

  lost_lem :
      (a b : Api tree uuid) (pet r : PetResource)
      → pet.deleting ≡ false
      → reconcile_normal (server tree uuid order) k8s false a pet ≡ ((reconciled, r), b)
      → reconcile
          (server tree uuid order)
          k8s
          (record no_failures { patch_fails = true })
          a
          (some pet)
        ≡ ((patch_failed, some pet), b)
  unfolding reconcile
  lost_lem a b pet r d e = ground (arith, d, e)

  -- A new resource with a spec that the store accepts, in a round in which nothing fails but the
  -- patch of the resource, over a well-formed store with drawn ids, no two draws being the same,
  -- and a free lock: the resource keeps no id, and the round behind it, in which nothing fails,
  -- makes a second pet. The first one stays, and the status has the id of the second.
  pub lost_patch_duplicates :
      (a : Api tree uuid) (pet : PetResource)
      → ApiInv tree uuid a
      → IsFree a.store.mu
      → IsSpec pet.spec
      → pet.id ≡ ""
      → pet.deleting ≡ false
      → let lost : Failures = record no_failures { patch_fails = true } in
        let (r, b) = reconcile (server tree uuid order) k8s lost a (some pet) in
        let (s, c) = reconcile (server tree uuid order) k8s no_failures b (some pet) in
        (r ≡ (patch_failed, some pet))
        × (s.0 ≡ reconciled)
        × (lookup (uuid a.drawn) c.store.ids ≡ some (pet_of (uuid a.drawn) pet.spec))
        × (lookup (uuid (suc a.drawn)) c.store.ids ≡ some (pet_of (uuid (suc a.drawn)) pet.spec))
  lost_patch_duplicates a pet v f h e d =
      let make = created tree uuid order k8s order-Perm different proper in
      let none_yet = nobody tree uuid order k8s order-Perm different proper in
      let unknown : (c : Api tree uuid) → ApiInv tree uuid c → lookup pet.id c.store.ids ≡ none =
        λ c w. subst (λ i. lookup i c.store.ids ≡ none) (sym e) (none_yet c w _ refl) in
      let unfit = ap (pet_of_spec pet.spec) (unknown a v) in
      let b = made tree uuid order k8s order-Perm different proper a pet in
      let (first, w, free, drawn, after) = make a pet v f h unfit d in
      let (second, x, free', drawn', after') =
        make b pet w free h (ap (pet_of_spec pet.spec) (unknown b w)) d in
      let normal =
        created_normally tree uuid order k8s order-Perm different proper a pet v f h unfit in
      let kept : lookup (uuid a.drawn) b.store.ids ≡ some (pet_of (uuid a.drawn) pet.spec) =
        ground (arith, after (uuid a.drawn), beq_self (uuid a.drawn)) in
      rw (lost_lem a b pet _ d normal, second)
        (
          refl,
          refl,
          after' (uuid a.drawn) ∙ stays b pet (uuid a.drawn) _ w kept,
          subst
              (λ m.
                lookup (uuid m)
                  (made tree uuid order k8s order-Perm different proper b pet).store.ids
                ≡ some (pet_of (uuid m) pet.spec))
              drawn (ground (arith, after' (uuid b.drawn), beq_self (uuid b.drawn))),
        )

  unfit_again :
      (id : String) (s : PetSpec)
      → trim_space s.name ≢ s.name
      → pet_of_spec s (some (pet_of id s)) ≡ none
  unfolding pet_of
  unfit_again id s t = ground (arith, string_eq.beq_iff (trim_space s.name) s.name)

  -- Everything that was in the store is still there, and each round has made a pet.
  abbrev Multiplied : ℕ → Api tree uuid → PetSpec → Api tree uuid → Type 0
  Multiplied n a s b =
      ((i : String) (q : Pet) → lookup i a.store.ids ≡ some q → lookup i b.store.ids ≡ some q)
      × ((k : ℕ)
          → k < n
          → lookup (uuid (a.drawn + k)) b.store.ids ≡ some (pet_of (uuid (a.drawn + k)) s))

  one_more :
      (n : ℕ) (a b c : Api tree uuid) (s : PetSpec)
      → b.drawn ≡ suc a.drawn
      → ((i : String) (q : Pet) → lookup i a.store.ids ≡ some q → lookup i b.store.ids ≡ some q)
      → lookup (uuid a.drawn) b.store.ids ≡ some (pet_of (uuid a.drawn) s)
      → Multiplied n b s c
      → Multiplied (suc n) a s c
  one_more n a b c s d keep new m = (λ i q x. m.0 i q (keep i q x), counted)
    where
      counted :
          (k : ℕ)
          → k < suc n
          → lookup (uuid (a.drawn + k)) c.store.ids ≡ some (pet_of (uuid (a.drawn + k)) s)
      counted zero l =
          subst (λ j. lookup (uuid j) c.store.ids ≡ some (pet_of (uuid j) s)) (omega arith)
            (m.0 (uuid a.drawn) _ new)
      counted (suc k) l =
          subst (λ j. lookup (uuid j) c.store.ids ≡ some (pet_of (uuid j) s)) (omega (arith, d))
            (m.1 k (omega arith))

  multiplied :
      (n : ℕ) (a : Api tree uuid) (pet : PetResource)
      → ApiInv tree uuid a
      → IsFree a.store.mu
      → IsSpec pet.spec
      → trim_space pet.spec.name ≢ pet.spec.name
      → pet_of_spec pet.spec (lookup pet.id a.store.ids) ≡ none
      → pet.deleting ≡ false
      → Multiplied n a pet.spec (rounds tree uuid order k8s n a (some pet)).1
  unfolding rounds
  multiplied zero a pet v f h t e d = (λ i q x. x, λ k l. absurd (omega arith))
  multiplied (suc n) a pet v f h t e d =
      let b = made tree uuid order k8s order-Perm different proper a pet in
      let r = renewed tree uuid order k8s order-Perm different proper a pet in
      let (first, w, free, drawn, after) =
        created tree uuid order k8s order-Perm different proper a pet v f h e d in
      let new : lookup (uuid a.drawn) b.store.ids ≡ some (pet_of (uuid a.drawn) pet.spec) =
        ground (arith, after (uuid a.drawn), beq_self (uuid a.drawn)) in
      let unfit : pet_of_spec r.spec (lookup r.id b.store.ids) ≡ none =
        ap (pet_of_spec pet.spec) new ∙ unfit_again (uuid a.drawn) pet.spec t in
      rw (first, rounds)
        (one_more n a b (rounds tree uuid order k8s n b (some r)).1 pet.spec drawn
          (λ i q x. after i ∙ stays a pet i q v x) new (multiplied n b r w free h t unfit d))

  -- A resource whose spec has a name that the store accepts but trims, and whose id the store does
  -- not know, over a well-formed store with drawn ids, no two draws being the same, and a free
  -- lock: each of any number of rounds in which nothing fails makes one more pet of the spec, and
  -- all of them stay.
  pub untrimmed_multiplies :
      (n : ℕ) (a : Api tree uuid) (pet : PetResource)
      → ApiInv tree uuid a
      → IsFree a.store.mu
      → IsSpec pet.spec
      → trim_space pet.spec.name ≢ pet.spec.name
      → pet_of_spec pet.spec (lookup pet.id a.store.ids) ≡ none
      → pet.deleting ≡ false
      → (k : ℕ) → k < n
      → lookup (uuid (a.drawn + k)) (rounds tree uuid order k8s n a (some pet)).1.store.ids
        ≡ some (pet_of (uuid (a.drawn + k)) pet.spec)
  untrimmed_multiplies n a pet v f h t e d = (multiplied n a pet v f h t e d).1
