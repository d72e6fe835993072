-- ===== src/Petstore/Server/Calls.antt =====
-- What clients can rely on in the handlers of server.go, and one call after which nothing works.
use gofordevopsclass.Prelude.{
  ℕ, suc, ◌+◌, ◌≤◌, ◌<◌, String, true, false, ◌==◌, string_eq, List, [], ◌∷◌, Option, none, some,
  is_some, count, length, Bool-cases, IsDistinct, ◌≡◌, ◌≢◌, refl, sym, ◌∙◌, subst, inl, inr, arith,
  beq-eq,
}
use gofordevopsclass.GoMap.{lookup}
use gofordevopsclass.Petstore.Pet.{PetMsg, Pet, Returned, ok, err, panic, doesnt_exist}
use gofordevopsclass.Petstore.Validate.{validate_pet}
use gofordevopsclass.Petstore.Tree.{BirthdayTree}
use gofordevopsclass.Petstore.Mem.{Data, Outcome, done, failed, blocked, find_present, pet_ids}
use gofordevopsclass.Petstore.Mem
use gofordevopsclass.Petstore.Mem.Invariant.{Inv}
use gofordevopsclass.Petstore.Mem.Writes.{AreNew, AreNew-find_present}
use gofordevopsclass.Petstore.Mem.Effects.{
  IsFree, latest, add_pets-Written, add_pets-done, update_pets_unknown, IsLeaky, call-IsLeaky, adds,
  call,
}
use gofordevopsclass.Petstore.Server.{
  Api, resp, internal, prepare, with_pet, add_pets, update_pets, stored,
}

module _ (tree : BirthdayTree) (uuid : ℕ → String) where
  -- The store is well formed, and every id in it was drawn by an earlier AddPets.
  pub record ApiInv (a : Api tree uuid) : Type 0 where
    pub inv : Inv tree a.store
    pub from_draws :
        (id : String)
        → is_some (lookup id a.store.ids) ≡ true
        → (n : ℕ) × (n < a.drawn) × (id ≡ uuid n)

  -- The ids of the pets are the draws from `n` on.
  abbrev pub AreDrawn : ℕ → List Pet → Type 0
  AreDrawn n [] = Unit {0}
  AreDrawn n (p ∷ ps) = (p.id ≡ uuid n) × AreDrawn (suc n) ps

  abbrev pub Prepared : ℕ → Returned (List Pet) × ℕ → Type 0
  Prepared n (ok ps, m) = AreDrawn n ps × (m ≡ n + length ps)
  Prepared n (err e, m) = n ≤ m
  Prepared n (panic, m) = n ≤ m

  with_pet-Prepared :
      (n : ℕ) (p : Pet) (r : Returned (List Pet) × ℕ)
      → p.id ≡ uuid n
      → Prepared (suc n) r
      → Prepared n (with_pet tree uuid p r)
  with_pet-Prepared n p (ok ps, m) e h = ((e, h.0), omega (arith, h.1))
  with_pet-Prepared n p (err x, m) e h = omega arith
  with_pet-Prepared n p (panic, m) e h = omega arith

  pub prepare-Prepared : (n : ℕ) (ms : List PetMsg) → Prepared n (prepare tree uuid n ms)
  unfolding prepare
  prepare-Prepared n [] = (tt, omega arith)
  prepare-Prepared n (m ∷ ms) = go (validate_pet m false) refl (prepare-Prepared (suc n) ms)
    where
      go :
          (r : Returned Pet)
          → validate_pet m false ≡ r
          → Prepared (suc n) (prepare tree uuid (suc n) ms)
          → Prepared n (prepare tree uuid n (m ∷ ms))
      go (ok q) x rest =
          rw (x, prepare) (with_pet-Prepared n (record q { id = uuid n }) _ refl rest)
      go (err e) x rest = rw (x, prepare) (omega arith)
      go panic x rest = rw (x, prepare) (omega arith)

  module _ (different : (i j : ℕ) → uuid i ≡ uuid j → i ≡ j) where
    drawn_below :
        (k n : ℕ) (ps : List Pet) → AreDrawn n ps → k < n → count (uuid k) (pet_ids ps) ≡ 0
    drawn_below k n [] h l = refl
    drawn_below k n (p ∷ ps) h l =
        ground (arith, drawn_below k (suc n) ps h.1, different k n, string_eq.beq_iff p.id (uuid k))

    pub drawn-IsDistinct : (n : ℕ) (ps : List Pet) → AreDrawn n ps → IsDistinct (pet_ids ps)
    drawn-IsDistinct n [] h a = omega arith
    drawn-IsDistinct n (p ∷ ps) h a = elim (Bool-cases (p.id == a)) [
      | inl x ↦
          let same : a ≡ uuid n = sym (beq-eq p.id a x) ∙ h.0 in
          let none_later : count a (pet_ids ps) ≡ 0 =
            subst (λ b. count b (pet_ids ps) ≡ 0) (sym same)
              (drawn_below n (suc n) ps h.1 (omega arith)) in
          ground (arith, none_later)
      | inr x ↦ rw x (omega (arith, drawn-IsDistinct (suc n) ps h.1 a))
    ]

    drawn-AreNew :
        (a : Api tree uuid) (n : ℕ) (ps : List Pet)
        → ApiInv a
        → a.drawn ≤ n
        → AreDrawn n ps
        → AreNew a.store.ids ps
    drawn-AreNew a n [] v l h = tt
    drawn-AreNew a n (p ∷ ps) v l h =
        (fresh (lookup p.id a.store.ids) refl, drawn-AreNew a (suc n) ps v (omega arith) h.1)
      where
        fresh : (o : Option Pet) → lookup p.id a.store.ids ≡ o → lookup p.id a.store.ids ≡ none
        fresh none x = x
        fresh (some q) x =
            let (k, l', e) = v.from_draws p.id (ground arith) in
            absurd (omega (arith, different k n (sym e ∙ h.0)))

    -- AddPets of messages that pass validation, where no two draws give the same id, on a server
    -- whose store is well formed and holds drawn ids only, and whose lock is free: it answers with
    -- the ids that it drew, which are all different, stores each pet under its own, keeps every
    -- other pet, and gives the lock back.
    pub add_pets_answers :
        (a : Api tree uuid) (ms : List PetMsg) (ps : List Pet) (n : ℕ)
        → ApiInv a
        → IsFree a.store.mu
        → prepare tree uuid a.drawn ms ≡ (ok ps, n)
        → let (r, a') = add_pets tree uuid a ms in
          (r ≡ resp (pet_ids ps))
          × IsDistinct (pet_ids ps)
          × ((id : String) → lookup id a'.store.ids ≡ latest id ps (lookup id a.store.ids))
          × IsFree a'.store.mu
    unfolding add_pets
    add_pets_answers a ms ps n v f e =
        let drawn = subst (Prepared a.drawn) e (prepare-Prepared a.drawn ms) in
        let new = drawn-AreNew a a.drawn ps v (omega arith) drawn.0 in
        elim (add_pets-Written tree a.store ps f) [
          | inl w ↦ rw (e, add_pets) (rw w.0 refl, drawn-IsDistinct a.drawn ps drawn.0, w.2, w.3)
          | inr (p, x, y, z) ↦
              absurd
                (cc (x, add_pets-done tree a.store ps f (AreNew-find_present a.store.ids ps new)))
        ]

  leaky_add :
      (a : Api tree uuid) (ms : List PetMsg) (ps : List Pet) (n : ℕ)
      → IsLeaky tree a.store
      → prepare tree uuid a.drawn ms ≡ (ok ps, n)
      → (add_pets tree uuid a ms).0 ≢ resp (pet_ids ps)
  unfolding add_pets call
  leaky_add a ms ps n l e =
      rw (e, add_pets)
        (not_stored (Mem.add_pets tree a.store ps).0 (call-IsLeaky tree a.store (adds ps) l).1)
    where
      not_stored :
          (o : Outcome (Unit {0}))
          → o ≢ done tt
          → stored tree uuid (pet_ids ps) o ≢ resp (pet_ids ps)
      not_stored (done tt) h r = h refl
      not_stored (failed x) h r = cc
      not_stored blocked h r = cc

  -- UpdatePets, on a free lock, of one pet that passes validation and is not in the store: the
  -- client is told that it does not exist, and AddPets of messages that pass validation is then
  -- not answered with their ids.
  pub unknown_update_jams :
      (a : Api tree uuid) (m : PetMsg) (q : Pet) (ms : List PetMsg) (ps : List Pet) (n : ℕ)
      → IsFree a.store.mu
      → validate_pet m true ≡ ok q
      → lookup q.id a.store.ids ≡ none
      → prepare tree uuid a.drawn ms ≡ (ok ps, n)
      → let (r, a') = update_pets tree uuid a (m ∷ []) in
        (r ≡ internal (doesnt_exist q.id)) × ((add_pets tree uuid a' ms).0 ≢ resp (pet_ids ps))
  unfolding update_pets
  unknown_update_jams a m q ms ps n f e x g =
      let (u, w) = update_pets_unknown tree a.store q f x in
      rw (e, update_pets) (rw u refl, leaky_add _ ms ps n w g)
