-- ===== src/Petstore/Server/Ids.antt =====
-- The handlers of server.go keep the store well formed, with ids that the server drew.
use gofordevopsclass.Prelude.{
  ℕ, suc, ◌+◌, ◌≤◌, ◌<◌, String, true, false, ◌==◌, string_eq, List, [], ◌∷◌, Option, some, is_some,
  length, Bool-cases, ◌≡◌, refl, sym, ap, ◌∙◌, subst, ◌⊎◌, inl, inr, arith, beq-eq,
}
use gofordevopsclass.GoMap.{lookup}
use gofordevopsclass.Petstore.Pet.{
  already_present, doesnt_exist, PetMsg, Pet, Returned, ok, err, panic,
}
use gofordevopsclass.Petstore.Tree.{BirthdayTree}
use gofordevopsclass.Petstore.Mem.{Data, Outcome}
use gofordevopsclass.Petstore.Mem.Invariant.{KeepKeys}
use gofordevopsclass.Petstore.Mem.View.{Pets}
use gofordevopsclass.Petstore.Mem.Writes.{add_pets-Inv, update_pets-Inv, delete_pets-Inv}
use gofordevopsclass.Petstore.Mem.Effects.{
  IsFree, AllAre, latest, Written, add_pets-Written, update_pets-Written, delete_pets_exact,
}
use gofordevopsclass.Petstore.Server.{
  Api, prepare, validate_all, add_pets, update_pets, delete_pets,
}
use gofordevopsclass.Petstore.Server.Calls.{
  ApiInv, AreDrawn, Prepared, prepare-Prepared, drawn-IsDistinct,
}

-- The ids of a list of pets, when they stand in the store before, are in it behind as well.
latest_known :
    (ids : Pets) (id : String) (ps : List Pet) (o : Option Pet)
    → AllAre true ids ps
    → (is_some o ≡ true → is_some (lookup id ids) ≡ true)
    → is_some (latest id ps o) ≡ true
    → is_some (lookup id ids) ≡ true
latest_known ids id [] o h k e = k e
latest_known ids id (p ∷ ps) o h k e = elim (Bool-cases (p.id == id)) [
  | inl x ↦
      let same : p.id ≡ id = beq-eq p.id id x in
      latest_known ids id ps (some p) h.1 (λ y. ground (arith, h.0)) (ground arith)
  | inr x ↦ latest_known ids id ps o h.1 k (ground arith)
]

module _ (tree : BirthdayTree) (uuid : ℕ → String) where
  abbrev DrawnBelow : ℕ → String → Type 0
  DrawnBelow m id = (n : ℕ) × (n < m) × (id ≡ uuid n)

  latest_drawn :
      (n : ℕ) (id : String) (ps : List Pet) (o : Option Pet)
      → AreDrawn tree uuid n ps
      → is_some (latest id ps o) ≡ true
      → DrawnBelow (n + length ps) id ⊎ (is_some o ≡ true)
  latest_drawn n id [] o h e = inr e
  latest_drawn n id (p ∷ ps) o h e = elim (Bool-cases (p.id == id)) [
    | inl x ↦ inl (n, omega arith, sym (beq-eq p.id id x) ∙ h.0)
    | inr x ↦ elim (latest_drawn (suc n) id ps o h.1 (ground arith)) [
      | inl (k, l, w) ↦ inl (k, omega arith, w)
      | inr y ↦ inr y
    ]
  ]

  -- Draws that come later keep what was drawn before.
  later :
      (a : Api tree uuid) (m : ℕ) (id : String)
      → ApiInv tree uuid a
      → a.drawn ≤ m
      → is_some (lookup id a.store.ids) ≡ true
      → DrawnBelow m id
  later a m id v l h = let (n, x, y) = v.from_draws id h in (n, omega arith, y)

  module _ (different : (i j : ℕ) → uuid i ≡ uuid j → i ≡ j) where
    added_from_draws :
        (a : Api tree uuid) (ps : List Pet) (o : Outcome (Unit {0})) (d : Data tree)
        → ApiInv tree uuid a
        → AreDrawn tree uuid a.drawn ps
        → Written tree (λ p. already_present p.id) true a.store ps (o, d)
        → (id : String) → is_some (lookup id d.ids) ≡ true
        → DrawnBelow (a.drawn + length ps) id
    added_from_draws a ps o d v h (inl w) id e =
        elim (latest_drawn a.drawn id ps (lookup id a.store.ids) h (ground (arith, w.2 id))) [
          | inl x ↦ x
          | inr x ↦ later a _ id v (omega arith) x
        ]
    added_from_draws a ps o d v h (inr (p, x, y, z)) id e =
        later a _ id v (omega arith) (ground (arith, z))

    -- AddPets of any messages, on a free lock, keeps the store well formed and every id in it a
    -- drawn one, if no two draws give the same id.
    pub add_pets-ApiInv :
        (a : Api tree uuid) (ms : List PetMsg)
        → ApiInv tree uuid a
        → IsFree a.store.mu
        → ApiInv tree uuid (add_pets tree uuid a ms).1
    unfolding add_pets
    add_pets-ApiInv a ms v f =
        go (prepare tree uuid a.drawn ms) refl (prepare-Prepared tree uuid a.drawn ms)
      where
        go :
            (r : Returned (List Pet) × ℕ)
            → prepare tree uuid a.drawn ms ≡ r
            → Prepared tree uuid a.drawn (prepare tree uuid a.drawn ms)
            → ApiInv tree uuid (add_pets tree uuid a ms).1
        go (ok ps, n) x y =
            let d = subst (Prepared tree uuid a.drawn) x y in
            rw (x, add_pets)
              (record {
                inv =
                    add_pets-Inv tree a.store ps v.inv
                      (drawn-IsDistinct tree uuid different a.drawn ps d.0);
                from_draws = λ id e.
                    subst (λ m. DrawnBelow m id) (sym d.1 ∙ sym (ap (λ z. z.1) x))
                      (added_from_draws a ps _ _ v d.0 (add_pets-Written tree a.store ps f) id e);
              })
        go (err e, n) x y =
            let d = subst (Prepared tree uuid a.drawn) x y in
            rw (x, add_pets)
              (record {
                inv = v.inv;
                from_draws = λ id. later a _ id v (ground (arith, d, ap (λ z. z.1) x));
              })
        go (panic, n) x y =
            let d = subst (Prepared tree uuid a.drawn) x y in
            rw (x, add_pets)
              (record {
                inv = v.inv;
                from_draws = λ id. later a _ id v (ground (arith, d, ap (λ z. z.1) x));
              })

  updated_from_draws :
      (a : Api tree uuid) (ps : List Pet) (o : Outcome (Unit {0})) (d : Data tree)
      → ApiInv tree uuid a
      → Written tree (λ p. doesnt_exist p.id) false a.store ps (o, d)
      → (id : String) → is_some (lookup id d.ids) ≡ true
      → DrawnBelow a.drawn id
  updated_from_draws a ps o d v (inl w) id e =
      v.from_draws id (
        latest_known a.store.ids id ps (lookup id a.store.ids) w.1 (λ y. y)
          (ground (arith, w.2 id)))
  updated_from_draws a ps o d v (inr (p, x, y, z)) id e = v.from_draws id (ground (arith, z))

  -- So does UpdatePets, if the messages that pass keep the name, the type and the birthday of the
  -- pets that they replace.
  pub update_pets-ApiInv :
      (a : Api tree uuid) (ms : List PetMsg)
      → ApiInv tree uuid a
      → IsFree a.store.mu
      → ((ps : List Pet) → validate_all tree uuid ms ≡ ok ps → KeepKeys a.store.ids ps)
      → ApiInv tree uuid (update_pets tree uuid a ms).1
  unfolding update_pets
  update_pets-ApiInv a ms v f k = go (validate_all tree uuid ms) refl
    where
      go :
          (r : Returned (List Pet))
          → validate_all tree uuid ms ≡ r
          → ApiInv tree uuid (update_pets tree uuid a ms).1
      go (ok ps) x =
          rw (x, update_pets)
            (record {
              inv = update_pets-Inv tree a.store ps v.inv (k ps x);
              from_draws = updated_from_draws a ps _ _ v (update_pets-Written tree a.store ps f);
            })
      go (err e) x = rw (x, update_pets) (record { inv = v.inv; from_draws = v.from_draws })
      go panic x = rw (x, update_pets) (record { inv = v.inv; from_draws = v.from_draws })

  -- And DeletePets, of any ids.
  pub delete_pets-ApiInv :
      (a : Api tree uuid) (ids : List String)
      → ApiInv tree uuid a
      → IsFree a.store.mu
      → ApiInv tree uuid (delete_pets tree uuid a ids).1
  unfolding delete_pets
  delete_pets-ApiInv a ids v f =
      let (x, left, y) = delete_pets_exact tree a.store ids f in
      record {
        inv = delete_pets-Inv tree a.store ids v.inv;
        from_draws = λ id e. v.from_draws id (ground (arith, left id));
      }
