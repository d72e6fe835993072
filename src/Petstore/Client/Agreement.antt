-- ===== src/Petstore/Client/Agreement.antt =====
-- What the checks of client.go change for its caller, and what asking for a trace does.
use gofordevopsclass.Prelude.{
  ℕ, suc, String, Bool, true, false, List, [], ◌∷◌, none, some, ◌≡◌, refl, sym, subst, ◌∙◌, ap,
  arith,
}
use gofordevopsclass.Prelude.Text.{trim_space-twice}
use gofordevopsclass.Petstore.Pet.{PetMsg, Pet, StorageError, Returned, ok, err, panic}
use gofordevopsclass.Petstore.Validate.{validate_pet, validate_rest}
use gofordevopsclass.Petstore.Tree.{BirthdayTree}
use gofordevopsclass.Petstore.Mem.{Outcome, done, failed, blocked}
use gofordevopsclass.Petstore.Server.{
  Api, SearchMsg, Reply, resp, invalid_argument, internal, crashed, no_answer, prepare, with_pet,
  validate_all, stored,
}
use gofordevopsclass.Petstore.Server
use gofordevopsclass.Petstore.Client.{
  Service, Answer, got, refused, status_internal, client_panics, waits, answer_of, CallOption,
  traced, handle_call_options, validated, with_options, add_pets, update_pets, delete_pets,
  search_pets, search_panics,
}
use gofordevopsclass.Petstore.Client.Connected.{server}
use gofordevopsclass.Petstore.Sampler.{
  Child, Sampler, SamplerMsg, validate, change_panics, client_change_sampler,
}

-- A message that passes still passes with its name trimmed, as the same pet.
pub validate_pet-trimmed :
    (m : PetMsg) (u : Bool) (q : Pet)
    → validate_pet m u ≡ ok q
    → validate_pet (record m { name = q.name }) u ≡ ok q
unfolding validate_pet validate_rest
validate_pet-trimmed m u q h = ground (arith, trim_space-twice m.name)

-- What is left of a reply and of the new state of the server when the caller's own client has made
-- the check: a refusal and the panic of a nil birthday happen at the client, and the server is
-- not called.
abbrev pub at_client {ℓ κ} : {A : Type ℓ} {S : Type κ} → S → Reply A × S → Answer A × S
at_client s (resp a, t) = (got a, t)
at_client s (invalid_argument e, t) = (refused e, s)
at_client s (internal e, t) = (status_internal e, t)
at_client s (crashed, t) = (client_panics, s)
at_client s (no_answer, t) = (waits, t)

module _ (uuid : ℕ → String) (tree : BirthdayTree) where
  -- The two checks of the same messages, the client's and the server's.
  abbrev SameAdd : Returned (List PetMsg) → ℕ → List PetMsg → Type 0
  SameAdd (ok qs) n ms =
      (prepare tree uuid n qs ≡ prepare tree uuid n ms)
      × ((ps : List Pet) × ((prepare tree uuid n ms).0 ≡ ok ps))
  SameAdd (err e) n ms = (prepare tree uuid n ms).0 ≡ err e
  SameAdd panic n ms = (prepare tree uuid n ms).0 ≡ panic

  prepare_step :
      (n : ℕ) (m : PetMsg) (ms : List PetMsg) (q : Pet)
      → validate_pet m false ≡ ok q
      → (v : Returned (List PetMsg)) → validated false ms ≡ v
      → SameAdd v (suc n) ms
      → SameAdd (validated false (m ∷ ms)) n (m ∷ ms)
  unfolding validated prepare
  prepare_step n m ms q x (ok qs) y ih =
      let same : prepare tree uuid n (record m { name = q.name } ∷ qs)
          ≡ prepare tree uuid n (m ∷ ms) =
        ground (arith, validate_pet-trimmed m false q x, ih.0) in
      rw (x, y, validated) (same, (record q { id = uuid n } ∷ ih.1.0, ground (arith, ih.1.1)))
  prepare_step n m ms q x (err e) y ih = rw (x, y, validated) (ground (arith, ih))
  prepare_step n m ms q x panic y ih = rw (x, y, validated) (ground (arith, ih))

  prepare_same : (n : ℕ) (ms : List PetMsg) → SameAdd (validated false ms) n ms
  unfolding validated prepare
  prepare_same n [] = (refl, ([], refl))
  prepare_same n (m ∷ ms) = go (validate_pet m false) refl (prepare_same (suc n) ms)
    where
      go :
          (r : Returned Pet)
          → validate_pet m false ≡ r
          → SameAdd (validated false ms) (suc n) ms
          → SameAdd (validated false (m ∷ ms)) n (m ∷ ms)
      go (ok q) x rest = prepare_step n m ms q x (validated false ms) refl rest
      go (err e) x rest = rw (x, validated) (ground arith)
      go panic x rest = rw (x, validated) (ground arith)

  -- A reply of the store is neither a refusal nor a panic of the check.
  stored-at_client :
      (a t : Api tree uuid) (ids : List String) (o : Outcome (Unit {0}))
      → at_client a (stored tree uuid ids o, t) ≡ (answer_of (stored tree uuid ids o), t)
  unfolding answer_of
  stored-at_client a t ids (done u) = refl
  stored-at_client a t ids (failed e) = refl
  stored-at_client a t ids blocked = refl

  add_stored :
      (a : Api tree uuid) (ms : List PetMsg) (ps : List Pet)
      → (prepare tree uuid a.drawn ms).0 ≡ ok ps
      → at_client a (Server.add_pets tree uuid a ms)
        ≡ (answer_of (Server.add_pets tree uuid a ms).0, (Server.add_pets tree uuid a ms).1)
  unfolding Server.add_pets
  add_stored a ms ps e = rw (e, Server.add_pets) (stored-at_client a _ _ _)

  add_refused :
      (a : Api tree uuid) (ms : List PetMsg) (e : StorageError)
      → (prepare tree uuid a.drawn ms).0 ≡ err e
      → at_client a (Server.add_pets tree uuid a ms) ≡ (refused e, a)
  unfolding Server.add_pets
  add_refused a ms e x = rw (x, Server.add_pets) refl

  add_panics :
      (a : Api tree uuid) (ms : List PetMsg)
      → (prepare tree uuid a.drawn ms).0 ≡ panic
      → at_client a (Server.add_pets tree uuid a ms) ≡ (client_panics, a)
  unfolding Server.add_pets
  add_panics a ms x = rw (x, Server.add_pets) refl

  add_same :
      (a : Api tree uuid) (ms qs : List PetMsg)
      → prepare tree uuid a.drawn qs ≡ prepare tree uuid a.drawn ms
      → Server.add_pets tree uuid a qs ≡ Server.add_pets tree uuid a ms
  unfolding Server.add_pets
  add_same a ms qs e = ground (arith, e)

  module _ (order : List (List String) → List (List String)) where
    untraced :
        (options : List CallOption) (r : Reply (List String) × Api tree uuid) (a : Api tree uuid)
        → traced none options ≡ none
        → with_options (server tree uuid order) options r a ≡ (answer_of r.0, r.1)
    unfolding with_options handle_call_options
    untraced options r a h = rw (h, with_options, handle_call_options) refl

    -- AddPets of the client, of at least one pet and without a trace, and AddPets of the server,
    -- of the pets as the caller gave them, do the same, but that the client makes the check itself:
    -- it refuses with the error that the server would give, or panics where the server would, and
    -- then the server is not called.
    pub add_pets_agrees :
        (a : Api tree uuid) (m : PetMsg) (ms : List PetMsg) (options : List CallOption)
        → traced none options ≡ none
        → add_pets (server tree uuid order) a (m ∷ ms) options
          ≡ at_client a (Server.add_pets tree uuid a (m ∷ ms))
    unfolding add_pets
    add_pets_agrees a m ms options h =
        go (validated false (m ∷ ms)) refl (prepare_same a.drawn (m ∷ ms))
      where
        go :
            (v : Returned (List PetMsg))
            → validated false (m ∷ ms) ≡ v
            → SameAdd (validated false (m ∷ ms)) a.drawn (m ∷ ms)
            → add_pets (server tree uuid order) a (m ∷ ms) options
              ≡ at_client a (Server.add_pets tree uuid a (m ∷ ms))
        go (ok qs) x y =
            let y2 = subst (λ v. SameAdd v a.drawn (m ∷ ms)) x y in
            rw (x, add_pets)
              (untraced options _ a h
                ∙ (ap (λ z. (answer_of z.0, z.1)) (add_same a (m ∷ ms) qs y2.0)
                    ∙ sym (add_stored a (m ∷ ms) y2.1.0 y2.1.1)))
        go (err e) x y =
            rw (x, add_pets)
              (sym (add_refused a (m ∷ ms) e (subst (λ v. SameAdd v a.drawn (m ∷ ms)) x y)))
        go panic x y =
            rw (x, add_pets)
              (sym (add_panics a (m ∷ ms) (subst (λ v. SameAdd v a.drawn (m ∷ ms)) x y)))

module _ {ℓ} {S : Type ℓ} (svc : Service S) (Float64 : Type 0) (le_zero gt_one : Float64 → Bool)
    (never_sample always_sample : Child) (ratio_based : Float64 → Child) where
  -- Every call of the client that asks for a trace, and would go to the server, panics instead: the
  -- header that handleCallOptions writes to is nil. These are AddPets, UpdatePets, DeletePets,
  -- SearchPets and ChangeSampler, of arguments that pass their checks. The server is not called.
  pub traced_calls_panic :
      (s : S) (options : List CallOption) (to : ℕ) (adds new updates : List PetMsg) (m u : PetMsg)
      (i : String) (ids : List String) (f : SearchMsg) (old : List PetMsg) (sampler : Sampler)
      (change : SamplerMsg Float64 le_zero gt_one)
      → traced none options ≡ some to
      → validated false (m ∷ adds) ≡ ok new
      → validated true (u ∷ updates) ≡ ok old
      → validate Float64 le_zero gt_one change ≡ true
      → (add_pets svc s (m ∷ adds) options ≡ (client_panics, s))
        × (update_pets svc s (u ∷ updates) options ≡ (client_panics, s))
        × (delete_pets svc s (i ∷ ids) options ≡ (client_panics, s))
        × (search_pets svc s (some f) options ≡ (search_panics, s))
        × (client_change_sampler Float64 le_zero gt_one never_sample always_sample ratio_based
              sampler change options
            ≡ change_panics)
  unfolding add_pets update_pets delete_pets search_pets client_change_sampler with_options
      handle_call_options
  traced_calls_panic s options to adds new updates m u i ids f old sampler change t a b c =
      ground arith
