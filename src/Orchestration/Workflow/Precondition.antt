-- ===== src/Orchestration/Workflow/Precondition.antt =====
-- What checkLBState and the canaries of orchestration/workflow/workflow.go establish.
use gofordevopsclass.Prelude.{
  suc, ◌≤◌, ◌<◌, String, Bool, true, false, ◌==◌, string_eq, beq_self, beq-eq, nat_beq,
  if◌then◌else◌, length, count, contains, IsDistinct, List, [], ◌∷◌, Option, none, some, ◌≡◌, ◌⊎◌,
  inl, inr, refl, arith, Bool-cases, subst, sym, Eq,
}
use gofordevopsclass.Prelude.Int.{ℤ}
use gofordevopsclass.Orchestration.Config.{Config}
use gofordevopsclass.Orchestration.Workflow.{
  PoolStatus, ps_unknown, ps_empty, ps_full, ps_degraded, PoolHealth, all_configured,
  check_lb_state,
}

module _ {ℓ} {A : Type ℓ} ⦃e : Eq A⦄ where
  -- The list without the first occurrence of x.
  abbrev without : A → List A → List A
  without x [] = []
  without x (y ∷ ys) = if y == x then ys else y ∷ without x ys

  length-without :
      (x : A) (ys : List A) → contains x ys ≡ true → suc (length (without x ys)) ≡ length ys
  length-without x [] h = ground arith
  length-without x (y ∷ ys) h = elim (Bool-cases (y == x)) [
    | inl q ↦ ground arith
    | inr q ↦ ground (arith, length-without x ys)
  ]

  contains-without :
      (x z : A) (ys : List A)
      → (x == z) ≡ false
      → contains z ys ≡ true
      → contains z (without x ys) ≡ true
  contains-without x z [] n h = h
  contains-without x z (y ∷ ys) n h = elim (Bool-cases (y == x)) [
    | inl q ↦ ground (arith, subst (λ t. (t == z) ≡ false) (sym (beq-eq y x q)) n)
    | inr q ↦ ground (arith, contains-without x z ys n)
  ]

  count-contains : (x : A) (ys : List A) → contains x ys ≡ true → 0 < count x ys
  count-contains x [] h = ground arith
  count-contains x (y ∷ ys) h = ground (arith, count-contains x ys)

  head_apart :
      (z w : A) (xs : List A) → IsDistinct (z ∷ xs) → contains w xs ≡ true → (z == w) ≡ false
  head_apart z w xs d i = elim (Bool-cases (z == w)) [
    | inr n ↦ n
    | inl q ↦ ground (
      arith,
      d z,
      beq_self z,
      count-contains z xs (subst (λ t. contains t xs ≡ true) (sym (beq-eq z w q)) i),
    )
  ]

  -- A list without repetition, all of it in another list that is no longer, holds all of that one.
  pub pigeonhole :
      (xs ys : List A)
      → IsDistinct xs
      → ((x : A) → contains x xs ≡ true → contains x ys ≡ true)
      → length ys ≤ length xs
      → (x : A) → contains x ys ≡ true
      → contains x xs ≡ true
  pigeonhole [] [] d s l x h = h
  pigeonhole [] (y ∷ ys) d s l x h = ground arith
  pigeonhole (z ∷ xs) ys d s l x h = elim (Bool-cases (z == x)) [
    | inl q ↦ ground arith
    | inr q ↦
        let m = s z (ground (arith, beq_self z)) in
        ground (
          arith,
          pigeonhole xs (without z ys) (λ a. omega (arith, d a))
              (λ w i. contains-without z w ys (head_apart z w xs d i) (s w (ground (arith, i))))
              (omega (arith, l, length-without z ys m)) x (contains-without z x ys q h),
        )
  ]

module _ (join_host_port : String → ℤ → String) where
  -- The host:port addresses of the backends of a pool that are IPBackends.
  abbrev pub addresses : List (Option (String × ℤ)) → List String
  addresses [] = []
  addresses (none ∷ bs) = addresses bs
  addresses (some (ip, port) ∷ bs) = join_host_port ip port ∷ addresses bs

  all_configured_lem :
      (cs : List String) (bs : List (Option (String × ℤ)))
      → all_configured join_host_port cs bs ≡ none
      → (length (addresses bs) ≡ length bs)
        × ((x : String) → contains x (addresses bs) ≡ true → contains x cs ≡ true)
  unfolding all_configured
  all_configured_lem cs [] h = (refl, λ x i. ground arith)
  all_configured_lem cs (none ∷ bs) h = ground arith
  all_configured_lem cs (some (ip, port) ∷ bs) h =
      elim (Bool-cases (contains (join_host_port ip port) cs)) [
        | inr n ↦ ground arith
        | inl y ↦
            let (a, b) = all_configured_lem cs bs (ground arith) in
            (
              ground arith,
              λ x i. elim (Bool-cases (join_host_port ip port == x)) [
                | inl q ↦ subst (λ t. contains t cs ≡ true) (beq-eq (join_host_port ip port) x q) y
                | inr q ↦ b x (ground arith)
              ],
            )
      ]

  no_backends : (l : List String) → nat_beq (length l) 0 ≡ true → l ≡ []
  no_backends [] h = refl
  no_backends (x ∷ l) h = ground arith

  both_ways : (a b : Bool) → (a ≡ true → b ≡ true) → (b ≡ true → a ≡ true) → a ≡ b
  both_ways a b f g = ground arith

  by_status :
      (c : Config) (bs : List (Option (String × ℤ))) (s : PoolStatus)
      → check_lb_state join_host_port c (some (record { status = s; backends = bs })) ≡ none
      → IsDistinct (addresses bs)
      → ((s ≡ ps_empty) × (c.backends ≡ []))
        ⊎ ((s ≡ ps_full) × ((x : String) → contains x c.backends ≡ contains x (addresses bs)))
  unfolding check_lb_state
  by_status c bs ps_unknown h d = ground arith
  by_status c bs ps_degraded h d = ground arith
  by_status c bs ps_empty h d = inl (refl, no_backends c.backends (ground arith))
  by_status c bs ps_full h d = elim (Bool-cases (nat_beq (length c.backends) (length bs))) [
    | inr n ↦ ground arith
    | inl y ↦
        let (l, i) = all_configured_lem c.backends bs (ground arith) in
        inr (
          refl,
          λ x.
              both_ways (contains x c.backends) (contains x (addresses bs))
                (pigeonhole (addresses bs) c.backends d i (ground arith) x) (i x),
        )
  ]

  -- If checkLBState accepts a pool whose addresses are distinct, then the pool has exactly the
  -- configured backends: an address is configured if and only if the pool has it, and the pool is
  -- full, or it is empty and so is the configuration.
  pub check_lb_state-same :
      (c : Config) (ph : PoolHealth)
      → check_lb_state join_host_port c (some ph) ≡ none
      → IsDistinct (addresses ph.backends)
      → ((ph.status ≡ ps_empty) × (c.backends ≡ []))
        ⊎ ((ph.status ≡ ps_full)
            × ((x : String) → contains x c.backends ≡ contains x (addresses ph.backends)))
  check_lb_state-same c ph = by_status c ph.backends ph.status
