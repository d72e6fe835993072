-- ===== src/Orchestration/Workflow/Canaries.antt =====
-- What the canaries of orchestration/workflow/workflow.go do.
use gofordevopsclass.Prelude.{
  ℕ, zero, suc, ◌≤◌, Bool, true, false, if◌then◌else◌, length, List, [], ◌∷◌, Option, none, some,
  ◌≡◌, ◌↔◌, refl, arith, map, Option-cases, inl, inr,
}
use gofordevopsclass.Orchestration.Actions.{Actions, ActionError, World}
use gofordevopsclass.Orchestration.Actions.Runs.{all_well, plan, run_exact}
use gofordevopsclass.Orchestration.Workflow.{canaries}

-- No action has a state to go on from, as actions.New leaves them.
abbrev pub AllFresh : List (World × Actions) → Type 0
AllFresh [] = 0 ≤ 0
AllFresh ((w, a) ∷ l) = (a.failed_state ≡ none) × AllFresh l

-- All goes well at each of the first n actions.
abbrev pub first_well : ℕ → List (World × Actions) → Bool
first_well zero l = true
first_well (suc n) [] = true
first_well (suc n) ((w, a) ∷ l) =
    let rest = first_well n l in
    if w.src_opens then (if all_well w plan then rest else false) else false

length-others : (l : List (World × Actions)) → length (map (λ (w, a). a) l) ≡ length l
length-others [] = refl
length-others (x ∷ l) = ground (arith, length-others l)

-- The canaries, on actions without a failed state, return; there are no more of them than
-- CanaryNum, no action is lost, and there is no error exactly if all goes well at each of the
-- first CanaryNum actions.
pub canaries_exact :
    (n : ℕ) (l : List (World × Actions))
    → AllFresh l
    → (e : Option ActionError) × (bs : List Actions) × (k : ℕ) × (canaries n l ≡ some (e, bs, k))
      × (k ≤ n)
      × (length bs ≡ length l)
      × ((e ≡ none) ↔ (first_well n l ≡ true))
unfolding canaries
canaries_exact zero l f =
    (none, map (λ (w, a). a) l, 0, refl, omega arith, length-others l, ground arith)
canaries_exact (suc n) [] f = (none, [], 0, refl, omega arith, refl, ground arith)
canaries_exact (suc n) ((w, a) ∷ l) (f, fs) =
    let (e, b, tr, rest, u, m, x0, x1, y, z) = run_exact w a f in
    elim (Option-cases e) [
      | inr (x, q) ↦ (
        e,
        b ∷ map (λ (w, a). a) l,
        1,
        ground arith,
        omega arith,
        ground (arith, length-others l),
        ground arith,
      )
      | inl q ↦
          let (e', bs, k, v, i, j, o) = canaries_exact n l fs in
          (e', b ∷ bs, suc k, ground arith, omega arith, ground arith, ground arith)
    ]
