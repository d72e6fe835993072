-- ===== src/Orchestration/Workflow/Returns.antt =====
-- How long a rollout of orchestration/workflow/workflow.go goes on.
use gofordevopsclass.Prelude.{
  ℕ, zero, suc, ◌+◌, ◌-◌, ◌*◌, ◌≤◌, ◌<◌, Bool, true, false, ltb, Bool-cases, if◌then◌else◌, ◌≡◌,
  ◌⊎◌, subst, ap, inl, inr, refl, arith,
}
use gofordevopsclass.Prelude.Int.{ℤ}
use gofordevopsclass.Orchestration.Workflow.Rollout.{
  Mode, at_top, holding, all_started, broken_off, returned, Rollout, exceeds, start, Step, acquire,
  proceed, break_off, finish_loop, succeed, fail, done, release, wait, Steps, nothing, more,
}
use gofordevopsclass.Orchestration.Workflow.Bounds.{Tokens, Outcome, Inv, reached-Inv}

module _ (total cap : ℕ) (max : ℤ) (c : ℕ) where
  abbrev weight : Mode → ℕ
  weight at_top = 3
  weight holding = 2
  weight all_started = 1
  weight broken_off = 1
  weight (returned b) = 0

  abbrev left_of : Rollout → ℕ
  left_of r = 7 * (total - r.next) + 3 * r.running + 2 * r.ended + r.leaving + weight r.mode

  Step-left_of :
      {r s : Rollout} → Inv total cap max c r → Step total cap max r s → suc (left_of s) ≤ left_of r
  Step-left_of i (acquire r m n l) = omega (arith, ap weight m)
  Step-left_of (k, t, h, hc, fb, ne, nt, o) (proceed r m e) =
      let o' = subst (λ q. Outcome total max r.next (r.running + r.ended) r.failures q) m o in
      omega (arith, ap weight m)
  Step-left_of i (break_off r m e) = omega (arith, ap weight m)
  Step-left_of i (finish_loop r m n) = omega (arith, ap weight m)
  Step-left_of i (succeed r n e) = omega arith
  Step-left_of i (fail r n e) = omega arith
  Step-left_of i (done r n e) = omega arith
  Step-left_of i (release r n m e f) = omega arith
  Step-left_of i (wait r b (inl m) e f x) = omega (arith, ap weight m)
  Step-left_of i (wait r b (inr m) e f x) = omega (arith, ap weight m)

  Steps-left_of :
      {n : ℕ} {r : Rollout} → Steps total cap max (start c) n r → n + left_of r ≤ left_of (start c)
  Steps-left_of nothing = omega arith
  Steps-left_of (more n r s p q) =
      omega (arith, Steps-left_of p, Step-left_of (reached-Inv total cap max c p) q)

  Mode-cases :
      (m : Mode)
      → ((m ≡ at_top) ⊎ (m ≡ holding))
        ⊎ (((m ≡ all_started) ⊎ (m ≡ broken_off)) ⊎ ((b : Bool) × (m ≡ returned b)))
  Mode-cases at_top = inl (inl refl)
  Mode-cases holding = inl (inr refl)
  Mode-cases all_started = inr (inl (inl refl))
  Mode-cases broken_off = inr (inl (inr refl))
  Mode-cases (returned b) = inr (inr (b, refl))

  ℕ-cases : (n : ℕ) → (n ≡ 0) ⊎ ((k : ℕ) × (n ≡ suc k))
  ℕ-cases zero = inl refl
  ℕ-cases (suc n) = inr (n, refl)

  at_the_top :
      {r : Rollout}
      → 0 < cap
      → Inv total cap max c r
      → r.mode ≡ at_top
      → r.running ≡ 0
      → r.ended ≡ 0
      → (s : Rollout) × Step total cap max r s
  at_the_top {r = r} pc (k, t, h, hc, fb, ne, nt, o) m x y = elim (Bool-cases (ltb r.next total)) [
    | inr f ↦ (record r { mode = all_started }, finish_loop r m (ground arith))
    | inl g ↦ elim (ℕ-cases r.leaving) [
      | inl z ↦ (
        record r { mode = holding; held = suc r.held },
        acquire r m (ground arith) (omega (arith, subst (λ q. Tokens q k) m t)),
      )
      | inr (n, e) ↦ (
        record r { leaving = n; held = n },
        release r n n e (omega (arith, subst (λ q. Tokens q k) m t)),
      )
    ]
  ]

  progress :
      {n : ℕ} {r : Rollout}
      → 0 < cap
      → Steps total cap max (start c) n r
      → ((b : Bool) × (r.mode ≡ returned b)) ⊎ ((s : Rollout) × Step total cap max r s)
  progress {r = r} pc p = elim (ℕ-cases r.running) [
    | inr (k, e) ↦
        inr (record r { running = k; ended = suc r.ended; good = suc r.good }, succeed r k e)
    | inl z ↦ elim (ℕ-cases r.ended) [
      | inr (k, e) ↦ inr (record r { ended = k; leaving = suc r.leaving }, done r k e)
      | inl y ↦ elim (Mode-cases r.mode) [
        | inr (inr h) ↦ inl h
        | inr (inl h) ↦ inr (
          record r { mode = returned (if exceeds max r.failures then false else true) },
          wait r (exceeds max r.failures) h z y refl,
        )
        | inl (inr h) ↦ elim (Bool-cases (exceeds max r.failures)) [
          | inl x ↦ inr (record r { mode = broken_off }, break_off r h x)
          | inr x ↦ inr (
            record r { mode = at_top; next = suc r.next; running = suc r.running },
            proceed r h x,
          )
        ]
        | inl (inl h) ↦ inr (at_the_top pc (reached-Inv total cap max c p) h z y)
      ]
    ]
  ]

  -- With a Concurrency of at least one, a rollout takes at most seven steps for each action behind
  -- the canaries and three more, and as long as it has not returned it can take another step.
  pub rollout_returns :
      {n : ℕ} {r : Rollout}
      → 0 < cap
      → Steps total cap max (start c) n r
      → (n ≤ 7 * (total - c) + 3)
        × (((b : Bool) × (r.mode ≡ returned b)) ⊎ ((s : Rollout) × Step total cap max r s))
  rollout_returns pc p = (omega (arith, Steps-left_of p), progress pc p)
