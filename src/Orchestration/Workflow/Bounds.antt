-- ===== src/Orchestration/Workflow/Bounds.antt =====
-- What holds at each moment of a rollout, and how one ends (orchestration/workflow/workflow.go).
use gofordevopsclass.Prelude.{
  ℕ, suc, ◌+◌, ◌≤◌, ◌<◌, Bool, true, false, if◌then◌else◌, ◌≡◌, ◌⊎◌, subst, inl, inr, refl, arith,
}
use gofordevopsclass.Prelude.Int.{ℤ, pos, negsuc, pos_part}
use gofordevopsclass.Orchestration.Workflow.Rollout.{
  Mode, at_top, holding, all_started, broken_off, returned, Rollout, exceeds, start, Step, acquire,
  proceed, break_off, finish_loop, succeed, fail, done, release, wait, Steps, nothing, more,
}

-- A token in the channel that nobody takes out: after the break.
abbrev pub Tokens : Mode → ℕ → Type 0
Tokens at_top k = k ≡ 0
Tokens holding k = k ≡ 1
Tokens all_started k = k ≡ 0
Tokens broken_off k = k ≡ 1
Tokens (returned b) k = k ≤ 1

-- What the loop leaves behind in each mode, for the index of the next action, the number of the
-- goroutines before wg.Done and the failures.
abbrev pub Outcome : ℕ → ℤ → ℕ → ℕ → ℕ → Mode → Type 0
Outcome total max next busy f at_top = 0 ≤ busy
Outcome total max next busy f holding = next < total
Outcome total max next busy f all_started = total ≤ next
Outcome total max next busy f broken_off = exceeds max f ≡ true
Outcome total max next busy f (returned true) =
    (total ≤ next) × (busy ≡ 0) × (exceeds max f ≡ false)
Outcome total max next busy f (returned false) = (busy ≡ 0) × (exceeds max f ≡ true)

pub exceeds_bound : (max : ℤ) (f : ℕ) → exceeds max f ≡ false → f ≤ pos_part max
unfolding exceeds
exceeds_bound (pos m) f h = ground arith
exceeds_bound (negsuc m) f h = ground arith

exceeds-suc : (max : ℤ) (f : ℕ) → exceeds max f ≡ true → exceeds max (suc f) ≡ true
unfolding exceeds
exceeds-suc (pos m) f h = ground arith
exceeds-suc (negsuc m) f h = ground arith

-- A goroutine that ends its action with an error.
Outcome-fail :
    (total : ℕ) (max : ℤ) (next b f : ℕ) (m : Mode)
    → Outcome total max next (suc b) f m
    → Outcome total max next (suc b) (suc f) m
Outcome-fail total max next b f at_top h = h
Outcome-fail total max next b f holding h = h
Outcome-fail total max next b f all_started h = h
Outcome-fail total max next b f broken_off h = exceeds-suc max f h
Outcome-fail total max next b f (returned true) h = ground arith
Outcome-fail total max next b f (returned false) h = ground arith

-- A goroutine that calls wg.Done.
Outcome-done :
    (total : ℕ) (max : ℤ) (next b f : ℕ) (m : Mode)
    → Outcome total max next (suc b) f m
    → Outcome total max next b f m
Outcome-done total max next b f at_top h = omega arith
Outcome-done total max next b f holding h = h
Outcome-done total max next b f all_started h = h
Outcome-done total max next b f broken_off h = h
Outcome-done total max next b f (returned true) h = ground arith
Outcome-done total max next b f (returned false) h = ground arith

Outcome-busy :
    (total : ℕ) (max : ℤ) (next a b f : ℕ) (m : Mode)
    → a ≡ b
    → Outcome total max next a f m
    → Outcome total max next b f m
Outcome-busy total max next a b f m e = subst (λ q. Outcome total max next q f m) e

module _ (total cap : ℕ) (max : ℤ) (c : ℕ) where
  abbrev pub Inv : Rollout → Type 0
  Inv r =
      (k : ℕ) × Tokens r.mode k
      × (r.held ≡ r.running + r.ended + r.leaving + k)
      × (r.held ≤ cap)
      × (r.failures + r.running ≤ pos_part max + cap)
      × (r.next ≡ c + r.running + r.good + r.failures)
      × ((r.next ≤ total) ⊎ (r.next ≡ c))
      × Outcome total max r.next (r.running + r.ended) r.failures r.mode

  start-Inv : Inv (start c)
  start-Inv = (0, refl, omega arith, omega arith, omega arith, omega arith, inr refl, omega arith)

  Step-Inv : {r s : Rollout} → Inv r → Step total cap max r s → Inv s
  Step-Inv (k, t, h, hc, fb, ne, nt, o) (acquire r m n l) =
      (1, refl, omega (arith, subst (λ q. Tokens q k) m t), omega arith, fb, ne, nt, n)
  Step-Inv (k, t, h, hc, fb, ne, nt, o) (proceed r m e) =
      let o' = subst (λ q. Outcome total max r.next (r.running + r.ended) r.failures q) m o in
      (
        0,
        refl,
        omega (arith, subst (λ q. Tokens q k) m t),
        hc,
        omega (arith, exceeds_bound max r.failures e, subst (λ q. Tokens q k) m t),
        omega arith,
        inl o',
        omega arith,
      )
  Step-Inv (k, t, h, hc, fb, ne, nt, o) (break_off r m e) =
      (1, refl, omega (arith, subst (λ q. Tokens q k) m t), hc, fb, ne, nt, e)
  Step-Inv (k, t, h, hc, fb, ne, nt, o) (finish_loop r m n) =
      (0, refl, omega (arith, subst (λ q. Tokens q k) m t), hc, fb, ne, nt, n)
  Step-Inv (k, t, h, hc, fb, ne, nt, o) (succeed r n e) = (
    k,
    t,
    omega arith,
    hc,
    omega arith,
    omega arith,
    nt,
    Outcome-busy total max r.next (r.running + r.ended) (n + suc r.ended) r.failures r.mode
        (omega arith) o,
  )
  Step-Inv (k, t, h, hc, fb, ne, nt, o) (fail r n e) = (
    k,
    t,
    omega arith,
    hc,
    omega arith,
    omega arith,
    nt,
    Outcome-busy total max r.next (suc (n + r.ended)) (n + suc r.ended) (suc r.failures) r.mode
        (omega arith)
        (Outcome-fail total max r.next (n + r.ended) r.failures r.mode (
          Outcome-busy total max r.next (r.running + r.ended) (suc (n + r.ended)) r.failures r.mode
            (omega arith) o)),
  )
  Step-Inv (k, t, h, hc, fb, ne, nt, o) (done r n e) = (
    k,
    t,
    omega arith,
    hc,
    fb,
    ne,
    nt,
    Outcome-done total max r.next (r.running + n) r.failures r.mode (
        Outcome-busy total max r.next (r.running + r.ended) (suc (r.running + n)) r.failures r.mode
          (omega arith) o),
  )
  Step-Inv (k, t, h, hc, fb, ne, nt, o) (release r n m e f) =
      (k, t, omega arith, omega arith, fb, ne, nt, o)
  Step-Inv (k, t, h, hc, fb, ne, nt, o) (wait r true (inl m) e f x) =
      (k, omega (arith, subst (λ q. Tokens q k) m t), h, hc, fb, ne, nt, (omega arith, x))
  Step-Inv (k, t, h, hc, fb, ne, nt, o) (wait r true (inr m) e f x) =
      (k, omega (arith, subst (λ q. Tokens q k) m t), h, hc, fb, ne, nt, (omega arith, x))
  Step-Inv (k, t, h, hc, fb, ne, nt, o) (wait r false (inl m) e f x) = (
    k,
    omega (arith, subst (λ q. Tokens q k) m t),
    h,
    hc,
    fb,
    ne,
    nt,
    (subst (λ q. Outcome total max r.next (r.running + r.ended) r.failures q) m o, omega arith, x),
  )
  Step-Inv (k, t, h, hc, fb, ne, nt, o) (wait r false (inr m) e f x) =
      let o' = subst (λ q. Outcome total max r.next (r.running + r.ended) r.failures q) m o in
      ground arith

  pub reached-Inv : {n : ℕ} {r : Rollout} → Steps total cap max (start c) n r → Inv r
  reached-Inv nothing = start-Inv
  reached-Inv (more n r s p q) = Step-Inv (reached-Inv p) q

  -- At each moment of a rollout: at most Concurrency goroutines are before wg.Done, at most
  -- MaxFailures + Concurrency actions have failed, and each action up to the next one runs, went
  -- well or has failed.
  pub rollout_bounded :
      {n : ℕ} {r : Rollout}
      → Steps total cap max (start c) n r
      → (r.running + r.ended ≤ cap)
        × (r.failures ≤ pos_part max + cap)
        × (r.next ≡ c + r.running + r.good + r.failures)
        × ((r.next ≤ total) ⊎ (r.next ≡ c))
  rollout_bounded p =
      let (k, t, h, hc, fb, ne, nt, o) = reached-Inv p in (omega arith, omega arith, ne, nt)

  -- A rollout that ends in success ran each action behind the canaries to its end, and no more of
  -- them have failed than MaxFailures allows. One that ends in ESMaxFailures has more failures.
  pub rollout_ends :
      {n : ℕ} {r : Rollout} (b : Bool)
      → Steps total cap max (start c) n r
      → r.mode ≡ returned b
      → (r.running ≡ 0)
        × (exceeds max r.failures ≡ (if b then false else true))
        × (if b then (total ≤ r.next) × (r.next ≡ c + r.good + r.failures) else 0 ≤ 0)
  rollout_ends {r = r} true p m =
      let (k, t, h, hc, fb, ne, nt, o) = reached-Inv p in
      let (x, y, z) =
        subst (λ q. Outcome total max r.next (r.running + r.ended) r.failures q) m o in
      (omega arith, z, (x, omega arith))
  rollout_ends {r = r} false p m =
      let (k, t, h, hc, fb, ne, nt, o) = reached-Inv p in
      let (y, z) = subst (λ q. Outcome total max r.next (r.running + r.ended) r.failures q) m o in
      (omega arith, z, omega arith)
