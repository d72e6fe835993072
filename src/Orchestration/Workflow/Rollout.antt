-- ===== src/Orchestration/Workflow/Rollout.antt =====
-- The concurrent part of Workflow.Run (orchestration/workflow/workflow.go), step by step: the loop
-- that takes a token of the channel `limit` and starts a goroutine for each action, those
-- goroutines, and the wait for them. Only the tokens and goroutines are counted here.
use gofordevopsclass.Prelude.{ℕ, suc, ◌≤◌, ◌<◌, Bool, true, false, ltb, if◌then◌else◌, ◌≡◌, ◌⊎◌}
use gofordevopsclass.Prelude.Int.{ℤ, pos, negsuc}

-- Where the goroutine of Run stands: before `limit <- struct{}{}`, behind it, in wg.Wait() after
-- the last action or after the break, and behind its return.
pub data Mode : Type 0 where
  at_top holding all_started broken_off : Mode
  returned : Bool → Mode

-- A goroutine is running its action, then ended (the failure is counted), then leaving (wg.Done was
-- called), and gone when it has taken its token out. `good` counts the actions without an error.
pub record Rollout : Type 0 where
  pub mode : Mode
  pub next : ℕ
  pub held : ℕ
  pub running : ℕ
  pub ended : ℕ
  pub leaving : ℕ
  pub good : ℕ
  pub failures : ℕ

-- atomic.LoadInt32(&w.failures) > w.config.MaxFailures
unfoldable pub exceeds : ℤ → ℕ → Bool
exceeds (pos m) f = ltb m f
exceeds (negsuc m) f = true

-- The start of this part, for CanaryNum canaries and no failures.
abbrev pub start : ℕ → Rollout
start c = record {
  mode = at_top;
  next = c;
  held = 0;
  running = 0;
  ended = 0;
  leaving = 0;
  good = 0;
  failures = 0;
}

-- The steps, for len(w.actions), Concurrency and MaxFailures. `returned true` is ESSuccess,
-- `returned false` is ESMaxFailures.
pub data Step (total cap : ℕ) (max : ℤ) : Rollout → Rollout → Type 0 where
  acquire :
      (r : Rollout)
      → r.mode ≡ at_top
      → r.next < total
      → r.held < cap
      → Step total cap max r (record r { mode = holding; held = suc r.held })
  proceed :
      (r : Rollout)
      → r.mode ≡ holding
      → exceeds max r.failures ≡ false
      → Step total cap max r
          (record r { mode = at_top; next = suc r.next; running = suc r.running })
  break_off :
      (r : Rollout)
      → r.mode ≡ holding
      → exceeds max r.failures ≡ true
      → Step total cap max r (record r { mode = broken_off })
  finish_loop :
      (r : Rollout)
      → r.mode ≡ at_top
      → total ≤ r.next
      → Step total cap max r (record r { mode = all_started })
  succeed :
      (r : Rollout) (n : ℕ)
      → r.running ≡ suc n
      → Step total cap max r (record r { running = n; ended = suc r.ended; good = suc r.good })
  fail :
      (r : Rollout) (n : ℕ)
      → r.running ≡ suc n
      → Step total cap max r
          (record r { running = n; ended = suc r.ended; failures = suc r.failures })
  done :
      (r : Rollout) (n : ℕ)
      → r.ended ≡ suc n
      → Step total cap max r (record r { ended = n; leaving = suc r.leaving })
  release :
      (r : Rollout) (n h : ℕ)
      → r.leaving ≡ suc n
      → r.held ≡ suc h
      → Step total cap max r (record r { leaving = n; held = h })
  wait :
      (r : Rollout) (b : Bool)
      → (r.mode ≡ all_started) ⊎ (r.mode ≡ broken_off)
      → r.running ≡ 0
      → r.ended ≡ 0
      → exceeds max r.failures ≡ b
      → Step total cap max r (record r { mode = returned (if b then false else true) })

-- Some number of steps, the last one first.
pub data Steps (total cap : ℕ) (max : ℤ) (a : Rollout) : ℕ → Rollout → Type 0 where
  nothing : Steps total cap max a 0 a
  more :
      (n : ℕ) (r s : Rollout)
      → Steps total cap max a n r
      → Step total cap max r s
      → Steps total cap max a (suc n) s
