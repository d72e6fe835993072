-- ===== src/Orchestration/Workflow/Retry.antt =====
-- RetryFailed of orchestration/workflow/workflow.go. Its goroutines share the loop variable, since
-- go.mod asks for Go 1.21: what index each of them reads is an argument here.
use gofordevopsclass.Prelude.{
  ℕ, zero, suc, ◌≤◌, ◌<◌, length, get_elem?, List, [], ◌∷◌, none, some, Option-cases, ◌≡◌, inl, inr,
  refl, subst, ◌∙◌, arith,
}
use gofordevopsclass.Prelude.Int.{ℤ, pos, negsuc}
use gofordevopsclass.Orchestration.Actions.{Actions, World, run}
use gofordevopsclass.Orchestration.Workflow.{
  EndState, es_unknown, es_success, es_precondition_failure, es_canary_failure, es_max_failures,
  failures,
}

-- atomic.AddInt32(&w.failures, -1)
abbrev less_one : ℤ → ℤ
less_one (pos zero) = negsuc 0
less_one (pos (suc n)) = pos n
less_one (negsuc n) = negsuc (suc n)

abbrev put : List Actions → ℕ → Actions → List Actions
put [] i b = []
put (a ∷ l) zero b = b ∷ l
put (a ∷ l) (suc i) b = let rest = put l i b in a ∷ rest

-- How RetryFailed ends: with the actions of ws.Failures and w.failures, with a panic, or not at all
-- because a run of an action does not return.
pub data Retry : Type 0 where
  retried : List Actions → ℤ → Retry
  panicked hangs : Retry

-- The goroutines, one after another: each has read an index i and meets a world.
unfoldable pub retry_runs : List (ℕ × World) → List Actions → ℤ → Retry
retry_runs [] l n = retried l n
retry_runs ((i, w) ∷ gs) l n = elim (get_elem? l i) [
  | none ↦ panicked
  | some a ↦ elim (run w a) [
    | none ↦ hangs
    | some (e, b, tr) ↦ elim e [
      | none ↦ retry_runs gs (put l i b) (less_one n)
      | some x ↦ retry_runs gs (put l i b) n
    ]
  ]
]

-- RetryFailed, for the actions of the workflow, w.failures, and what the goroutines of its loop
-- read: one of them for each failed action, more are not started.
unfoldable pub retry_failed : EndState → List Actions → ℤ → List (ℕ × World) → Retry
unfolding failures
retry_failed es_success l n gs = retry_runs gs (failures l) n
retry_failed es_unknown l n gs = panicked
retry_failed es_precondition_failure l n gs = panicked
retry_failed es_canary_failure l n gs = panicked
retry_failed es_max_failures l n gs = panicked

length-put : (l : List Actions) (i : ℕ) (b : Actions) → length (put l i b) ≡ length l
length-put [] i b = refl
length-put (a ∷ l) zero b = refl
length-put (a ∷ l) (suc i) b = ground (arith, length-put l i b)

-- Every index that a goroutine has read is one of the failed actions.
abbrev pub InRange : List (ℕ × World) → ℕ → Type 0
InRange [] n = 0 ≤ 0
InRange ((i, w) ∷ gs) n = (i < n) × InRange gs n

found-lt : (l : List Actions) (i : ℕ) (a : Actions) → get_elem? l i ≡ some a → i < length l
found-lt [] i a p = ground arith
found-lt (x ∷ l) zero a p = omega arith
found-lt (x ∷ l) (suc i) a p = let h = found-lt l i a p in omega arith

-- The goroutines end without a panic only if each of them has read an index of a failed action.
pub retry_runs-InRange :
    (gs : List (ℕ × World)) (l : List Actions) (n : ℤ) {bs : List Actions} {m : ℤ}
    → retry_runs gs l n ≡ retried bs m
    → InRange gs (length l) × (length bs ≡ length l)
unfolding retry_runs
retry_runs-InRange [] l n p = (omega arith, ground arith)
retry_runs-InRange ((i, w) ∷ gs) l n {bs = bs} {m = m} p = elim (Option-cases (get_elem? l i)) [
  | inl q ↦ ground arith
  | inr (a, q) ↦ elim (Option-cases (run w a)) [
    | inl r ↦ ground arith
    | inr ((none, b, tr), r) ↦
        let (h, k) =
          retry_runs-InRange gs (put l i b) (less_one n) {bs = bs} {m = m} (ground arith) in
        ((found-lt l i a q, subst (λ x. InRange gs x) (length-put l i b) h), k ∙ length-put l i b)
    | inr ((some x, b, tr), r) ↦
        let (h, k) = retry_runs-InRange gs (put l i b) n {bs = bs} {m = m} (ground arith) in
        ((found-lt l i a q, subst (λ x. InRange gs x) (length-put l i b) h), k ∙ length-put l i b)
  ]
]
