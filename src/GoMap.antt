-- ===== src/GoMap.antt =====
-- Go's built-in `map[K]V` as an association list. The order of the entries stands for one
-- iteration order of `range`; Go leaves that order open, and no statement depends on it.
pub mod Laws
use gofordevopsclass.Prelude.{
  ℕ, List, [], ◌∷◌, map, Option, none, some, Bool, if◌then◌else◌, Eq, ◌==◌, is_some, one_if, count,
  length, ◌≡◌,
}

abbrev pub GoMap {ℓ κ} : Type ℓ → Type κ → Type (ℓ ⊔ κ)
GoMap K V = List (K × V)

module _ {ℓ κ} {K : Type ℓ} {V : Type κ} ⦃e : Eq K⦄ where
  -- v, ok := m[k]
  unfoldable pub lookup : K → GoMap K V → Option V
  lookup k [] = none
  lookup k ((i, x) ∷ rest) = if i == k then some x else lookup k rest

  -- m[k] = v
  unfoldable pub insert : K → V → GoMap K V → GoMap K V
  insert k v [] = (k, v) ∷ []
  insert k v ((i, x) ∷ rest) = if i == k then (k, v) ∷ rest else (i, x) ∷ insert k v rest

  -- delete(m, k)
  unfoldable pub delete : K → GoMap K V → GoMap K V
  delete k [] = []
  delete k ((j, w) ∷ m) = if j == k then delete k m else (j, w) ∷ delete k m

  -- The keys that `for k := range m` visits.
  abbrev pub keys : GoMap K V → List K
  keys [] = []
  keys ((k, v) ∷ m) = k ∷ keys m

  -- The values that `for _, v := range m` visits.
  abbrev pub values : GoMap K V → List V
  values [] = []
  values ((k, v) ∷ m) = v ∷ values m

  -- len(m)
  abbrev pub size : GoMap K V → ℕ
  size m = length m

  -- Every key has one entry: what Go's maps promise, and what `insert` and `delete` keep.
  abbrev pub IsGoMap : GoMap K V → Type ℓ
  IsGoMap m = (k : K) → count k (keys m) ≡ one_if (is_some (lookup k m))
