-- ===== src/Petstore/Examples/Kubernetes.antt =====
-- A cluster that fills the interface of Petstore/Operator, and a resource in it.
use gofordevopsclass.Prelude.{
  String, Bool, true, false, not, if◌then◌else◌, ◌==◌, ◌&&◌, string_eq, List, [], ◌∷◌, Option, none,
  some, contains, keep_if, ◌≡◌, arith,
}
use gofordevopsclass.Prelude.Int.{pos}
use gofordevopsclass.Petstore.Operator.{Kubernetes, PetResource}

unfoldable pub add_finalizer : String → List String → List String
add_finalizer f fs = if contains f fs then fs else f ∷ fs

unfoldable pub remove_finalizer : String → List String → List String
remove_finalizer f fs = keep_if (λ g. not (g == f)) fs

pub contains-added :
    (f g : String) (fs : List String)
    → contains g (add_finalizer f fs) ≡ (if f == g then true else contains g fs)
unfolding add_finalizer
contains-added f g fs = ground (arith, string_eq.beq_iff f g)

pub contains-removed :
    (f g : String) (fs : List String)
    → contains g (remove_finalizer f fs) ≡ (if f == g then false else contains g fs)
unfolding remove_finalizer
contains-removed f g [] = ground arith
contains-removed f g (x ∷ fs) = ground (
  arith,
  contains-removed f g fs,
  string_eq.beq_iff x f,
  string_eq.beq_iff x g,
  string_eq.beq_iff f g,
)

abbrev is_nil : List String → Bool
is_nil [] = true
is_nil (x ∷ xs) = false

unfoldable pub kept : PetResource → Option PetResource
kept r = if r.deleting && is_nil r.finalizers then none else some r

pub kept_resource : (r : PetResource) → r.deleting ≡ false → kept r ≡ some r
unfolding kept
kept_resource r h = ground arith

abbrev pub cluster : Kubernetes
cluster = record {
  add_finalizer = add_finalizer;
  remove_finalizer = remove_finalizer;
  kept = kept;
  contains-add_finalizer = contains-added;
  contains-remove_finalizer = contains-removed;
  kept_lem = kept_resource;
}

-- A dog that has just been asked for.
abbrev pub rex_resource : PetResource
rex_resource = record {
  spec = record {
    name = "Rex";
    type = "dog";
    birthday = record { year = pos 2020; month = pos 2; day = pos 29 };
  };
  id = "";
  finalizers = [];
  deleting = false;
}
