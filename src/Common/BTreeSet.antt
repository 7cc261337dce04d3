-- ===== src/Common/BTreeSet.antt =====
-- `BTreeSet<String>` as a sorted list without repetitions.
use Prim.Native.String.{String, compare}
use text.Mathlib.Text.{is_lt}
use mathlib.Core.Path.{◌≡◌, refl}
use mathlib.Core.Bool.{Bool, false, not, ◌&&◌, ◌||◌}
use mathlib.Core.List.{List, [], ◌∷◌}
use native.Mathlib.Omega.{arith}
use auto_ai.Common.Tests.{◌==◌, string_eq, eq_of_beq, if◌then◌else◌, beq-true_self}

abbrev pub mem : String → List String → Bool
mem p [] = false
mem p (q ∷ s) = q == p || mem p s

unfoldable pub set_insert : String → List String → List String
set_insert x [] = x ∷ []
set_insert x (y ∷ s) =
    let rest = set_insert x s in
    if x == y then y ∷ s else if is_lt (compare x y) then x ∷ y ∷ s else y ∷ rest

unfoldable pub set_remove : String → List String → List String
set_remove x [] = []
set_remove x (y ∷ s) = let rest = set_remove x s in if y == x then rest else y ∷ rest

-- `for f in fs { set.remove(f) }`
abbrev pub remove_all : List String → List String → List String
remove_all [] s = s
remove_all (f ∷ fs) s = remove_all fs (set_remove f s)

pub mem-set_insert : (p x : String) (s : List String) → mem p (set_insert x s) ≡ x == p || mem p s
unfolding set_insert
mem-set_insert p x [] = ground arith
mem-set_insert p x (y ∷ s) = ground (arith, mem-set_insert p x s, eq_of_beq x y)

pub mem-set_remove :
    (p x : String) (s : List String) → mem p (set_remove x s) ≡ not (x == p) && mem p s
unfolding set_remove
mem-set_remove p x [] = ground arith
mem-set_remove p x (y ∷ s) =
    ground
      (arith, mem-set_remove p x s, eq_of_beq y x, eq_of_beq x p, eq_of_beq y p, beq-true_self p)

pub mem-remove_all :
    (p : String) (fs s : List String) → mem p (remove_all fs s) ≡ not (mem p fs) && mem p s
mem-remove_all p [] s = refl
mem-remove_all p (f ∷ fs) s =
    ground (arith, mem-remove_all p fs (set_remove f s), mem-set_remove p f s)
