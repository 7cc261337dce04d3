-- ===== src/Common/HashMap.antt =====
-- `HashMap<K, V>` as an association list, over any key type with a test for equality. A key stands
-- at most once where the map was built by these operations; the order of the entries is the
-- unspecified order in which the source iterates.
use mathlib.Core.Path.{◌≡◌, refl, ap, ◌∙◌}
use mathlib.Core.Logic.{◌⊎◌, inl, inr}
use mathlib.Core.Bool.{true, false}
use mathlib.Core.List.{List, [], ◌∷◌}
use mathlib.Core.Option.{Option, none, some}
use native.Mathlib.Omega.{arith}
use auto_ai.Common.Tests.{Eq, ◌==◌, if◌then◌else◌, unwrap_or, Bool-cases, eq_of_beq}

abbrev pub HashMap {ℓ κ} : Type ℓ → Type κ → Type (ℓ ⊔ κ)
HashMap K V = List (K × V)

module _ {ℓ κ} {K : Type ℓ} {V : Type κ} ⦃e : Eq K⦄ where
  -- `map.get(k)`
  unfoldable pub get : K → HashMap K V → Option V
  get k [] = none
  get k ((j, v) ∷ m) = if j == k then some v else get k m

  -- `map.insert(k, v)`
  unfoldable pub insert : K → V → HashMap K V → HashMap K V
  insert k v [] = (k, v) ∷ []
  insert k v ((j, w) ∷ m) = if j == k then (k, v) ∷ m else (j, w) ∷ insert k v m

  -- `map.remove(k)`
  unfoldable pub remove : K → HashMap K V → HashMap K V
  remove k [] = []
  remove k ((j, w) ∷ m) = if j == k then remove k m else (j, w) ∷ remove k m

  -- `map.get(k).copied().unwrap_or(d)`
  abbrev pub get_or : K → V → HashMap K V → V
  get_or k d m = unwrap_or (get k m) d

  -- `f(map.entry(k).or_insert(d))`
  abbrev pub modify : K → V → (V → V) → HashMap K V → HashMap K V
  modify k d f m = insert k (f (get_or k d m)) m

  pub get-insert :
      (k j : K) (v : V) (m : HashMap K V)
      → get j (insert k v m) ≡ (if k == j then some v else get j m)
  unfolding get insert
  get-insert k j v [] = refl
  get-insert k j v ((i, w) ∷ m) = ground (
    arith,
    e.decides {a = k} {b = j},
    e.decides {a = i} {b = k},
    e.decides {a = i} {b = j},
    get-insert k j v m,
  )

  pub get-remove :
      (k j : K) (m : HashMap K V) → get j (remove k m) ≡ (if k == j then none else get j m)
  unfolding get remove
  get-remove k j [] = ground arith
  get-remove k j ((i, w) ∷ m) = ground (
    arith,
    e.decides {a = k} {b = j},
    e.decides {a = i} {b = k},
    e.decides {a = i} {b = j},
    get-remove k j m,
  )

  pub get_or-modify :
      (k j : K) (d : V) (f : V → V) (m : HashMap K V)
      → get_or j d (modify k d f m) ≡ (if k == j then f (get_or j d m) else get_or j d m)
  get_or-modify k j d f m =
      ap (λ o. unwrap_or o d) (get-insert k j (f (get_or k d m)) m) ∙ branch (Bool-cases (k == j))
    where
      branch :
          ((k == j) ≡ true) ⊎ ((k == j) ≡ false)
          → unwrap_or (if k == j then some (f (get_or k d m)) else get j m) d
            ≡ (if k == j then f (get_or j d m) else get_or j d m)
      branch (inl same) = rw same (ap (λ x. f (get_or x d m)) (eq_of_beq k j same))
      branch (inr differs) = rw differs refl
