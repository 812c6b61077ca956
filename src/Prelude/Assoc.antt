-- ===== src/Prelude/Assoc.antt =====
-- Go maps as association lists: `m[k]`, `m[k] = v` and `delete(m, k)`. A theorem about a map speaks
-- of `get`, so the order of the entries does not matter.
use mathlib.Core.Path.{◌≡◌, refl}
use mathlib.Core.Logic.{inl, inr}
use mathlib.Core.Option.{Option, none, some}
use mathlib.Core.List.{List, [], ◌∷◌}
use native.Mathlib.Omega.{arith}
use code_code_platform_catal.Prelude.Tests.{Eq, ◌==◌, eq_iff, if◌then◌else◌, Bool-cases, some_eq}
use code_code_platform_catal.Prelude.Lists.{All}

module _ {ℓ κ} {K : Type ℓ} {V : Type κ} ⦃e : Eq K⦄ where
  unfoldable pub get : List (K × V) → K → Option V
  get [] k = none
  get ((j, v) ∷ m) k = if j == k then some v else get m k

  unfoldable pub put : K → V → List (K × V) → List (K × V)
  put k v [] = (k, v) ∷ []
  put k v ((j, w) ∷ m) = if j == k then (j, v) ∷ m else (j, w) ∷ put k v m

  unfoldable pub remove : K → List (K × V) → List (K × V)
  remove k [] = []
  remove k ((j, w) ∷ m) = let rest = remove k m in if j == k then rest else (j, w) ∷ rest

  pub get-put :
      (k : K) (v : V) (m : List (K × V)) (j : K)
      → get (put k v m) j ≡ (if k == j then some v else get m j)
  unfolding get put
  get-put k v [] j = refl
  get-put k v ((i, w) ∷ m) j = ground (arith, get-put k v m j, eq_iff i k, eq_iff i j, eq_iff k j)

  pub get-remove :
      (k : K) (m : List (K × V)) (j : K) → get (remove k m) j ≡ (if k == j then none else get m j)
  unfolding get remove
  get-remove k [] j = ground arith
  get-remove k ((i, w) ∷ m) j = ground (arith, get-remove k m j, eq_iff i k, eq_iff i j, eq_iff k j)

-- The keys of a map, as often as they stand.
unfoldable pub keys {ℓ κ} : {K : Type ℓ} {V : Type κ} → List (K × V) → List K
keys [] = []
keys ((k, _) ∷ m) = k ∷ keys m

module _ {ℓ κ} {K : Type ℓ} {V : Type κ} ⦃e : Eq K⦄ (P : K × V → Type 0) where
  pub put-All : (k : K) (v : V) (m : List (K × V)) → P (k, v) → All P m → All P (put k v m)
  unfolding put
  put-All k v [] p h = (p, tt)
  put-All k v ((j, w) ∷ m) p (q, h) = elim (Bool-cases (j == k)) [
    | inl same ↦ rw same (rw (← (eq_iff j k).0 same) at p, h)
    | inr other ↦ rw other (q, put-All k v m p h)
  ]

  pub get-All : (k : K) (v : V) (m : List (K × V)) → All P m → get m k ≡ some v → P (k, v)
  unfolding get
  get-All k v [] h found = absurd (ground (arith, found))
  get-All k v ((j, w) ∷ m) (q, h) found = elim (Bool-cases (j == k)) [
    | inl same ↦
        let at : w ≡ v = some_eq (ground (arith, found, same)) in rw (← at, ← (eq_iff j k).0 same) q
    | inr other ↦ get-All k v m h (ground (arith, found, other))
  ]
