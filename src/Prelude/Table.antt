-- ===== src/Prelude/Table.antt =====
-- A Go map with integer keys, as an association list.
use Prim.Native.Nat.{ℕ}
use mathlib.Core.Path.{◌≡◌}
use mathlib.Core.List.{List, [], ◌∷◌}
use mathlib.Core.Option.{Option, none, some}
use native.Mathlib.Omega.{arith}
use grdp.Prelude.Tests.{◌==◌, if◌then◌else◌}

abbrev pub Table {ℓ} : Type ℓ → Type ℓ
Table V = List (ℕ × V)

module _ {ℓ} {V : Type ℓ} where
  -- m[k]
  unfoldable pub lookup : ℕ → Table V → Option V
  lookup k [] = none
  lookup k ((j, v) ∷ t) = if j == k then some v else lookup k t

  -- delete(m, k)
  unfoldable pub delete : ℕ → Table V → Table V
  delete k [] = []
  delete k ((j, v) ∷ t) = let rest = delete k t in if j == k then rest else (j, v) ∷ rest

  -- m[k] = v
  unfoldable pub put : ℕ → V → Table V → Table V
  put k v t = (k, v) ∷ delete k t

  pub lookup-delete :
      (k j : ℕ) (t : Table V) → lookup j (delete k t) ≡ (if k == j then none else lookup j t)
  unfolding lookup delete
  lookup-delete k j [] = ground arith
  lookup-delete k j ((i, v) ∷ t) = ground (arith, lookup-delete k j t)

  pub lookup-put :
      (k j : ℕ) (v : V) (t : Table V)
      → lookup j (put k v t) ≡ (if k == j then some v else lookup j t)
  unfolding lookup put
  lookup-put k j v t = ground (arith, lookup-delete k j t)

  pub lookup-delete_self : (k : ℕ) (t : Table V) → lookup k (delete k t) ≡ none
  lookup-delete_self k t = ground (arith, lookup-delete k k t)

  pub lookup-put_self : (k : ℕ) (v : V) (t : Table V) → lookup k (put k v t) ≡ some v
  lookup-put_self k v t = ground (arith, lookup-put k k v t)
