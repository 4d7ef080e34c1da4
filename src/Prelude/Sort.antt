-- ===== src/Prelude/Sort.antt =====
-- Sorting by a test. Where the test leaves two items equal, Go's sort may order them either way;
-- this one keeps their order.
use mathlib.Core.Bool.{Bool}
use mathlib.Core.List.{List, [], ◌∷◌}
use cnpg_connect_plugin.Prelude.Tests.{if◌then◌else◌}

module _ {A : Type 0} (less : A → A → Bool) where
  unfoldable pub place : A → List A → List A
  place a [] = a ∷ []
  place a (x ∷ xs) = if less x a then x ∷ place a xs else a ∷ x ∷ xs

  unfoldable pub sort_by : List A → List A
  unfolding place
  sort_by [] = []
  sort_by (x ∷ xs) = place x (sort_by xs)
