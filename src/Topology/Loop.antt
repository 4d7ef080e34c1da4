-- ===== src/Topology/Loop.antt =====
-- What the loop of buildSnapshot (internal/observer/topology.go) computes, in closed form.
use cnpg_connect_plugin.Prelude.{
  ℕ, zero, suc, ◌+◌, ◌≤◌, ◌≡◌, refl, sym, ◌∙◌, ◌⊎◌, inl, inr, String, Bool, true, false, ◌&&◌, ◌||◌,
  not, some, List, [], ◌∷◌, ◌++◌, map, arith, string_beq, string_beq_iff, is_some, length,
  filter_by, Bool-cases,
}
use cnpg_connect_plugin.Kube.{Pod, Parameters}
use cnpg_connect_plugin.Status.{StatusResult}
use cnpg_connect_plugin.Topology.{Scan, scan, scan_round, claims_primary, member_of}
use cnpg_connect_plugin.Topology.Build.{pair_at}
use mathlib.Core.List.{append_assoc, append-nil}

abbrev pub Pairs : Type 0
Pairs = List (Pod × StatusResult)

abbrev pub claimants : List String → Pairs → Pairs
claimants fenced = filter_by (claims_primary fenced)

-- Some instance of the list carries the name that the Cluster gives its primary.
abbrev pub any_named : String → Pairs → Bool
any_named current [] = false
any_named current (pr ∷ prs) = string_beq pr.0.name current || any_named current prs

empty_of_length : (l : Pairs) → length l ≤ 0 → l ≡ []
empty_of_length [] h = refl
empty_of_length (x ∷ l) h = absurd (omega arith)

module _ (fenced : List String) where
  no_claimant :
      (j : ℕ) (prs : Pairs) (pr : Pod × StatusResult)
      → claimants fenced prs ≡ []
      → pair_at j prs ≡ some pr
      → claims_primary fenced pr ≡ true
      → ⊥
  unfolding pair_at
  no_claimant j [] pr e at c = cc
  no_claimant zero (x ∷ prs) pr e at c = ground arith
  no_claimant (suc j) (x ∷ prs) pr e at c = no_claimant j prs pr (ground arith) at c

  pub one_claimant :
      (j : ℕ) (prs : Pairs) (pr : Pod × StatusResult)
      → length (claimants fenced prs) ≤ 1
      → pair_at j prs ≡ some pr
      → claims_primary fenced pr ≡ true
      → claimants fenced prs ≡ pr ∷ []
  unfolding pair_at
  one_claimant j [] pr l at c = cc
  one_claimant zero (x ∷ prs) pr l at c = ground (arith, empty_of_length (claimants fenced prs))
  one_claimant (suc j) (x ∷ prs) pr l at c = elim (Bool-cases (claims_primary fenced x)) [
    | inl yes' ↦ absurd (ground (arith, one_claimant j prs pr (ground arith) at c))
    | inr no' ↦ ground (arith, one_claimant j prs pr (ground arith) at c)
  ]

  pub sole_claimant :
      (j : ℕ) (prs : Pairs) (pr p : Pod × StatusResult)
      → claimants fenced prs ≡ p ∷ []
      → pair_at j prs ≡ some pr
      → claims_primary fenced pr ≡ true
      → pr ≡ p
  unfolding pair_at
  sole_claimant j [] pr p e at c = cc
  sole_claimant zero (x ∷ prs) pr p e at c = ground arith
  sole_claimant (suc j) (x ∷ prs) pr p e at c = elim (Bool-cases (claims_primary fenced x)) [
    | inl yes' ↦ absurd (no_claimant j prs pr (ground arith) at c)
    | inr no' ↦ sole_claimant j prs pr p (ground arith) at c
  ]

module _ (fenced : List String) (params : Parameters) (server current : String)
    (transits : Bool) where
  abbrev run_scan : ℕ → Pairs → Scan → Scan
  run_scan = scan fenced params server current transits

  abbrev round : ℕ → Pod × StatusResult → Scan → Scan
  round = scan_round fenced params server current transits

  pub scan-members :
      (i : ℕ) (prs : Pairs) (acc : Scan)
      → (run_scan i prs acc).members ≡ acc.members ++ map (member_of fenced params server) prs
  unfolding scan
  scan-members i [] acc = sym (append-nil acc.members)
  scan-members i (pr ∷ prs) acc =
      scan-members (suc i) prs (round i pr acc) ∙ append_assoc acc.members _ _

  pub scan-count :
      (i : ℕ) (prs : Pairs) (acc : Scan)
      → (run_scan i prs acc).primary_count ≡ acc.primary_count + length (claimants fenced prs)
  unfolding scan
  scan-count i [] acc = omega arith
  scan-count i (pr ∷ prs) acc = ground (arith, scan-count (suc i) prs (round i pr acc))

  pub scan_index_found :
      (i : ℕ) (prs : Pairs) (acc : Scan)
      → transits ≡ false
      → is_some (run_scan i prs acc).primary_index
        ≡ (is_some acc.primary_index || any_named current (claimants fenced prs))
  unfolding scan
  scan_index_found i [] acc t = ground arith
  scan_index_found i (pr ∷ prs) acc t =
      ground (arith, scan_index_found (suc i) prs (round i pr acc) t)

  -- Where the index that the loop ends with points to.
  abbrev pub Indexed : ℕ → ℕ → Pairs → Type 0
  Indexed i k prs =
      (j : ℕ) × (pr : Pod × StatusResult) × (k ≡ i + j)
      × (pair_at j prs ≡ some pr)
      × (claims_primary fenced pr ≡ true)
      × (pr.0.name ≡ current)

  pub scan_index :
      (i k : ℕ) (prs : Pairs) (acc : Scan)
      → (run_scan i prs acc).primary_index ≡ some k
      → (acc.primary_index ≡ some k) ⊎ Indexed i k prs
  unfolding scan pair_at
  scan_index i k [] acc h = inl h
  scan_index i k (x ∷ prs) acc h = elim (scan_index (suc i) k prs (round i x acc) h) [
    | inr (j, pr, e, at, c, n) ↦ inr (suc j, pr, omega arith, at, c, n)
    | inl e ↦
        elim (Bool-cases
          (claims_primary fenced x && (string_beq x.0.name current && not transits))) [
            | inl here ↦ inr (
              0,
              x,
              ground arith,
              refl,
              ground arith,
              (string_beq_iff x.0.name current).0 (ground arith),
            )
            | inr not_here ↦ inl (ground arith)
          ]
  ]
