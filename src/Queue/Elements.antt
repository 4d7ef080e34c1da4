-- ===== src/Queue/Elements.antt =====
-- The doubly linked lists of the queue (container/list), as lists of numbered elements.
use cnpg_connect_plugin.Prelude.{
  ℕ, suc, ◌<◌, ◌≡◌, refl, Bool, true, false, ◌||◌, Option, none, some, List, [], ◌∷◌, ◌++◌, arith,
  if◌then◌else◌, nat_beq, or_else, is_some, map, contains,
}
use cnpg_connect_plugin.Key.{ClusterKey, key_beq, key_beq_iff, key_eq}

pub record Element : Type 0 where
  pub id : ℕ
  pub value : ClusterKey

-- `l.Remove(e)` does nothing when `e` is not an element of `l`.
unfoldable pub remove_element : Element → List Element → List Element
remove_element e [] = []
remove_element e (x ∷ xs) = if nat_beq x.id e.id then xs else x ∷ remove_element e xs

abbrev pub is_empty : List Element → Bool
is_empty [] = true
is_empty (x ∷ xs) = false

-- The first element that holds a key.
unfoldable pub find : ClusterKey → List Element → Option Element
find k [] = none
find k (x ∷ xs) = if key_beq x.value k then some x else find k xs

unfoldable pub has_id : ℕ → List Element → Bool
has_id i [] = false
has_id i (x ∷ xs) = nat_beq x.id i || has_id i xs

-- Elements were allocated before number `n`, and no number and no key stands twice.
abbrev pub WellFormed : ℕ → List Element → Type 0
WellFormed n [] = Unit
WellFormed n (x ∷ xs) =
    (x.id < n) × (find x.value xs ≡ none) × (has_id x.id xs ≡ false) × WellFormed n xs

pub find-append :
    (k : ClusterKey) (xs ys : List Element) → find k (xs ++ ys) ≡ or_else (find k xs) (find k ys)
unfolding find
find-append k [] ys = refl
find-append k (x ∷ xs) ys = ground (arith, find-append k xs ys)

pub find-has_id :
    (k : ClusterKey) (xs : List Element) (e : Element) → find k xs ≡ some e → has_id e.id xs ≡ true
unfolding find has_id
find-has_id k [] e h = cc
find-has_id k (x ∷ xs) e h = ground (arith, find-has_id k xs e)

has_id_bound : (n i : ℕ) (xs : List Element) → WellFormed n xs → has_id i xs ≡ true → i < n
unfolding has_id
has_id_bound n i [] w h = cc
has_id_bound n i (x ∷ xs) w h = ground (arith, has_id_bound n i xs w.3)

pub WellFormed-suc : (n : ℕ) (xs : List Element) → WellFormed n xs → WellFormed (suc n) xs
WellFormed-suc n [] w = tt
WellFormed-suc n (x ∷ xs) w = (omega arith, w.1, w.2, WellFormed-suc n xs w.3)

has_id-append : (i : ℕ) (xs ys : List Element) → has_id i (xs ++ ys) ≡ (has_id i xs || has_id i ys)
unfolding has_id
has_id-append i [] ys = refl
has_id-append i (x ∷ xs) ys = ground (arith, has_id-append i xs ys)

pub WellFormed-push :
    (n : ℕ) (k : ClusterKey) (xs : List Element)
    → WellFormed n xs
    → find k xs ≡ none
    → WellFormed (suc n) (xs ++ (record { id = n; value = k } ∷ []))
unfolding find has_id
WellFormed-push n k [] w h = (omega arith, refl, refl, tt)
WellFormed-push n k (x ∷ xs) w h =
    let e : Element = record { id = n; value = k } in
    ground (
      arith,
      key_beq_iff x.value k,
      key_beq_iff k x.value,
      find-append x.value xs (e ∷ []),
      has_id-append x.id xs (e ∷ []),
      WellFormed-push n k xs w.3,
    )

pub find-remove_element :
    (n : ℕ) (k j : ClusterKey) (e : Element) (xs : List Element)
    → WellFormed n xs
    → find k xs ≡ some e
    → find j (remove_element e xs) ≡ (if key_beq k j then none else find j xs)
unfolding find remove_element
find-remove_element n k j e [] w h = cc
find-remove_element n k j e (x ∷ xs) w h = ground (
  arith,
  key_beq_iff x.value k,
  key_beq_iff x.value j,
  key_beq_iff k j,
  find-has_id k xs e,
  find-remove_element n k j e xs w.3,
)

has_id-remove_element :
    (i : ℕ) (e : Element) (xs : List Element)
    → has_id i xs ≡ false
    → has_id i (remove_element e xs) ≡ false
unfolding has_id remove_element
has_id-remove_element i e [] h = refl
has_id-remove_element i e (x ∷ xs) h = ground (arith, has_id-remove_element i e xs)

find-remove_element_absent :
    (k : ClusterKey) (e : Element) (xs : List Element)
    → find k xs ≡ none
    → find k (remove_element e xs) ≡ none
unfolding find remove_element
find-remove_element_absent k e [] h = refl
find-remove_element_absent k e (x ∷ xs) h = ground (arith, find-remove_element_absent k e xs)

pub remove_element-WellFormed :
    (n : ℕ) (e : Element) (xs : List Element) → WellFormed n xs → WellFormed n (remove_element e xs)
unfolding remove_element
remove_element-WellFormed n e [] w = tt
remove_element-WellFormed n e (x ∷ xs) w = ground (
  arith,
  has_id-remove_element x.id e xs,
  find-remove_element_absent x.value e xs,
  remove_element-WellFormed n e xs w.3,
)

abbrev pub values : List Element → List ClusterKey
values = map (λ e. e.value)

pub contains-values :
    (k : ClusterKey) (xs : List Element) → contains (values xs) k ≡ is_some (find k xs)
unfolding contains find
contains-values k [] = refl
contains-values k (x ∷ xs) = ground (arith, contains-values k xs)

pub front_found : (x : Element) (xs : List Element) → find x.value (x ∷ xs) ≡ some x
unfolding find
front_found x xs = ground (arith, key_beq_iff x.value x.value)
