-- ===== src/Discovery/Requests/Names.antt =====
-- Which names validDNSName (internal/discovery/grpc.go) accepts.
use Prim.Native.Char.{Char, code}
use text.Mathlib.TextEquality.{Char-path}
use cnpg_connect_plugin.Prelude.{
  ◌≤◌, ◌≡◌, ◌↔◌, refl, sym, ◌∙◌, ap, subst, String, Bool, true, false, ◌||◌, List, [], ◌∷◌, arith,
  nat_beq, nat_beq_iff, All, Bool-cases, inl, inr,
}
use cnpg_connect_plugin.Settings.Token.{byte_length}
use cnpg_connect_plugin.Discovery.Requests.{
  prepend, split_dots, NameRules, all_labels, valid_dns_name, validate_reference,
}

abbrev dot : Char
dot = "."

-- A text, a dot and another text.
unfoldable pub dotted : String → String → String
dotted String.[] t = String.◌∷◌ dot t
dotted (String.◌∷◌ c s) t = String.◌∷◌ c (dotted s t)

unfoldable pub join_dots : List String → String
unfolding dotted
join_dots [] = ""
join_dots (label ∷ []) = label
join_dots (label ∷ second ∷ rest) = dotted label (join_dots (second ∷ rest))

unfoldable pub has_dot : String → Bool
has_dot String.[] = false
has_dot (String.◌∷◌ c s) = nat_beq (code c) 46 || has_dot s

-- Labels joined by dots; a label has none itself.
abbrev pub AreLabels : NameRules → String → Type 0
AreLabels rules value =
    (label : String) × (labels : List String) × (value ≡ join_dots (label ∷ labels))
    × All (λ l. rules.is_label l ≡ true) (label ∷ labels)

all_labels-All :
    (rules : NameRules) (labels : List String)
    → (all_labels rules labels ≡ true) ↔ All (λ l. rules.is_label l ≡ true) labels
unfolding all_labels
all_labels-All rules [] = (λ h. tt, λ h. refl)
all_labels-All rules (l ∷ ls) =
    let later = all_labels-All rules ls in
    (λ h. (ground arith, later.0 (ground arith)), λ h. ground (arith, h.0, later.1 h.1))

join-prepend :
    (c : Char) (ls : List String) → join_dots (prepend c ls) ≡ String.◌∷◌ c (join_dots ls)
unfolding prepend join_dots dotted
join-prepend c [] = refl
join-prepend c (l ∷ []) = refl
join-prepend c (l ∷ m ∷ ls) = refl

split-parts :
    (s : String) → (label : String) × (labels : List String) × (split_dots s ≡ label ∷ labels)
unfolding split_dots prepend
split-parts String.[] = ("", [], refl)
split-parts (String.◌∷◌ c s) =
    let (l, ls, e) = split-parts s in
    elim (Bool-cases (nat_beq (code c) 46)) [
      | inl d ↦ ("", split_dots s, rw d refl)
      | inr d ↦ (String.◌∷◌ c l, ls, rw (d, e) refl)
    ]

join-blank :
    (s : String) → join_dots ("" ∷ split_dots s) ≡ String.◌∷◌ dot (join_dots (split_dots s))
unfolding join_dots dotted
join-blank s = let (l, ls, e) = split-parts s in rw e refl

-- The dots of a text are those between its parts.
join-split : (s : String) → join_dots (split_dots s) ≡ s
unfolding split_dots
join-split String.[] = unfold join_dots in refl
join-split (String.◌∷◌ c s) = elim (Bool-cases (nat_beq (code c) 46)) [
  | inl d ↦
      let same : dot ≡ c = Char-path dot c (sym ((nat_beq_iff (code c) 46).0 d)) in
      rw d
        (join-blank s ∙ ap (λ t. String.◌∷◌ dot t) (join-split s) ∙ ap (λ x. String.◌∷◌ x s) same)
  | inr d ↦ rw d (join-prepend c (split_dots s) ∙ ap (λ t. String.◌∷◌ c t) (join-split s))
]

split-dotted : (l s : String) → has_dot l ≡ false → split_dots (dotted l s) ≡ l ∷ split_dots s
unfolding split_dots dotted has_dot prepend
split-dotted String.[] s h = refl
split-dotted (String.◌∷◌ c l) s h =
    let d : nat_beq (code c) 46 ≡ false = ground (arith, h) in
    rw (d, split-dotted l s (ground (arith, h))) refl

split-dotless : (l : String) → has_dot l ≡ false → split_dots l ≡ l ∷ []
unfolding split_dots has_dot prepend
split-dotless String.[] h = refl
split-dotless (String.◌∷◌ c l) h =
    let d : nat_beq (code c) 46 ≡ false = ground (arith, h) in
    rw (d, split-dotless l (ground (arith, h))) refl

split-join :
    (l : String) (ls : List String)
    → All (λ x. has_dot x ≡ false) (l ∷ ls)
    → split_dots (join_dots (l ∷ ls)) ≡ l ∷ ls
unfolding join_dots
split-join l [] h = split-dotless l h.0
split-join l (m ∷ ls) h =
    split-dotted l (join_dots (m ∷ ls)) h.0 ∙ ap (λ xs. l ∷ xs) (split-join m ls h.1)

module _ (rules : NameRules)
    (dotless : (l : String) → rules.is_label l ≡ true → has_dot l ≡ false) where
  dotless-All :
      (ls : List String) → All (λ l. rules.is_label l ≡ true) ls → All (λ l. has_dot l ≡ false) ls
  dotless-All [] h = tt
  dotless-All (l ∷ ls) h = (dotless l h.0, dotless-All ls h.1)

  split-AreLabels :
      (value : String) → (all_labels rules (split_dots value) ≡ true) ↔ AreLabels rules value
  split-AreLabels value = (
    λ h.
        let (l, ls, e) = split-parts value in
        let valid : All (λ l. rules.is_label l ≡ true) (l ∷ ls) =
          subst (All (λ l. rules.is_label l ≡ true)) e
            ((all_labels-All rules (split_dots value)).0 h) in
        (l, ls, sym (join-split value) ∙ ap join_dots e, valid),
    λ (l, ls, e, valid).
        ap (λ v. all_labels rules (split_dots v)) e
        ∙ ap (all_labels rules) (split-join l ls (dotless-All (l ∷ ls) valid))
        ∙ (all_labels-All rules (l ∷ ls)).1 valid,
  )

-- A reference is valid if and only if its namespace is a label, and its name is labels joined by
-- dots and has at most the longest length of a subdomain in bytes; a label has no dot.
pub reference-AreLabels :
    (rules : NameRules) (namespace name : String)
    → ((l : String) → rules.is_label l ≡ true → has_dot l ≡ false)
    → (validate_reference rules namespace name ≡ true) ↔ (
        (rules.is_label namespace ≡ true)
        × (byte_length name ≤ rules.subdomain_max_length)
        × AreLabels rules name)
unfolding validate_reference valid_dns_name
reference-AreLabels rules namespace name dotless =
    let labels = split-AreLabels rules dotless name in
    (
      λ h.
          let valid : all_labels rules (split_dots name) ≡ true = ground (arith, h) in
          (ground (arith, h), ground (arith, h), labels.0 valid),
      λ (single, bound, many). ground (arith, single, bound, labels.1 many),
    )
