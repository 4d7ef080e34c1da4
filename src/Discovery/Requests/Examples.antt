-- ===== src/Discovery/Requests/Examples.antt =====
-- A request with a token and a reference with a dotted name, and the theorems at them.
use cnpg_connect_plugin.Prelude.{
  ◌≤◌, ◌≡◌, ◌↔◌, ◌⊎◌, refl, String, true, false, not, [], ◌∷◌, arith, string_beq,
}
use cnpg_connect_plugin.Routing.{Digest, digest_beq}
use cnpg_connect_plugin.Settings.Token.{byte_length}
use cnpg_connect_plugin.Discovery.Requests.{
  NameRules, new_server, authorize, cut_space, equal_fold, lower, validate_reference,
  valid_dns_name, split_dots, prepend, all_labels,
}
use cnpg_connect_plugin.Discovery.Requests.Bearer.{IsBearer, authorize-IsBearer}
use cnpg_connect_plugin.Discovery.Requests.Names.{has_dot, AreLabels, reference-AreLabels}

abbrev digest_a : String → Digest
digest_a s = byte_length s ∷ []

lets_in : authorize digest_a (new_server digest_a "secret") ("bearer secret" ∷ []) ≡ true
unfolding authorize new_server cut_space equal_fold lower digest_beq byte_length string_beq
lets_in = refl

refuses_two : authorize digest_a (new_server digest_a "secret") ("Bearer secret" ∷ "" ∷ []) ≡ false
unfolding authorize new_server string_beq
refuses_two = refl

authorize-IsBearer_example :
    (authorize digest_a (new_server digest_a "secret") ("bearer secret" ∷ []) ≡ true)
    ↔ (◌≡◌ {A = String} "secret" "" ⊎ IsBearer digest_a (digest_a "secret") ("bearer secret" ∷ []))
authorize-IsBearer_example = authorize-IsBearer digest_a "secret" ("bearer secret" ∷ [])

-- A stand-in for the rules: a label is a text without a dot.
abbrev rules_a : NameRules
rules_a = record { is_label = λ l. not (has_dot l); subdomain_max_length = 253 }

labels_a : (l : String) → rules_a.is_label l ≡ true → has_dot l ≡ false
labels_a l h = ground (arith, h)

is_valid : validate_reference rules_a "shop" "orders.eu" ≡ true
unfolding validate_reference valid_dns_name split_dots prepend all_labels byte_length has_dot
is_valid = refl

is_invalid : validate_reference rules_a "shop.eu" "orders" ≡ false
unfolding validate_reference valid_dns_name has_dot
is_invalid = refl

reference-AreLabels_example : (validate_reference rules_a "shop" "orders.eu" ≡ true) ↔ (
    (rules_a.is_label "shop" ≡ true)
    × (byte_length "orders.eu" ≤ rules_a.subdomain_max_length)
    × AreLabels rules_a "orders.eu")
reference-AreLabels_example = reference-AreLabels rules_a "shop" "orders.eu" labels_a
