-- ===== src/Settings/Accepted.antt =====
-- Which settings validate (cmd/cnpg-connect-plugin/main.go) accepts, and that New of
-- internal/observer/observer.go and newAdmission of internal/server/admission.go accept them too.
use cnpg_connect_plugin.Prelude.{
  ◌+◌, ◌≤◌, ◌<◌, ◌≡◌, ◌↔◌, ◌⊎◌, inl, inr, refl, true, false, ◌&&◌, ◌||◌, not, some, arith, is_some,
  Bool-cases, Option-cases,
}
use cnpg_connect_plugin.Prelude.Result.{ok}
use cnpg_connect_plugin.Admission.{Admission, normalized, new_admission}
use cnpg_connect_plugin.Observer.Options.{check_options}
use cnpg_connect_plugin.Settings.{
  Settings, empty, has_credentials, validate, validate_numbers, validate_credentials,
  observer_options,
}

-- Validity as the documentation of the flags states it.
pub record IsAccepted (s : Settings) : Type 0 where
  pub limits : is_some (normalized s.limits) ≡ true
  pub qps :
      (s.kube_api_qps.is_positive ≡ true)
      × (s.kube_api_qps.is_huge ≡ false)
      × (s.kube_api_qps.is_lost ≡ false)
  pub burst : 1 ≤ s.kube_api_burst
  pub poll : 1 ≤ s.poll_interval
  pub probe : 1 ≤ s.probe_timeout
  pub fits : s.poll_interval + s.probe_timeout < s.ttl
  pub concurrency : (1 ≤ s.max_concurrency) × (s.max_concurrency ≤ 1024)
  pub clusters : (1 ≤ s.max_concurrent_clusters) × (s.max_concurrent_clusters ≤ 1024)
  pub addresses :
      (empty s.plugin_address ≡ false)
      × (empty s.discovery_address ≡ false)
      × (empty s.health_address ≡ false)
  -- With -insecure no credentials; else those of the operator's listener, and those of the
  -- discovery listener unless a gateway ends TLS.
  pub credentials :
      ((s.insecure ≡ true) × (has_credentials s ≡ false))
      ⊎ ((s.insecure ≡ false)
          × ((empty s.server_cert || (empty s.server_key || empty s.client_ca)) ≡ false)
          × ((not s.discovery_plaintext && (empty s.discovery_cert || empty s.discovery_key))
              ≡ false))

numbers_ok :
    (s : Settings)
    → validate_numbers s ≡ ok tt
    → (is_some (normalized s.limits) ≡ true)
      × (s.kube_api_qps.is_positive ≡ true)
      × (s.kube_api_qps.is_huge ≡ false)
      × (s.kube_api_qps.is_lost ≡ false)
      × (1 ≤ s.kube_api_burst)
      × (1 ≤ s.poll_interval)
      × (1 ≤ s.probe_timeout)
      × (s.poll_interval + s.probe_timeout < s.ttl)
      × (1 ≤ s.max_concurrency)
      × (s.max_concurrency ≤ 1024)
      × (1 ≤ s.max_concurrent_clusters)
      × (s.max_concurrent_clusters ≤ 1024)
unfolding validate_numbers
numbers_ok s h = ground arith

numbers_accepted : (s : Settings) → IsAccepted s → validate_numbers s ≡ ok tt
unfolding validate_numbers
numbers_accepted s v =
    ground (arith, v.limits, v.qps, v.burst, v.poll, v.probe, v.fits, v.concurrency, v.clusters)

credentials_accepted : (s : Settings) → IsAccepted s → validate_credentials s ≡ ok tt
unfolding validate_credentials
credentials_accepted s v = elim v.credentials [
  | inl (e, c) ↦ rw (e, c) refl
  | inr (e, p, d) ↦ rw (e, p, d) refl
]

-- Settings are accepted exactly where they are valid: every error of validate is due to a
-- condition that does not hold, and each of its conditions is checked.
pub validate-IsAccepted : (s : Settings) → (validate s ≡ ok tt) ↔ IsAccepted s
unfolding validate validate_credentials
validate-IsAccepted s = (
  λ h.
      let (l, q1, q2, q3, b, p, pr, f, c1, c2, k1, k2) = numbers_ok s (ground arith) in
      record {
        limits = l;
        qps = (q1, q2, q3);
        burst = b;
        poll = p;
        probe = pr;
        fits = f;
        concurrency = (c1, c2);
        clusters = (k1, k2);
        addresses = (ground arith, ground arith, ground arith);
        credentials = elim (Bool-cases s.insecure) [
          | inl e ↦ inl (e, ground arith)
          | inr e ↦ inr (e, ground arith, ground arith)
        ];
      },
  λ v.
      let (plugin, discovery, health) = v.addresses in
      rw (numbers_accepted s v, plugin, discovery, health) (credentials_accepted s v),
)

-- An observer can be made with accepted settings, and limits the discovery server: neither New nor
-- newAdmission fails on what validate has accepted, and New changes no option.
pub accepted_options :
    (s : Settings)
    → validate s ≡ ok tt
    → (check_options true (observer_options s) ≡ ok (observer_options s))
      × ((a : Admission) × (new_admission s.limits ≡ some a))
unfolding check_options observer_options new_admission
accepted_options s h =
    let v = (validate-IsAccepted s).0 h in
    (
      ground (arith, v.poll, v.probe, v.fits, v.concurrency, v.clusters),
      elim (Option-cases (normalized s.limits)) [
        | inl e ↦ absurd (ground (arith, v.limits))
        | inr (n, e) ↦ rw (e, new_admission) (_, refl)
      ],
    )
