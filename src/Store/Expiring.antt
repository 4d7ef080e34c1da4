-- ===== src/Store/Expiring.antt =====
-- The periodic expiry of the store (internal/discovery/store.go).
use cnpg_connect_plugin.Prelude.{
  contains, ◌≤◌, ◌≡◌, refl, ◌∙◌, ap, ◌⊎◌, inl, inr, true, false, none, some, List, [], ◌∷◌, arith,
  Bool-cases, Option-cases,
}
use cnpg_connect_plugin.Prelude.Map.{Map, lookup, has, lookup-insert}
use cnpg_connect_plugin.Key.{ClusterKey, key_eq, key_beq, key_beq_iff}
use cnpg_connect_plugin.Api.{Snapshot, Time}
use cnpg_connect_plugin.Routing.{Digest, invalidate}
use cnpg_connect_plugin.Store.{expire_record, Store, StoredRecord}
use cnpg_connect_plugin.Store.Invariant.{expired_record}
use cnpg_connect_plugin.Store.Expiry.{
  Checked, Checked-cases, expired_store, expire_record_stays, expire_record_over, stored_expired,
}
use cnpg_connect_plugin.Store.Sweep.{expire_keys, expire, keys_of, live_leases}

-- What an expiry makes of a record: it is marked expired or still valid, its times are as they
-- were, and nothing is done to a record that needs nothing.
pub record Aged (now : Time) (r s : StoredRecord) : Type 0 where
  pub checked : Checked now s
  pub observed : s.publication.snapshot.observed_at ≡ r.publication.snapshot.observed_at
  pub valid : s.publication.snapshot.valid_until ≡ r.publication.snapshot.valid_until
  pub kept : (s ≡ r) ⊎ ((r.expired ≡ false) × (r.publication.snapshot.valid_until ≤ now))

abbrev pub Ages : Time → ClusterKey → StoredRecord → Store → Type 0
Ages now k r st = (s : StoredRecord) × (lookup k st.records ≡ some s) × Aged now r s

over_not_Checked :
    (now : Time) (r : StoredRecord)
    → r.expired ≡ false
    → r.publication.snapshot.valid_until ≤ now
    → Checked now r
    → ⊥
over_not_Checked now r e h (inl x) = cc
over_not_Checked now r e h (inr l) = omega arith

stays : (now : Time) (r s : StoredRecord) → Aged now r s → Checked now r → s ≡ r
stays now r s a c = elim a.kept [ inl e ↦ e | inr (e, o) ↦ absurd (over_not_Checked now r e o c) ]

module _ (hash : Snapshot → Digest) (now : Time) where
  expired_record-Aged :
      (st : Store) (r : StoredRecord)
      → r.expired ≡ false
      → r.publication.snapshot.valid_until ≤ now
      → Aged now r (expired_record hash st r)
  unfolding expired_record invalidate
  expired_record-Aged st r e h = record {
    checked = inl refl;
    observed = refl;
    valid = refl;
    kept = inr (e, h);
  }

  expire_record-Ages :
      (st : Store) (k : ClusterKey) (r : StoredRecord)
      → lookup k st.records ≡ some r
      → Ages now k r (expire_record hash st k r now).0
  expire_record-Ages st k r h = elim (Checked-cases hash st k r now) [
    | inl c ↦
        rw (expire_record_stays hash st k r now c)
          (r, h, record { checked = c; observed = refl; valid = refl; kept = inl refl })
    | inr (e, o) ↦
        rw (expire_record_over hash st k r now e o)
          (expired_record hash st r, stored_expired hash st k r, expired_record-Aged st r e o)
  ]

  expire_record_other :
      (st : Store) (k j : ClusterKey) (r : StoredRecord)
      → key_beq k j ≡ false
      → lookup j (expire_record hash st k r now).0.records ≡ lookup j st.records
  unfolding expired_store
  expire_record_other st k j r ne = elim (Checked-cases hash st k r now) [
    | inl c ↦ rw (expire_record_stays hash st k r now c) refl
    | inr (e, o) ↦
        rw (expire_record_over hash st k r now e o)
          (ground (arith, lookup-insert k j (expired_record hash st r) st.records))
  ]

  visit : Store → ClusterKey → Store
  visit st k = elim (lookup k st.records) [ none ↦ st | some r ↦ (expire_record hash st k r now).0 ]

  expire_keys-visit :
      (k : ClusterKey) (ks : List ClusterKey) (st : Store)
      → (expire_keys hash now (k ∷ ks) st).0 ≡ (expire_keys hash now ks (visit st k)).0
  unfolding expire_keys visit
  expire_keys-visit k ks st = elim (Option-cases (lookup k st.records)) [
    | inl e ↦ rw (e, expire_keys, visit)
    | inr (r, e) ↦ rw (e, expire_keys, visit)
  ]

  visit-Ages :
      (st : Store) (k : ClusterKey) (r : StoredRecord)
      → lookup k st.records ≡ some r
      → Ages now k r (visit st k)
  unfolding visit
  visit-Ages st k r h = rw (h, visit) (expire_record-Ages st k r h)

  visit_other :
      (st : Store) (k j : ClusterKey)
      → key_beq k j ≡ false
      → lookup j (visit st k).records ≡ lookup j st.records
  unfolding visit
  visit_other st k j ne = elim (Option-cases (lookup k st.records)) [
    | inl e ↦ rw (e, visit)
    | inr (r, e) ↦ rw (e, visit) (expire_record_other st k j r ne)
  ]

  visit-Checked :
      (st : Store) (k j : ClusterKey) (r : StoredRecord)
      → lookup j st.records ≡ some r
      → Checked now r
      → lookup j (visit st k).records ≡ some r
  visit-Checked st k j r h c = elim (Bool-cases (key_beq k j)) [
    | inl same ↦
        let q : k ≡ j = (key_beq_iff k j).0 same in
        rw q (let (s, e, a) = visit-Ages st j r h in e ∙ ap some (stays now r s a c))
    | inr other ↦ visit_other st k j other ∙ h
  ]

  keys_keep-Checked :
      (ks : List ClusterKey) (st : Store) (j : ClusterKey) (r : StoredRecord)
      → lookup j st.records ≡ some r
      → Checked now r
      → lookup j (expire_keys hash now ks st).0.records ≡ some r
  unfolding expire_keys
  keys_keep-Checked [] st j r h c = h
  keys_keep-Checked (k ∷ ks) st j r h c =
      rw (expire_keys-visit k ks st)
        (keys_keep-Checked ks (visit st k) j r (visit-Checked st k j r h c) c)

  expire_keys-Ages :
      (ks : List ClusterKey) (st : Store) (j : ClusterKey) (r : StoredRecord)
      → lookup j st.records ≡ some r
      → contains ks j ≡ true
      → Ages now j r (expire_keys hash now ks st).0
  unfolding contains
  expire_keys-Ages [] st j r h m = cc
  expire_keys-Ages (k ∷ ks) st j r h m = elim (Bool-cases (key_beq k j)) [
    | inl same ↦
        let q : k ≡ j = (key_beq_iff k j).0 same in
        let (s, e, a) = visit-Ages st j r h in
        rw (expire_keys-visit k ks st)
          (s, keys_keep-Checked ks (visit st k) j s (rw q e) a.checked, a)
    | inr other ↦
        rw (expire_keys-visit k ks st)
          (expire_keys-Ages ks (visit st k) j r (visit_other st k j other ∙ h) (ground arith))
  ]

  visit_missing :
      (st : Store) (k j : ClusterKey)
      → lookup j st.records ≡ none
      → lookup j (visit st k).records ≡ none
  unfolding visit
  visit_missing st k j h = elim (Option-cases (lookup k st.records)) [
    | inl e ↦ rw (e, visit) h
    | inr (r, e) ↦
        rw (e, visit) (expire_record_other st k j r (ground (arith, key_beq_iff k j)) ∙ h)
  ]

  keys_keep_missing :
      (ks : List ClusterKey) (st : Store) (j : ClusterKey)
      → lookup j st.records ≡ none
      → lookup j (expire_keys hash now ks st).0.records ≡ none
  unfolding expire_keys
  keys_keep_missing [] st j h = h
  keys_keep_missing (k ∷ ks) st j h =
      rw (expire_keys-visit k ks st) (keys_keep_missing ks (visit st k) j (visit_missing st k j h))

  -- Nothing happens where every record is marked expired or still valid.
  expire_keys_idle :
      (ks : List ClusterKey) (st : Store)
      → ((k : ClusterKey) (r : StoredRecord) → lookup k st.records ≡ some r → Checked now r)
      → expire_keys hash now ks st ≡ (st, [])
  unfolding expire_keys
  expire_keys_idle [] st c = refl
  expire_keys_idle (k ∷ ks) st c = elim (Option-cases (lookup k st.records)) [
    | inl e ↦ rw (e, expire_keys) (expire_keys_idle ks st c)
    | inr (r, e) ↦
        rw (e, expire_keys, expire_record_stays hash st k r now (c k r e))
          (rw (expire_keys_idle ks st c))
  ]

  contains-keys_of :
      (k : ClusterKey) (m : Map ClusterKey StoredRecord) → contains (keys_of m) k ≡ has k m
  unfolding contains lookup
  contains-keys_of k [] = refl
  contains-keys_of k ((j, r) ∷ m) = ground (arith, contains-keys_of k m)

  -- The sweep reaches every cluster: a record of the store is afterwards marked expired or still
  -- valid at the time of the sweep, keeps its times of observation and validity, and is the same
  -- record unless it was not yet marked and its validity had ended.
  pub expire-Ages :
      (st : Store) (k : ClusterKey) (r : StoredRecord)
      → lookup k st.records ≡ some r
      → Ages now k r (expire hash st now).0
  unfolding expire
  expire-Ages st k r h =
      expire_keys-Ages (keys_of st.records) st k r h (rw (contains-keys_of k st.records, h))

  -- No record appears in a sweep.
  pub expire_missing :
      (st : Store) (k : ClusterKey)
      → lookup k st.records ≡ none
      → lookup k (expire hash st now).0.records ≡ none
  unfolding expire
  expire_missing st k = keys_keep_missing (keys_of st.records) st k

  live_leases_idem :
      (m : Map ClusterKey Time) → live_leases now (live_leases now m) ≡ live_leases now m
  unfolding live_leases
  live_leases_idem [] = refl
  live_leases_idem ((k, t) ∷ m) = ground (arith, live_leases_idem m)

  all-Checked :
      (st : Store) (k : ClusterKey) (s : StoredRecord)
      → lookup k (expire hash st now).0.records ≡ some s
      → Checked now s
  all-Checked st k s h = elim (Option-cases (lookup k st.records)) [
    | inl e ↦ let q = expire_missing st k e in cc
    | inr (r, e) ↦
        let (t, f, a) = expire-Ages st k r e in let q : t ≡ s = ground arith in rw (← q) a.checked
  ]

  -- The sweep is idempotent: a second one at the same time changes nothing and notifies nobody.
  pub expire_idem :
      (st : Store) → expire hash (expire hash st now).0 now ≡ ((expire hash st now).0, [])
  unfolding expire
  expire_idem st =
      let st1 = (expire_keys hash now (keys_of st.records) st).0 in
      let st2 : Store = record st1 { unary_demand = live_leases now st1.unary_demand } in
      rw
        (
          expire_keys_idle (keys_of st2.records) st2 (all-Checked st),
          live_leases_idem st1.unary_demand,
        )
        refl
