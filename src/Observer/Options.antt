-- ===== src/Observer/Options.antt =====
-- The checks of New in internal/observer/observer.go on its Options. Durations are nanoseconds; a
-- negative duration or count is refused there where zero is, or as a count below 1, and has no
-- counterpart.
use cnpg_connect_plugin.Prelude.{ℕ, ◌-◌, String, Bool, ◌||◌, not, ltb, leb, nat_beq, if◌then◌else◌}
use cnpg_connect_plugin.Prelude.Result.{Result, ok, ◌>>◌, refuse_if}

pub record Options : Type 0 where
  pub namespace : String
  pub poll_interval : ℕ
  pub ttl : ℕ
  pub probe_timeout : ℕ
  pub max_concurrency : ℕ
  pub max_concurrent_clusters : ℕ

pub data OptionsError : Type 0 where
  missing_client short_ttl bad_concurrency bad_cluster_concurrency : OptionsError

-- Every test on a count of the two limits.
abbrev pub out_of_bounds : ℕ → Bool
out_of_bounds n = ltb n 1 || ltb 1024 n

-- `present` tells whether the clients and the store are given.
unfoldable pub check_options : Bool → Options → Result OptionsError Options
check_options present opts = do
  refuse_if (not present) missing_client
  refuse_if
      (leb opts.poll_interval 0
        || (leb opts.probe_timeout 0
            || (leb opts.ttl opts.poll_interval
                || leb (opts.ttl - opts.poll_interval) opts.probe_timeout)))
      short_ttl
  refuse_if (out_of_bounds opts.max_concurrency) bad_concurrency
  let clusters = if nat_beq opts.max_concurrent_clusters 0 then 32 else opts.max_concurrent_clusters
  refuse_if (out_of_bounds clusters) bad_cluster_concurrency
  ok (record opts { max_concurrent_clusters = clusters })
