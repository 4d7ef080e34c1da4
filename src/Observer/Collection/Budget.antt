-- ===== src/Observer/Collection/Budget.antt =====
-- The deadline of observe (internal/observer/collection.go).
use cnpg_connect_plugin.Prelude.{◌+◌, ◌*◌, ◌≤◌, ◌≡◌, true, arith}
use cnpg_connect_plugin.Prelude.Result.{ok}
use cnpg_connect_plugin.Observer.Options.{Options, check_options}
use cnpg_connect_plugin.Observer.Collection.{budget}

-- With options that New accepts, a collection ends before its snapshot would: its deadline and a
-- poll interval fit into the lifetime, it leaves the primary its whole probe timeout, and gives at
-- most two.
pub budget_fits :
    (opts accepted : Options)
    → check_options true opts ≡ ok accepted
    → let b = budget opts.ttl opts.poll_interval opts.probe_timeout in
      (b + opts.poll_interval ≤ opts.ttl) × (opts.probe_timeout ≤ b) × (b ≤ 2 * opts.probe_timeout)
unfolding budget check_options
budget_fits opts accepted h = (ground arith, ground arith, ground arith)
