-- ===== src/Observer/Work/Retry.antt =====
-- What a turn of the work loop (internal/observer/work.go) leaves of a key.
use cnpg_connect_plugin.Prelude.{
  ℕ, ◌≡◌, refl, ap, ◌∙◌, Bool, true, false, [], ◌∷◌, ◌++◌, arith, get_or, is_some, Bool-cases, inl,
  inr,
}
use cnpg_connect_plugin.Prelude.Map.{lookup, delete, has, lookup-delete}
use cnpg_connect_plugin.Key.{ClusterKey, key_eq, key_beq_iff}
use cnpg_connect_plugin.Queue.{is_urgent}
use cnpg_connect_plugin.Queue.Turns.{done-idle, done-promoted, promote-promoted}
use cnpg_connect_plugin.Store.{has_demand, cluster_identity}
use cnpg_connect_plugin.Observer.{Observer, Clock}
use cnpg_connect_plugin.Observer.Work.{
  needs_observation, add_after, keep_urgency, done_with, conclude_work, finish_work,
}

conclude_work-observations :
    (o : Observer) (key : ClusterKey) (observed : Bool) (backoff : ℕ) (t : Clock)
    → (conclude_work o key observed backoff t).observations ≡ o.observations
unfolding conclude_work needs_observation add_after keep_urgency
conclude_work-observations o key observed backoff t = ground arith

-- A turn always releases its key: whatever the observation brought, after it the key is not being
-- processed and not in flight.
pub finish_work_releases :
    (o : Observer) (key : ClusterKey) (observed : Bool) (backoff : ℕ) (t : Clock)
    → (has key (finish_work o key observed backoff t).queue.processing ≡ false)
      × (has key (finish_work o key observed backoff t).observations ≡ false)
unfolding finish_work done_with
finish_work_releases o key observed backoff t =
    let o1 = record o { observations = delete key o.observations } in
    let gone : has key o1.observations ≡ false =
      ground (arith, lookup-delete key key o.observations, key_beq_iff key key) in
    (
      done-idle _ key,
      elim (Bool-cases (get_or (lookup key o.observations) false)) [
        | inl superseded ↦ rw superseded gone
        | inr runs ↦ rw (runs, conclude_work-observations o1 key observed backoff t) gone
      ],
    )

-- A failed urgent observation stays urgent: if it was neither superseded nor is unneeded, and the
-- queue is not shutting down, the key is promoted for its next turn, which is requested after the
-- rate limiter's delay.
pub failed_stays_urgent :
    (o : Observer) (key : ClusterKey) (backoff : ℕ) (t : Clock)
    → is_urgent o.queue key ≡ true
    → o.queue.shutting_down ≡ false
    → get_or (lookup key o.observations) false ≡ false
    → (has_demand o.store key t.asked).1 ≡ true
    → is_some (cluster_identity (has_demand o.store key t.asked).0 key) ≡ true
    → let o' = finish_work o key false backoff t in
      (get_or (lookup key o'.queue.promoted) false ≡ true)
      × (o'.delayed ≡ o.delayed ++ ((key, backoff) ∷ []))
unfolding finish_work done_with conclude_work needs_observation add_after keep_urgency
failed_stays_urgent o key backoff t u r s d e =
    rw (s, d, e, u)
      (
        ap (λ m. get_or (lookup key m) false) (done-promoted _ key)
            ∙ promote-promoted o.queue key r,
        refl,
      )
