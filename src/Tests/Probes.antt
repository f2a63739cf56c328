-- ===== src/Tests/Probes.antt =====
-- The liveness probe at a concrete run: the answer to the first call goes to the second.
use adv_cache.Prelude.{refl, false, [], ◌∷◌}
use adv_cache.Probe
use adv_cache.Probe.{Probe, holding, all_alive, call, take, check, reply, new_probe, Reach}
use adv_cache.Probe.Late.{Late, Reach-Late}

-- The first call has timed out, and the services were not alive.
abbrev timed_out : Probe
timed_out = record (check 0 (false ∷ []) (take 0 [] (call new_probe))) { waiting = [] }

-- A second call gets the answer.
abbrev answered : Probe
answered = reply 1 0 false [] (call timed_out)

answered-Reach : Reach timed_out answered
unfolding all_alive
answered-Reach =
    Probe.next (Probe.next Probe.here (Probe.called timed_out))
      (Probe.replied [] [] 1 0 false (call timed_out) refl refl)

Reach-Late_example : Late timed_out 0 false answered
unfolding all_alive
Reach-Late_example = Reach-Late timed_out answered 0 false refl refl answered-Reach
