-- ===== src/Tests/Watch.antt =====
-- A process that waits until the nodes of the sample cluster are available.
use crocks.Prelude.{◌≡◌, refl, false, true, [], ◌∷◌, ok, beq, pos}
use crocks.Cluster.{ClusterInfo, NodeInfo, is_healthy}
use crocks.Etcd.Watch.{received, WatchCall, no_watch_response}
use crocks.Info.{Info}
use crocks.Info.Watching.{returned, wait_until_healthy}
use crocks.Info.Watching.Healthy.{announced, silent, wait_until_healthy-returned}
use crocks.Tests.Wire.{wire}
use crocks.Tests.Store.{table}
use crocks.Tests.Info.{giver, holding}
use crocks.Tests.Cluster.{sample}

abbrev down : NodeInfo
down = record { address = 1 ∷ []; id = 0; num_shards = pos 3; available = false; remove = false }

abbrev crashed : ClusterInfo
crashed = record sample { nodes = down ∷ [] }

-- after the one that crashed, there is another event for it, and then it is back
wait_until_healthy-returned_example :
    (j : Info) × (call : WatchCall) × (wait_until_healthy table wire giver
        (holding crashed)
        (received (record no_watch_response { created = true }))
        (received (record no_watch_response { events = wire.serialize crashed ∷ [] })
          ∷ received (record no_watch_response {
            events = wire.serialize crashed ∷ wire.serialize sample ∷ [];
          })
          ∷ [])
      ≡ ok (returned j call))
    × (j.info ≡ sample)
unfolding beq is_healthy
wait_until_healthy-returned_example =
    wait_until_healthy-returned table wire giver (holding crashed)
      (record no_watch_response { created = true }) _ crashed (crashed ∷ sample ∷ []) sample refl
      refl
      (announced (record no_watch_response { events = wire.serialize crashed ∷ [] }) crashed refl
        refl
        (announced
          (record no_watch_response {
            events = wire.serialize crashed ∷ wire.serialize sample ∷ [];
          })
          sample refl refl silent))
      refl
