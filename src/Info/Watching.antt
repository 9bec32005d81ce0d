-- ===== src/Info/Watching.antt =====
-- Info::Watch, WatchNext and WaitUntilHealthy (src/common/info.cc).
pub mod Healthy
use crocks.Prelude.{true, false, List, [], ◌∷◌, if◌then◌else◌, Run, ok, abort, ◌>>=◌}
use crocks.Cluster.{is_healthy}
use crocks.Etcd.{Etcd}
use crocks.Etcd.Watch.{
  Reading, WatchCall, Watched, is_cancelled, has_value, client_watch, client_watch_next,
  client_watch_cancel,
}
use crocks.Info.{Info, Proto, info_key, parse_info}

-- How WaitUntilHealthy goes on: it returns, or it has read all that there is and blocks.
pub data Waited : Type 0 where
  returned : Info → WatchCall → Waited
  blocked : Info → WatchCall → Waited

module _ (e : Etcd) (p : Proto) where
  open e use {Store}

  unfoldable pub watch : Info → Store → Reading → Run (Info × WatchCall)
  unfolding client_watch parse_info
  watch i s first = do r ← client_watch e s info_key first; j ← parse_info e p i r.1; ok (j, r.0)

  -- Info::WatchNext after the client's
  abbrev pub parse_watched : Info → WatchCall × Watched → Run (Info × WatchCall × Watched)
  parse_watched i (call, is_cancelled) = ok (i, call, is_cancelled)
  parse_watched i (call, has_value v) = parse_info e p i v >>= λ j. ok (j, call, has_value v)

  unfoldable pub watch_next : Info → WatchCall → Reading → Run (Info × WatchCall × Watched)
  unfolding client_watch_next parse_info
  watch_next i call reading = client_watch_next call reading >>= parse_watched i

  -- the loop of WaitUntilHealthy, over what its Reads give
  unfoldable pub wait_from : Info → WatchCall → List Reading → Run Waited
  unfolding watch_next client_watch_cancel
  wait_from i call [] =
      ok (if is_healthy i.info then returned i (client_watch_cancel call) else blocked i call)
  wait_from i call (reading ∷ rest) = elim (is_healthy i.info) [
    | true ↦ ok (returned i (client_watch_cancel call))
    | false ↦ watch_next i call reading >>= λ r. wait_from r.0 r.1 rest
  ]

  unfoldable pub wait_until_healthy : Info → Store → Reading → List Reading → Run Waited
  unfolding watch wait_from
  wait_until_healthy i s first readings = watch i s first >>= λ r. wait_from r.0 r.1 readings
