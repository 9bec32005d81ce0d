-- ===== src/Info/Watching/Healthy.antt =====
-- When WaitUntilHealthy returns (src/common/info.cc).
use crocks.Prelude.{
  ◌≡◌, refl, true, false, List, [], ◌∷◌, Option, none, some, Bool-cases, inl, inr, if◌then◌else◌,
  Run, ok,
}
use crocks.Cluster.{ClusterInfo, is_healthy, masters}
use crocks.Etcd.{Etcd, client_get-some}
use crocks.Etcd.Watch.{
  Reading, received, WatchCall, WatchResponse, has_value, last_event, client_watch,
  client_watch_next,
}
use crocks.Info.{Info, Proto, info_key, parse_info}
use crocks.Info.Watching.{Waited, returned, watch, watch_next, wait_from, wait_until_healthy}

abbrev pub first_healthy : List ClusterInfo → Option ClusterInfo
first_healthy [] = none
first_healthy (c ∷ cs) = if is_healthy c then some c else first_healthy cs

module _ (e : Etcd) (p : Proto) where
  open e use {Store}

  -- The Reads give responses that are not cancelled, and their last events are these infos.
  pub data Announced : List Reading → List ClusterInfo → Type 0 where
    silent : Announced [] []
    announced :
        (w : WatchResponse) (c : ClusterInfo) {rest : List Reading} {cs : List ClusterInfo}
        → w.canceled ≡ false
        → last_event w.events ≡ ok (p.serialize c)
        → Announced rest cs
        → Announced (received w ∷ rest) (c ∷ cs)

  abbrev loaded : Info → ClusterInfo → Info
  loaded i c = record i { info = c; map = masters c }

  parse_info-ok : (i : Info) (c : ClusterInfo) → parse_info e p i (p.serialize c) ≡ ok (loaded i c)
  unfolding parse_info
  parse_info-ok i c = rw (p.parse-serialize c)

  watch_next-ok :
      (i : Info) (call : WatchCall) (w : WatchResponse) (c : ClusterInfo)
      → w.canceled ≡ false
      → last_event w.events ≡ ok (p.serialize c)
      → watch_next e p i call (received w)
        ≡ ok (loaded i c, record call { response = w }, has_value (p.serialize c))
  unfolding watch_next client_watch_next
  watch_next-ok i call w c open_still last = rw (open_still, last, parse_info-ok i c) refl

  -- What wait_from gives when a first healthy info is known.
  abbrev Returns : ClusterInfo → Run (Waited) → Type 0
  Returns c r = (j : Info) × (call : WatchCall) × (r ≡ ok (returned j call)) × (j.info ≡ c)

  wait_from-Returns :
      (i : Info) (call : WatchCall) (readings : List Reading) (cs : List ClusterInfo)
      (c : ClusterInfo)
      → Announced readings cs
      → first_healthy (i.info ∷ cs) ≡ some c
      → Returns c (wait_from e p i call readings)
  unfolding wait_from
  wait_from-Returns i call _ _ c silent h = elim (Bool-cases (is_healthy i.info)) [
    | inl well ↦ rw (well, wait_from) (i, _, refl, cc (well, h))
    | inr ill ↦ absurd (cc (ill, h))
  ]
  wait_from-Returns i call _ _ c (announced w d {rest} {cs} live last more) h =
      elim (Bool-cases (is_healthy i.info)) [
        | inl well ↦ rw (well, wait_from) (i, _, refl, cc (well, h))
        | inr ill ↦
            rw (ill, watch_next-ok i call w d live last, wait_from)
              (wait_from-Returns (loaded i d) (record call { response = w }) rest cs c more
                (cc (ill, h)))
      ]

  watch-ok :
      (i : Info) (s : Store) (w : WatchResponse) (c : ClusterInfo)
      → e.value s info_key ≡ some (p.serialize c)
      → w.created ≡ true
      → (call : WatchCall) × (watch e p i s (received w) ≡ ok (loaded i c, call))
  unfolding watch client_watch
  watch-ok i s w c h made =
      rw (client_get-some e s info_key (p.serialize c) h, made, parse_info-ok i c) (_, refl)

  -- When etcd holds a cluster info, and the watch then announces others, and one of them is healthy,
  -- WaitUntilHealthy returns, and the process has the first one that is.
  pub wait_until_healthy-returned :
      (i : Info) (s : Store) (w : WatchResponse) (readings : List Reading) (d : ClusterInfo)
      (cs : List ClusterInfo) (c : ClusterInfo)
      → e.value s info_key ≡ some (p.serialize d)
      → w.created ≡ true
      → Announced readings cs
      → first_healthy (d ∷ cs) ≡ some c
      → (j : Info) × (call : WatchCall) × (wait_until_healthy e p i s (received w) readings
          ≡ ok (returned j call))
        × (j.info ≡ c)
  unfolding wait_until_healthy
  wait_until_healthy-returned i s w readings d cs c h made path first =
      let (call, opened) = watch-ok i s w d h made in
      rw opened (wait_from-Returns (loaded i d) call readings cs c path first)
