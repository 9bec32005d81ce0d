-- ===== src/Etcd/Watch.antt =====
-- The watches of src/common/etcd_client.cc, with their requests (src/common/etcd_util.cc). What a
-- Read of the stream gives is an argument: a response, or the end of the stream with a code.
use crocks.Prelude.{
  ℕ, ◌+◌, Bool, false, List, [], ◌∷◌, ◌++◌, Bytes, if◌then◌else◌, Run, ok, abort, ◌>>=◌, ◌>>◌,
  assert,
}
use crocks.Status.{GrpcCode, is_fine, is_code_unavailable}
use crocks.Etcd.{Etcd, client_get}

-- etcdserverpb::WatchRequest, WatchResponse; of an event only the value counts
pub data WatchRequest : Type 0 where
  create : Bytes → ℕ → WatchRequest
  cancel : ℕ → WatchRequest

pub record WatchResponse : Type 0 where
  pub created : Bool
  pub canceled : Bool
  pub watch_id : ℕ
  pub events : List Bytes

pub data Reading : Type 0 where
  received : WatchResponse → Reading
  ended : GrpcCode → Reading

-- `requests` have been written to the stream, which is replaced when it breaks.
pub record WatchCall : Type 0 where
  pub id : ℕ
  pub requests : List WatchRequest
  pub response : WatchResponse

abbrev pub no_watch_response : WatchResponse
no_watch_response = record { created = false; canceled = false; watch_id = 0; events = [] }

unfoldable pub watch_key_request : Bytes → ℕ → WatchRequest
watch_key_request key start_revision = create key start_revision

unfoldable pub watch_cancel_request : ℕ → WatchRequest
watch_cancel_request id = cancel id

-- the response object after a Read
abbrev pub read_into : WatchResponse → Reading → WatchResponse
read_into old (received new) = new
read_into old (ended code) = old

-- `events(size - 1)`
abbrev pub last_event : List Bytes → Run Bytes
last_event [] = abort
last_event (v ∷ []) = ok v
last_event (v ∷ w ∷ vs) = last_event (w ∷ vs)

module _ (e : Etcd) where
  open e use {Store}

  -- EtcdClient::Watch, with the value that it stores in *value
  unfoldable pub client_watch : Store → Bytes → Reading → Run (WatchCall × Bytes)
  unfolding watch_key_request
  client_watch s key first =
      let (revision, value) = client_get e s key in
      let response = read_into no_watch_response first in
      do
        assert response.created
        ok (
          record {
            id = response.watch_id;
            requests = watch_key_request key (revision + 1) ∷ [];
            response = response;
          },
          value,
        )

-- a failed Read in WatchNext: a new stream, or the end of the process
abbrev pub reopen : WatchCall → Reading → Run WatchCall
reopen call (received new) = ok (record call { response = new })
reopen call (ended code) =
    if is_code_unavailable code
    then ok (record call { requests = [] })
    else (do assert (is_fine code); ok call)

-- What WatchNext returns: true, or false with a value stored in *value.
pub data Watched : Type 0 where
  is_cancelled : Watched
  has_value : Bytes → Watched

unfoldable pub client_watch_next : WatchCall → Reading → Run (WatchCall × Watched)
client_watch_next call reading = do
  c ← reopen call reading
  if c.response.canceled
      then ok (c, is_cancelled)
      else do v ← last_event c.response.events; ok (c, has_value v)

unfoldable pub client_watch_cancel : WatchCall → WatchCall
unfolding watch_cancel_request
client_watch_cancel call = record call {
  requests = call.requests ++ watch_cancel_request call.id ∷ [];
}

-- EtcdClient::WatchEnd, with the code of Finish and what is read after it
unfoldable pub client_watch_end : WatchCall → Bool → Reading → Run (Unit {0})
client_watch_end call is_grpc_cancelled (received r) = abort
client_watch_end call is_grpc_cancelled (ended code) = assert is_grpc_cancelled
