-- ===== src/Server/Calls/Unary.antt =====
-- PingCall, GetCall, PutCall and DeleteCall as objects (src/server/async_server.cc): Proceed and
-- OnDone are called with what the completion queue gives, until the object deletes itself.
pub mod Lifetime
pub mod Deleted
use crocks.Prelude.{
  ℕ, zero, suc, Bool, true, false, Option, none, some, Bytes, if◌then◌else◌, Run, ok, abort, ◌>>=◌,
}
use crocks.Server.Shard.{RocksDb, Shard}
use crocks.Server.Calls.{
  Reply, response, Forwarded, Node, Got, reply, ask, get_request, get_forwarded, put_request,
  delete_request,
}
use crocks.Status.{StatusCode}

pub data UnaryStatus : Type 0 where
  request : UnaryStatus
  get : UnaryStatus
  finish : UnaryStatus

-- `pending` says that the completion queue is to give `proceed` once more, `notify` that it is to
-- give `on_done`; `replies` counts the calls of Finish and FinishWithError.
pub record UnaryCall : Type 0 where
  pub status : UnaryStatus
  pub finish_called : Bool
  pub on_done_called : Bool
  pub deletions : ℕ
  pub pending : Bool
  pub notify : Bool
  pub replies : ℕ

-- the constructor, which asks for a request
unfoldable pub new_unary_call : UnaryCall
new_unary_call = record {
  status = request;
  finish_called = false;
  on_done_called = false;
  deletions = 0;
  pending = true;
  notify = false;
  replies = 0;
}

-- `delete this`
abbrev pub delete_this : UnaryCall → UnaryCall
delete_this c = record c { deletions = suc c.deletions }

-- Proceed in REQUEST without a request, since the server shuts down; OnDone is not called then
abbrev pub without_request : UnaryCall → UnaryCall
without_request c = delete_this (record c { pending = false })

-- a request has come, so that OnDone will be called
abbrev pub matched : UnaryCall → UnaryCall
matched c = record c { notify = true }

abbrev pub finish_with : UnaryCall → UnaryCall
finish_with c = record c { status = finish; pending = true; replies = suc c.replies }

-- Proceed in FINISH
unfoldable pub proceed_finish : UnaryCall → UnaryCall
proceed_finish c =
    let d : UnaryCall = record c { pending = false; finish_called = true } in
    if c.on_done_called then delete_this d else d

-- OnDone, with `assert(ok)`
unfoldable pub on_done : UnaryCall → UnaryCall
on_done c =
    let d : UnaryCall = record c { notify = false; on_done_called = true } in
    if c.finish_called then delete_this d else record d { status = finish }

-- PingCall::Proceed
unfoldable pub ping_proceed : Bool → UnaryCall → UnaryCall
unfolding proceed_finish
ping_proceed is_ok c = elim c.status [
  | request ↦ if is_ok then finish_with (matched c) else without_request c
  | get ↦ c
  | finish ↦ proceed_finish c
]

module _ (db : RocksDb) where
  -- A write: it changes the shards of the node, and gives a reply.
  abbrev pub proceed_writing :
      (Node db → Run (Node db × Reply)) → Bool → Node db → UnaryCall → Run (Node db × UnaryCall)
  proceed_writing handle is_ok n c = elim c.status [
    | request ↦
        if is_ok
        then (handle n >>= λ r. ok (r.0, finish_with (matched c)))
        else ok (n, without_request c)
    | get ↦ ok (n, c)
    | finish ↦ ok (n, proceed_finish c)
  ]

  unfoldable pub put_proceed :
      Bytes → Bytes → Bool → Node db → UnaryCall → Run (Node db × UnaryCall)
  unfolding put_request proceed_finish
  put_proceed key value = proceed_writing (λ n. put_request db n key value)

  unfoldable pub delete_proceed : Bytes → Bool → Node db → UnaryCall → Run (Node db × UnaryCall)
  unfolding delete_request proceed_finish
  delete_proceed key = proceed_writing (λ n. delete_request db n key)

  -- GetCall::Proceed. In GET the former master has answered, and the shard is as it is by then.
  unfoldable pub get_proceed :
      Bytes → Bool → Shard db → Forwarded → Bool → Node db → UnaryCall → Run UnaryCall
  unfolding get_request get_forwarded proceed_finish
  get_proceed key force now answer is_ok n c = elim c.status [
    | request ↦
        if is_ok
        then (get_request db n key force >>= elim [
          | reply r ↦ ok (finish_with (matched c))
          | ask s ↦ ok (record (matched c) { status = get; pending = true })
        ])
        else ok (without_request c)
    | get ↦ get_forwarded db n now key answer >>= λ r. ok (finish_with c)
    | finish ↦ ok (proceed_finish c)
  ]

  -- the class of a call, with its request
  pub data Unary : Type 0 where
    ping : Unary
    get_of : Bytes → Bool → Unary
    put_of : Bytes → Bytes → Unary
    delete_of : Bytes → Unary

  -- the virtual Proceed; a call only sees the node
  unfoldable pub proceed_unary :
      Unary → Shard db → Forwarded → Bool → Node db → UnaryCall → Run (Node db × UnaryCall)
  unfolding ping_proceed get_proceed put_proceed delete_proceed
  proceed_unary ping now answer is_ok n c = ok (n, ping_proceed is_ok c)
  proceed_unary (get_of key force) now answer is_ok n c =
      get_proceed key force now answer is_ok n c >>= λ d. ok (n, d)
  proceed_unary (put_of key value) now answer is_ok n c = put_proceed key value is_ok n c
  proceed_unary (delete_of key) now answer is_ok n c = delete_proceed key is_ok n c
