-- ===== src/Tests/Unary.antt =====
-- A PutCall whose OnDone is called before its reply has been sent.
use crocks.Prelude.{ℕ, ◌≤◌, ◌≡◌, refl, true, false, [], ◌∷◌, Bytes, Run, ok, abort, if◌then◌else◌}
use crocks.Server.Shard.{Shard}
use crocks.Server.Calls.{Node, unavailable}
use crocks.Server.Calls.Unary.{UnaryCall, new_unary_call, on_done, put_of, proceed_unary}
use crocks.Server.Calls.Unary.Deleted.{Lives, Lives-deletions}
use crocks.Tests.Server.{memory, fresh, one_key, holding}

abbrev value_of : Run (Node memory × UnaryCall) → UnaryCall
value_of (ok r) = r.1
value_of abort = new_unary_call

abbrev next : Node memory → UnaryCall → Run (Node memory × UnaryCall)
next n c = proceed_unary memory (put_of one_key (b'v' ∷ [])) fresh unavailable true n c

abbrev node_of : Run (Node memory × UnaryCall) → Node memory
node_of (ok r) = r.0
node_of abort = holding fresh

abbrev replied : UnaryCall
replied = value_of (next (holding fresh) new_unary_call)

abbrev later : Node memory
later = node_of (next (holding fresh) new_unary_call)

abbrev gone : UnaryCall
gone = value_of (next later (on_done replied))

replied_run : next (holding fresh) new_unary_call ≡ ok (later, replied)
unfolding proceed_unary new_unary_call crocks.Hash.hash crocks.Server.Shard.opened
    crocks.Prelude.◌-ℤ◌ crocks.Prelude.◌+ℤ◌
replied_run = refl

gone_run : next later (on_done replied) ≡ ok (later, gone)
unfolding proceed_unary on_done new_unary_call crocks.Hash.hash crocks.Server.Shard.opened
    crocks.Prelude.◌-ℤ◌ crocks.Prelude.◌+ℤ◌
gone_run = refl

lived : Lives memory (put_of one_key (b'v' ∷ [])) gone
unfolding on_done new_unary_call proceed_unary crocks.Hash.hash crocks.Server.Shard.opened
    crocks.Prelude.◌-ℤ◌ crocks.Prelude.◌+ℤ◌
lived =
    Lives.proceeded (on_done replied) gone fresh unavailable true later later
      (Lives.done replied
        (Lives.proceeded new_unary_call replied fresh unavailable true (holding fresh) later
          Lives.created refl replied_run)
        refl)
      refl gone_run

Lives-deletions_example :
    (gone.deletions ≡ (if gone.pending then 0 else if gone.notify then 0 else 1))
    × (gone.replies ≤ 1)
Lives-deletions_example = Lives-deletions memory (put_of one_key (b'v' ∷ [])) gone lived
