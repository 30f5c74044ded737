-- ===== src/Tests/Exchanges.antt =====
-- The upload of Tests.Uploads, and a download while its lease lasts.
use yeet_yoink.Common.{ℕ, ◌≡◌, refl, [], ◌∷◌, some, ok, true, arith, get_elem?}
use yeet_yoink.Common.Dict.{lookup, insert}
use yeet_yoink.Distribution.{WriteSummary}
use yeet_yoink.Backbone.Writer
use yeet_yoink.Backbone.Guard.{success}
use yeet_yoink.Backbone.Guard
use yeet_yoink.Backbone.Record.{Lifetime, leasing, received, locked, sent, lifetime_handler}
use yeet_yoink.Backbone.Table.{Backbone, new_file}
use yeet_yoink.Backbone.Table
use yeet_yoink.Backbone.System.{run_handler, handler_step, Reach, here, next}
use yeet_yoink.Server.Yeet.{write_data, take_chunk, take_stream, store, do_yeet}
use yeet_yoink.Server.Exchange.{Downloads, DescribesHanded, do_yeet-do_yoink}
use yeet_yoink.Server.Yoink
use yeet_yoink.Tests.Toy.{toy, toy-IsAppending, toy-IsStreaming, toy-IsFresh}
use yeet_yoink.Tests.Systems.{request, run}
use yeet_yoink.Tests.Uploads.{stream, clocks, upload, guard_of, backbone_of, ends, is_created}

-- What the guard of the upload sends.
abbrev sent_summary : WriteSummary
sent_summary = record {
  expires = 300_000_000_005;
  hashes = record { md5 = 10 ∷ 20 ∷ 30 ∷ []; sha256 = 10 ∷ 20 ∷ 30 ∷ [] };
  file_name = some "a.txt";
  file_size_bytes = 3;
}

is_sent : (guard_of upload).sent ≡ success sent_summary ∷ []
unfolding do_yeet new_file lookup insert store take_stream take_chunk write_data Guard.write
    Writer.write Guard.sync_data Writer.sync_data Guard.finalize Writer.finalize
is_sent = refl

-- The backbone when the message was taken, and when the lease has begun.
abbrev taken : Backbone toy
taken = run (backbone_of upload) (received (ok (success sent_summary)))

abbrev leased : Backbone toy
leased = run (run taken locked) (sent true 9)

taken-Reach :
    run_handler toy (backbone_of upload) 0 (received (ok (success sent_summary))) ≡ some taken
unfolding do_yeet new_file lookup insert store take_stream take_chunk write_data Guard.write
    Writer.write Guard.sync_data Writer.sync_data Guard.finalize Writer.finalize run_handler
    lifetime_handler
taken-Reach = refl

leased-Reach : Reach toy taken leased
unfolding do_yeet new_file lookup insert store take_stream take_chunk write_data Guard.write
    Writer.write Guard.sync_data Writer.sync_data Guard.finalize Writer.finalize run_handler
    lifetime_handler
leased-Reach =
    next (next here (handler_step 0 locked tt refl))
      (handler_step 0 (sent true 9) (refl, omega arith) refl)

abbrev lifetime : Lifetime toy
lifetime = record {
  id = 42;
  inner = record { file = some 42; summary = some sent_summary };
  duration = 300_000_000_000;
  phase = leasing 300_000_000_009;
}

leased-lifetime : get_elem? leased.lifetimes 0 ≡ some lifetime
unfolding do_yeet new_file lookup insert store take_stream take_chunk write_data Guard.write
    Writer.write Guard.sync_data Writer.sync_data Guard.finalize Writer.finalize run_handler
    lifetime_handler
leased-lifetime = refl

abbrev readings : Yoink.Clocks toy
readings = record { age_now = 9; instant_now = 9; system_now = 2000 }

do_yeet-do_yoink_example :
    DescribesHanded toy 2 (Table.new toy true) 0 request 7 0 stream clocks sent_summary
    × ((file : ℕ) × (toy.new_with_uuid 0 42 ≡ ok file)
        × Downloads toy leased 0 42 readings file sent_summary)
do_yeet-do_yoink_example =
    do_yeet-do_yoink toy 2 (Table.new toy true) 0 request 7 0 stream clocks toy-IsAppending
      toy-IsStreaming toy-IsFresh (λ tx. refl) here ends is_created sent_summary is_sent
      (backbone_of upload) taken leased here taken-Reach leased-Reach lifetime 300_000_000_009
      leased-lifetime refl 0 readings
