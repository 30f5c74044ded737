-- ===== src/Tests/Worlds.antt =====
-- One upload of three bytes among the steps of the world, up to its announcement.
use yeet_yoink.Common.{◌≡◌, refl, [], ◌∷◌, none, some, ok, true, arith, get_elem?}
use yeet_yoink.Common.Dict.{lookup, insert}
use yeet_yoink.Distribution.{WriteSummary}
use yeet_yoink.Backbone.Writer.{no_sync}
use yeet_yoink.Backbone.Writer
use yeet_yoink.Backbone.Guard.{FileWriterGuard, success, write, finalize}
use yeet_yoink.Backbone.Guard
use yeet_yoink.Backbone.Guard.Life.{writes, finalizes, call, finish, summary_of}
use yeet_yoink.Backbone.Reader.{FileReader}
use yeet_yoink.Backbone.Record.{
  Lifetime, awaiting_result, received, locked, sent, lifetime_handler, get_reader,
}
use yeet_yoink.Backbone.Table.{
  Backbone, NewFile, new_file, get_file, open_entry, handle_command, temporal_lease,
}
use yeet_yoink.Backbone.System.{run_handler}
use yeet_yoink.Backbone.World.{
  Upload, begin_upload, call_upload, end_upload, World, file_opened, guard_called, guard_ended,
  handler_ran, command_handled, Evolves, begun, after, new_world,
}
use yeet_yoink.Backbone.World.Stored.{Evolves-Vouches}
use yeet_yoink.Backbone.World.Vouches.{Vouches}
use yeet_yoink.Backbone.World.Waking.{Wakes, Evolves-Wakes, Awaits, Evolves-awaiting}
use yeet_yoink.Tests.Toy.{toy, toy-IsStreaming}
use yeet_yoink.Tests.Systems.{request, run, round}
use yeet_yoink.Tests.Uploads.{
  stream, clocks, upload, response_of, guard_of, backbone_of, ends, is_created,
}
use yeet_yoink.Metrics.Transfer.{TransferMethod}
use yeet_yoink.Server.Http.{Response}
use yeet_yoink.Server.Yoink.{YoinkBody, file_headers, do_yoink}
use yeet_yoink.Server.Yoink
use yeet_yoink.Server.Yoink.Digests.{header}
use yeet_yoink.Server.Integrity.{Matches, do_yoink-Matches}
use yeet_yoink.Server.Uploads.{Adds, do_yeet-Adds}
use yeet_yoink.Server.Uploads.Bodies.{Brings, do_yeet-Brings}
use yeet_yoink.Server.Yeet.Streams.{contents}
use yeet_yoink.Backend.{distribute_file}

abbrev nameless : NewFile toy
nameless = record request { file_name = none }

-- The summary of the bytes 1, 2, 3, completed at the instant 4.
abbrev pub summary : WriteSummary
summary = record {
  expires = 300_000_000_004;
  hashes = record { md5 = 1 ∷ 2 ∷ 3 ∷ []; sha256 = 1 ∷ 2 ∷ 3 ∷ [] };
  file_name = none;
  file_size_bytes = 3;
}

abbrev guard : FileWriterGuard toy
guard = Guard.new toy (Writer.new toy [] (none)) 7 temporal_lease (some 3) none

abbrev begun_upload : Upload toy
begun_upload = begin_upload toy nameless 7 guard

abbrev written_upload : Upload toy
written_upload = call_upload toy begun_upload (writes (1 ∷ 2 ∷ 3 ∷ []))

abbrev ended_upload : Upload toy
ended_upload = end_upload toy written_upload (finalizes no_sync 4)

abbrev opened : World toy
opened = record {
  backbone = (new_file toy (new_world toy true).backbone 0 nameless 7 0).1;
  uploads = begun_upload ∷ [];
}

opened-Evolves : Evolves toy (new_world toy true) opened
unfolding new_file lookup insert
opened-Evolves = after begun (file_opened 0 nameless 7 0 guard refl refl)

abbrev ended : World toy
ended = record { backbone = opened.backbone; uploads = ended_upload ∷ [] }

ended-Evolves : Evolves toy (new_world toy true) ended
unfolding new_file lookup insert call_upload
ended-Evolves =
    after
      (after opened-Evolves (guard_called 0 begun_upload (writes (1 ∷ 2 ∷ 3 ∷ [])) refl refl refl))
      (guard_ended 0 written_upload (finalizes no_sync 4) refl refl refl)

abbrev told : Backbone toy
told = run ended.backbone (received (ok (success summary)))

abbrev persisted : Backbone toy
persisted = run told locked

abbrev announced : Backbone toy
announced = run persisted (sent true 5)

abbrev with_backbone : Backbone toy → World toy
with_backbone b = record { backbone = b; uploads = ended_upload ∷ [] }

pub announced-Evolves : Evolves toy (new_world toy true) (with_backbone (round announced))
unfolding new_file lookup insert call_upload end_upload run_handler lifetime_handler handle_command
    call finish write finalize summary_of Writer.write Writer.finalize
announced-Evolves =
    after
      (after
        (after
          (after ended-Evolves (
            handler_ran 0 ended_upload (received (ok (success summary))) told refl (refl, refl) tt
              refl refl))
          (handler_ran 0 ended_upload locked persisted refl tt tt refl refl))
        (handler_ran 0 ended_upload (sent true 5) announced refl tt (refl, omega arith) refl refl))
      (command_handled _ [] refl refl)

abbrev pub all_done : World toy
all_done = with_backbone (round announced)

is_announced :
    get_elem? all_done.backbone.backend_sender.passed 0 ≡ some (distribute_file 42 summary)
unfolding new_file lookup insert run_handler lifetime_handler handle_command
is_announced = refl

Evolves-Vouches_example : Vouches toy all_done.uploads 42 summary
Evolves-Vouches_example =
    Evolves-Vouches toy toy-IsStreaming announced-Evolves 0 42 summary is_announced

abbrev pub reader : FileReader toy
reader = record {
  inner = 42;
  content_type = some "text/plain";
  created = 0;
  expiration_duration = 300_000_000_000;
  summary = some summary;
}

abbrev readings : Yoink.Clocks toy
readings = record { age_now = 9; instant_now = 9; system_now = 2000 }

abbrev response : Response (YoinkBody toy)
response = record {
  status = 200;
  headers = file_headers toy 42 reader readings;
  body = YoinkBody.stream reader;
}

is_served :
    do_yoink toy all_done.backbone 0 42 readings ≡ some (response, TransferMethod.fetch ∷ [])
unfolding new_file lookup insert run_handler lifetime_handler handle_command get_file open_entry
    get_reader do_yoink
is_served = refl

carries_md5 : header "content-md5" response.headers ≡ some "base64"
unfolding file_headers lookup
carries_md5 = refl

do_yoink-Matches_example : Matches toy all_done.uploads 42 response.headers
do_yoink-Matches_example =
    do_yoink-Matches toy toy-IsStreaming announced-Evolves 0 42 readings "base64" is_served
      carries_md5

abbrev waiting : Lifetime toy
waiting = record {
  id = 42;
  inner = record { file = some 42; summary = none };
  duration = temporal_lease;
  phase = awaiting_result;
}

ended-waiting : get_elem? ended.backbone.lifetimes 0 ≡ some waiting
unfolding new_file lookup insert
ended-waiting = refl

Evolves-Wakes_example : Wakes toy ended 0 ended_upload
unfolding end_upload
Evolves-Wakes_example =
    Evolves-Wakes toy toy-IsStreaming ended-Evolves 0 ended_upload waiting refl ended-waiting refl
      refl refl

Evolves-awaiting_example : Awaits toy opened 0 begun_upload
Evolves-awaiting_example =
    Evolves-awaiting toy toy-IsStreaming opened-Evolves 0 begun_upload 7 refl refl

do_yeet-Adds_example :
    Adds toy
      (new_world toy true)
      []
      42
      clocks
      (response_of upload)
      (guard_of upload)
      (backbone_of upload)
do_yeet-Adds_example = do_yeet-Adds toy 2 0 request 7 0 stream clocks begun ends

do_yeet-Brings_example :
    Brings toy
      (new_world toy true)
      []
      request
      (contents stream)
      clocks
      (response_of upload)
      (backbone_of upload)
do_yeet-Brings_example = do_yeet-Brings toy 2 0 request 7 0 stream clocks begun ends is_created
