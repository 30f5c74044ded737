-- ===== src/Tests/Uploads.antt =====
-- Uploads over the stand-ins.
use yeet_yoink.Common.{
  ℕ, ◌+◌, ◌<◌, ◌≡◌, ◌≢◌, refl, List, [], ◌∷◌, Option, none, some, Result, ok, true, arith, length,
  String,
}
use yeet_yoink.Common.Dict.{lookup, insert}
use yeet_yoink.Backbone.Writer.{FileWriter}
use yeet_yoink.Backbone.Writer
use yeet_yoink.Backbone.Guard.{FileWriterGuard}
use yeet_yoink.Backbone.Guard
use yeet_yoink.Backbone.Table.{Backbone, new, new_file}
use yeet_yoink.Metrics.Transfer.{TransferMethod}
use yeet_yoink.Server.Http.{Response}
use yeet_yoink.Server.Yeet.{YeetBody, Clocks, write_data, take_chunk, take_stream, store, do_yeet}
use yeet_yoink.Server.Yeet.Short.{short_write-oversized}
use yeet_yoink.Server.Yeet.Stored.{Stores, do_yeet-Stores, do_yeet-Agrees}
use yeet_yoink.Server.Yeet.Outcome.{Agrees}
use yeet_yoink.Server.Yeet.Total.{do_yeet-total}
use yeet_yoink.Tests.Toy.{
  toy, short, toy-IsAppending, toy-IsStreaming, toy-IsFresh, toy-IsProgressing,
}
use yeet_yoink.Tests.Systems.{request}

abbrev pub stream : List (Result String (List ℕ))
stream = ok (10 ∷ []) ∷ ok (20 ∷ 30 ∷ []) ∷ []

abbrev pub clocks : Clocks toy
clocks = record { completed = 5; instant_now = 6; system_now = 1000 }

abbrev pub Answer : Type 0
Answer =
    Option
      (Response (YeetBody toy) × Option (FileWriterGuard toy) × Backbone toy × List TransferMethod)

abbrev pub upload : Answer
upload = do_yeet toy 2 (new toy true) 0 request 7 0 stream clocks

abbrev pub no_response : Response (YeetBody toy)
no_response = record { status = 0; headers = []; body = YeetBody.text "" }

abbrev pub response_of : Answer → Response (YeetBody toy)
response_of none = no_response
response_of (some (r, _, _, _)) = r

abbrev pub no_guard : FileWriterGuard toy
no_guard = Guard.new toy (Writer.new toy [] none) 0 0 none none

abbrev pub guard_of : Answer → FileWriterGuard toy
guard_of (some (_, some g, _, _)) = g
guard_of _ = no_guard

abbrev pub backbone_of : Answer → Backbone toy
backbone_of none = new toy true
backbone_of (some (_, _, b, _)) = b

pub ends :
    upload
    ≡ some
        (response_of upload, some (guard_of upload), backbone_of upload, TransferMethod.store ∷ [])
unfolding do_yeet new_file lookup insert store take_stream take_chunk write_data Guard.write
    Writer.write Guard.sync_data Writer.sync_data Guard.finalize Writer.finalize
ends = refl

pub is_created : (response_of upload).status ≡ 201
unfolding do_yeet new_file lookup insert store take_stream take_chunk write_data Guard.write
    Writer.write Guard.sync_data Writer.sync_data Guard.finalize Writer.finalize
is_created = refl

do_yeet-Stores_example :
    Stores toy 2 (new toy true) 0 request 7 0 stream clocks toy-IsAppending (response_of upload)
do_yeet-Stores_example =
    do_yeet-Stores toy 2 (new toy true) 0 request 7 0 stream clocks toy-IsAppending toy-IsStreaming
      toy-IsFresh ends is_created

do_yeet-Agrees_example : Agrees toy 42 clocks (response_of upload) (guard_of upload)
do_yeet-Agrees_example =
    do_yeet-Agrees toy 2 (new toy true) 0 request 7 0 stream clocks (λ tx. refl) ends

do_yeet-total_example : upload ≢ none
do_yeet-total_example =
    do_yeet-total toy toy-IsProgressing 2 (new toy true) 0 request 7 0 stream clocks
      (omega arith, (omega arith, tt))

abbrev writer : FileWriter toy
writer = Writer.new toy [] none

-- Writes of two bytes at most: three bytes take two writes, and make a size of four.
abbrev short_writer : FileWriter short
short_writer = Writer.new short [] none

abbrev short_fresh : FileWriterGuard short
short_fresh = Guard.new short short_writer 7 100 none none

abbrev short_after : FileWriterGuard short
short_after = (Guard.write short (Guard.write short short_fresh (10 ∷ 20 ∷ 30 ∷ [])).1 (30 ∷ [])).1

abbrev short_twice : FileWriter short
short_twice =
    (Writer.write short (Writer.write short short_writer (10 ∷ 20 ∷ 30 ∷ [])).1 (30 ∷ [])).1

short_size : short_twice.file_size ≡ 4
unfolding Writer.write
short_size = refl

short_write-oversized_example :
    short_writer.file_size + length {A = ℕ} (10 ∷ 20 ∷ 30 ∷ []) < short_twice.file_size
unfolding write_data Guard.write Writer.write
short_write-oversized_example =
    short_write-oversized short 2 short_fresh short_after short_writer short_twice 10 (20 ∷ 30 ∷ [])
      2 refl refl refl (omega arith) refl (omega arith)
