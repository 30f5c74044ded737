-- ===== src/Tests/Guards.antt =====
-- Runs of a guard over the stand-ins: three bytes, with and without what the client announced.
use yeet_yoink.Common.{ℕ, ◌≡◌, ◌↔◌, refl, List, [], ◌∷◌, Option, some, ok, err}
use yeet_yoink.Distribution.{WriteSummary}
use yeet_yoink.Backbone.Writer.{
  FileWriter, CompletionMode, sync, no_sync, FinalizationError, finalization_text,
  integrity_check_failed, backbone_communication_failed,
}
use yeet_yoink.Backbone.Writer
use yeet_yoink.Backbone.Guard.{FileWriterGuard, success, failed, too_many_bytes}
use yeet_yoink.Backbone.Guard
use yeet_yoink.Backbone.Guard.Life.{writes, syncs, finalizes, calls, finish, told, life-sent}
use yeet_yoink.Backbone.Guard.Accept.{Accepts, finalize-ok_iff}
use yeet_yoink.Tests.Toy.{toy}

abbrev bytes : List ℕ
bytes = 10 ∷ 20 ∷ 30 ∷ []

abbrev writer : FileWriter toy
writer = Writer.new toy [] (some "a.txt")

-- Three bytes written and synced, of the announced number, with an announced digest or none.
abbrev three : ℕ → Option (List ℕ) → FileWriterGuard toy
three size md5 = calls toy (Guard.new toy writer 7 100 (some size) md5) (writes bytes ∷ syncs ∷ [])

abbrev summary : WriteSummary
summary = record {
  expires = 105;
  hashes = record { md5 = bytes; sha256 = bytes };
  file_name = some "a.txt";
  file_size_bytes = 3;
}

accepted : (Guard.finalize toy (three 3 (some bytes)) sync 5).0 ≡ ok summary
unfolding calls Guard.write Writer.write Guard.sync_data Writer.sync_data Guard.finalize
    Writer.finalize
accepted = refl

told_success : told toy (three 3 (some bytes)) (finalizes sync 5) ≡ success summary
unfolding told calls Guard.write Writer.write Guard.sync_data Writer.sync_data Guard.finalize
    Writer.finalize
told_success = refl

wrong_md5 :
    (Guard.finalize toy (three 3 (some [])) sync 5).0 ≡ err (integrity_check_failed "hex" "hex")
unfolding calls Guard.write Writer.write Guard.sync_data Writer.sync_data Guard.finalize
    Writer.finalize
wrong_md5 = refl

life-sent_example :
    (finish toy (three 3 (some bytes)) (finalizes sync 5)).sent
    ≡ told toy (three 3 (some bytes)) (finalizes sync 5) ∷ []
life-sent_example =
    life-sent toy (λ tx. refl) writer 7 100 (some 3) (some bytes) (writes bytes ∷ syncs ∷ [])
      (finalizes sync 5)

finalize-ok_iff_example :
    ((Guard.finalize toy (three 3 (some bytes)) sync 5).0 ≡ ok summary)
    ↔ Accepts toy (three 3 (some bytes)) sync 5 summary
finalize-ok_iff_example = finalize-ok_iff toy (three 3 (some bytes)) sync 5 summary
