-- ===== src/Tests/Systems.antt =====
-- A run of the backbone over the stand-ins: one upload, announced to the backends and leased.
use yeet_yoink.Common.{
  ℕ, ◌+◌, ◌≡◌, ◌≢◌, ◌↔◌, refl, [], ◌∷◌, none, some, ok, err, true, arith, total, get_elem?,
}
use yeet_yoink.Common.Dict.{lookup, insert}
use yeet_yoink.Distribution.{WriteSummary, unknown_file}
use yeet_yoink.Backbone.Guard.{success}
use yeet_yoink.Backend.{distribute_file}
use yeet_yoink.Backbone.Record.{Lifetime, leasing, Answer, received, locked, sent, lifetime_handler}
use yeet_yoink.Backbone.Table.{Backbone, NewFile, new, new_file, get_file, handle_command}
use yeet_yoink.Backbone.System.{
  run_handler, client_step, handler_step, loop_step, Reach, here, next,
}
use yeet_yoink.Backbone.System.Duties.{duties, entries, Reach-duties}
use yeet_yoink.Backbone.System.Links.{Owns, Reach-Owned}
use yeet_yoink.Backbone.System.Access.{get_file-unknown_iff}
use yeet_yoink.Backbone.System.Announce.{in_channel, at_backend, announced, Reach-announced}
use yeet_yoink.Tests.Toy.{toy}

abbrev pub request : NewFile toy
request = record {
  id = 42;
  expected_size = some 3;
  content_type = some "text/plain";
  content_md5 = none;
  file_name = some "a.txt";
}

abbrev pub summary : WriteSummary
summary = record {
  expires = 105;
  hashes = record { md5 = []; sha256 = [] };
  file_name = some "a.txt";
  file_size_bytes = 3;
}

abbrev pub run : Backbone toy → Answer → Backbone toy
run b a = elim (run_handler toy b 0 a) [ none ↦ b | some c ↦ c ]

abbrev pub round : Backbone toy → Backbone toy
round b = elim b.commands [
  | [] ↦ b
  | command ∷ rest ↦ handle_command toy (record b { commands = rest }) command
]

-- The upload's lifetime handler waits for its lease to end, and the backends know the file.
abbrev pub opened : Backbone toy
opened = (new_file toy (new toy true) 0 request 7 0).1

abbrev pub succeeded : Backbone toy
succeeded = run opened (received (ok (success summary)))

abbrev pub persisted : Backbone toy
persisted = run succeeded locked

abbrev pub channelled : Backbone toy
channelled = run persisted (sent true 5)

abbrev pub leased : Backbone toy
leased = round channelled

pub leased-Reach : Reach toy (new toy true) leased
unfolding new_file run_handler lifetime_handler handle_command lookup insert
leased-Reach =
    next
      (next
        (next
          (next (next here (client_step 0 request 7 0 refl))
            (handler_step 0 (received (ok (success summary))) tt refl))
          (handler_step 0 locked tt refl))
        (handler_step 0 (sent true 5) (refl, omega arith) refl))
      (loop_step _ [] refl refl)

abbrev pub upload : Lifetime toy
upload = record {
  id = 42;
  inner = record { file = some 42; summary = some summary };
  duration = 300_000_000_000;
  phase = leasing 300_000_000_005;
}

pub leased-upload : get_elem? leased.lifetimes 0 ≡ some upload
unfolding new_file run_handler lifetime_handler handle_command lookup insert
leased-upload = refl

backends_know : leased.backend_sender.passed ≡ distribute_file 42 summary ∷ []
unfolding new_file run_handler lifetime_handler handle_command lookup insert
backends_know = refl

Reach-duties_example : duties toy 42 leased ≡ entries toy 42 leased
Reach-duties_example = Reach-duties toy 42 leased-Reach

Reach-Owned_example : Owns toy leased 0 42
Reach-Owned_example = Reach-Owned toy leased-Reach 0 upload leased-upload refl

get_file-unknown_iff_example :
    (get_file toy leased 0 43 ≢ none)
    × ((get_file toy leased 0 43 ≡ some (err (unknown_file 43))) ↔ (duties toy 43 leased ≡ 0))
get_file-unknown_iff_example = get_file-unknown_iff toy leased-Reach 0 43

-- Every announcement weighs one.
abbrev one_each : ℕ → WriteSummary → ℕ
one_each id s = 1

Reach-announced_example :
    total (in_channel toy one_each) leased.commands
      + total (at_backend toy one_each) leased.backend_sender.passed
    ≡ total (announced toy one_each) leased.lifetimes
Reach-announced_example = Reach-announced toy one_each leased-Reach
