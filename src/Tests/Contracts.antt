-- ===== src/Tests/Contracts.antt =====
-- The abstract view of the backbone, at the run of Tests.Systems.
use yeet_yoink.Common.{ok, refl}
use yeet_yoink.Common.Dict.{lookup, insert}
use yeet_yoink.Backbone.Guard.{failed}
use yeet_yoink.Backbone.Record.{slept, lifetime_handler}
use yeet_yoink.Backbone.Table.{Backbone, new_file, handle_command}
use yeet_yoink.Backbone.System.{run_handler, handler_step}
use yeet_yoink.Backbone.System.Quiet.{Quiet}
use yeet_yoink.Backbone.System.Draining.{IsAtRest, Reach-IsAtRest}
use yeet_yoink.Backbone.Contract.{Moves, status}
use yeet_yoink.Backbone.Contract.Refines.{Step-Moves}
use yeet_yoink.Backbone.Contract.Answers.{Meets, get_file-Meets}
use yeet_yoink.Tests.Toy.{toy}
use yeet_yoink.Tests.Systems.{leased, leased-Reach, run}

abbrev ended : Backbone toy
ended = run leased (slept 300_000_000_005)

Step-Moves_example : Moves toy (status toy leased 42) (status toy ended 42)
unfolding new_file run_handler lifetime_handler handle_command lookup insert
Step-Moves_example = Step-Moves toy leased-Reach (handler_step 0 (slept 300_000_000_005) tt refl) 42

get_file-Meets_example : Meets toy leased 0 42 (status toy leased 42)
get_file-Meets_example = get_file-Meets toy leased-Reach 0 42

Reach-IsAtRest_example : (c : Backbone toy) × Quiet toy (ok failed) leased c × IsAtRest toy c
Reach-IsAtRest_example = Reach-IsAtRest toy leased-Reach (ok failed)
