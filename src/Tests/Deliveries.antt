-- ===== src/Tests/Deliveries.antt =====
-- A file without a name, from the backbone to Memcached.
use yeet_yoink.Common.{some, ok, true, false}
use yeet_yoink.Distribution.Metadata
use yeet_yoink.Backbone.Guard.{success}
use yeet_yoink.Backbone.Reader.{FileReader}
use yeet_yoink.Backbone.Record.{received, locked, sent}
use yeet_yoink.Backbone.Accessor.{FileAccessorBridge, Living}
use yeet_yoink.Backbone.Accessor
use yeet_yoink.Backbone.Table.{Backbone}
use yeet_yoink.Backbone.Table
use yeet_yoink.Backend.{FileProvider}
use yeet_yoink.Tests.Toy.{toy}
use yeet_yoink.Tests.Systems.{opened, run}
use yeet_yoink.Tests.Backends.{summary}

-- The upload of Tests.Systems, whose handler was told of the summary of Tests.Backends.
abbrev kept : Backbone toy
kept = run (run (run opened (received (ok (success summary)))) locked) (sent true 5)

abbrev set_bridge : FileAccessorBridge toy
set_bridge = record { backbone = some 0; is_poisoned = false }

abbrev living : Living toy
living place = some kept

abbrev kept_reader : FileReader toy
kept_reader = record {
  inner = 42;
  content_type = some "text/plain";
  created = 0;
  expiration_duration = 300_000_000_000;
  summary = some summary;
}

abbrev provider : FileProvider toy
provider id = ok kept_reader
