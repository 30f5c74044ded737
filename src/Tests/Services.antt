-- ===== src/Tests/Services.antt =====
-- Calls, backends and configuration over stand-ins.
use yeet_yoink.Common.{ℕ, ◌≡◌, ◌%◌, refl, String, List, [], ◌∷◌, some, ok, text_eq, total, word}
use yeet_yoink.Crates.{pending, ready}
use yeet_yoink.Config.{Urls, IsPrinted, MemcacheConnectionString, new, connection_text, get_urls}
use yeet_yoink.Config.Connection.{new-connection_text}
use yeet_yoink.Metrics.Http.{Http, HttpMetrics, dec_in_flight, track, inc_in_flight}
use yeet_yoink.Server.Calls.{
  slash, path_base_of, Request, CallEvent, starts, polls, drops, handle_all, start_tracker,
  drop_tracker, poll_call,
}
use yeet_yoink.Server.Calls.Balance.{in_flight, handle_all-in_flight}

abbrev toy_http : Http
toy_http = record {
  Method = String;
  method_eq = text_eq;
  method_text = λ m. m;
  get = "GET";
  options = "OPTIONS";
  post = "POST";
  put = "PUT";
  delete = "DELETE";
  head = "HEAD";
  patch = "PATCH";
  F64 = ℕ;
  add_f64 = λ x y. x;
  as_secs_f64 = λ n. n;
}

-- "/y/a"
abbrev path : List ℕ
path = slash ∷ 121 ∷ slash ∷ 97 ∷ []

abbrev base : List ℕ
base = slash ∷ 121 ∷ []

base_of_path : path_base_of path ≡ some base
unfolding path_base_of
base_of_path = refl

abbrev no_calls : HttpMetrics toy_http
no_calls = record { track_endpoint = λ l. 0; track_duration = λ l. 0; track_in_flight = λ p. 0 }

abbrev request : Request toy_http
request = record { method = "GET"; path = path }

-- Two calls start; the second one is answered and dropped.
abbrev events : List (CallEvent toy_http String)
events =
    starts request 1
    ∷ starts request 2
    ∷ polls 1 pending
    ∷ polls 1 (ready (ok 200))
    ∷ drops 1 3
    ∷ []

handle_all-in_flight_example :
    let c = handle_all toy_http (record { trackers = []; metrics = no_calls }) events in
    c.metrics.track_in_flight base ≡ total (in_flight toy_http base) c.trackers % word
handle_all-in_flight_example = handle_all-in_flight toy_http base no_calls events refl

one_left :
    (handle_all toy_http
        (record { trackers = []; metrics = no_calls })
        events).metrics.track_in_flight
      base
    ≡ 1
unfolding handle_all start_tracker drop_tracker poll_call dec_in_flight track inc_in_flight
one_left = refl

abbrev toy_urls : Urls
toy_urls = record {
  Url = Unit {0};
  ParseError = Unit {0};
  parse = λ s. ok tt;
  scheme = λ u. "memcache";
  url_text = λ u. "memcache://host";
}

toy-IsPrinted : IsPrinted toy_urls
toy-IsPrinted = record { parse-text = λ u. refl; text_filled = λ u. refl }

abbrev connection : MemcacheConnectionString
connection = record { text = "memcache://host" }

new-connection_text_example :
    (new toy_urls (connection_text connection) ≡ ok connection)
    × (get_urls connection ≡ connection_text connection ∷ [])
    × ((u : Unit {0}) × (toy_urls.parse (connection_text connection) ≡ ok u)
        × (toy_urls.scheme u ≡ "memcache"))
unfolding new
new-connection_text_example =
    new-connection_text toy_urls toy-IsPrinted "memcache://host" connection refl
