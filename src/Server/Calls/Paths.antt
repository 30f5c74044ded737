-- ===== src/Server/Calls/Paths.antt =====
-- The path under which a call is counted.
use yeet_yoink.Common.{List}
