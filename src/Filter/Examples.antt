-- ===== src/Filter/Examples.antt =====
-- A filter of include/hpblr/filter.hpp on one event.
use cpp_high_performance_bin.Base.{◌≡◌, ◌↔◌, true, none, some, []}
use cpp_high_performance_bin.Event.{Event, Severity}
use cpp_high_performance_bin.Filter.{EventFilter, matches, IsSelected, matches-IsSelected}

abbrev late_errors : EventFilter
late_errors = record {
  producer_id = none;
  type = none;
  severity = some Severity.error;
  from_timestamp_ns = some 10;
  to_timestamp_ns = none;
}

abbrev alarm : Event
alarm = record {
  timestamp_ns = 12;
  sequence = 1;
  producer_id = 3;
  type = 4;
  severity = Severity.error;
  payload = [];
}

matches-IsSelected_example : matches late_errors alarm ≡ true ↔ IsSelected late_errors alarm
matches-IsSelected_example = matches-IsSelected late_errors alarm
