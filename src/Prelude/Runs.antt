-- ===== src/Prelude/Runs.antt =====
-- For tests: `unfolding texts` opens the functions on text and the dictionaries together.
use tux_bridge.Prelude.Text.{
  eq_str, len, is_ascii_whitespace, is_whitespace, to_ascii_lowercase, strip_prefix, starts_with,
  ends_with, contains, trim_start, trim_end, trim_matches, split_at, len_utf16,
}
use tux_bridge.Prelude.Dict.{get, insert, values}
use tux_bridge.Prelude.Utf8.{as_bytes, from_utf8}

unfoldable pub texts : Unit {0}
unfolding eq_str len is_ascii_whitespace is_whitespace to_ascii_lowercase strip_prefix starts_with
    ends_with contains trim_start trim_end trim_matches split_at len_utf16 get insert values
    as_bytes from_utf8
texts = tt
