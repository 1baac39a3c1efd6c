-- ===== src/Resolve/Names.antt =====
-- compiler/crates/tyra-resolve/src/scope.rs: the names that every program finds in scope.
use tyra.Prelude.{String, List, [], ◌∷◌}

unfoldable pub prelude_functions : List String
prelude_functions =
    "print" ∷ "println" ∷ "eprint" ∷ "eprintln" ∷ "panic" ∷ "parse" ∷ "__fs_read_raw" ∷ "__fs_errno"
    ∷ "__fs_errmsg" ∷ "__fs_write_raw" ∷ "__fs_exists" ∷ "__http_get" ∷ "__http_status"
    ∷ "__http_body" ∷ "__http_errno" ∷ "__http_errmsg" ∷ "__http_server_new" ∷ "__http_server_route"
    ∷ "__http_server_listen" ∷ "__json_parse" ∷ "__json_err_msg" ∷ "__json_err_line"
    ∷ "__json_err_col" ∷ "__json_kind" ∷ "__json_is_string" ∷ "__json_is_int" ∷ "__json_is_bool"
    ∷ "__json_str" ∷ "__json_int" ∷ "__json_bool" ∷ "__json_get" ∷ "__json_at" ∷ "__io_read_line"
    ∷ "__io_read_to_end" ∷ "__io_eof" ∷ "__string_len" ∷ "__string_is_empty" ∷ "__string_trim"
    ∷ "__string_to_upper" ∷ "__string_to_lower" ∷ "__string_chars" ∷ "__string_char_at"
    ∷ "__string_char_errno" ∷ "__string_char_code" ∷ "__string_from_char_code" ∷ "__list_sort"
    ∷ "__list_sort_str" ∷ "__string_contains" ∷ "__string_starts_with" ∷ "__string_ends_with"
    ∷ "__string_parse_int" ∷ "__string_parse_errno" ∷ "__string_byte_at" ∷ "__string_substring"
    ∷ "__string_reverse" ∷ "__string_from_byte" ∷ "__string_split_whitespace" ∷ "__string_split"
    ∷ "__string_replace" ∷ "__string_join" ∷ "__time_now_unix" ∷ "__time_monotonic_millis"
    ∷ "__log_info" ∷ "__log_warn" ∷ "__log_error" ∷ "__float_eq" ∷ "__float_approx_eq"
    ∷ "__float_abs" ∷ "__float_floor" ∷ "__float_ceil" ∷ "__float_round" ∷ "__float_min"
    ∷ "__float_max" ∷ "__float_to_string" ∷ "__float_parse" ∷ "__float_parse_errno"
    ∷ "__float_from_int" ∷ "__float_to_int" ∷ "__float_is_nan" ∷ "__float_is_infinite" ∷ "set"
    ∷ "linked_map" ∷ "linked_set" ∷ "sorted_map" ∷ "sorted_set" ∷ "__list_int_push"
    ∷ "__list_int_sum" ∷ "__list_int_max" ∷ "__list_int_min" ∷ "__list_int_contains"
    ∷ "__list_int_index_of" ∷ "__list_map_int" ∷ "__list_filter_int" ∷ "__list_fold_int"
    ∷ "__list_map_str" ∷ "__list_filter_str" ∷ "__list_fold_str" ∷ "__bench_clock_ns" ∷ []

unfoldable pub prelude_constructors : List String
prelude_constructors = "Some" ∷ "None" ∷ "Ok" ∷ "Err" ∷ []

unfoldable pub prelude_types : List String
prelude_types =
    "Int" ∷ "Float" ∷ "Bool" ∷ "String" ∷ "Rune" ∷ "Bytes" ∷ "Unit" ∷ "Never" ∷ "Option" ∷ "Result"
    ∷ "List" ∷ "Map" ∷ "Set" ∷ "LinkedMap" ∷ "LinkedSet" ∷ "SortedMap" ∷ "SortedSet" ∷ "Task"
    ∷ "Into" ∷ "Stringable" ∷ "Eq" ∷ "Hash" ∷ "Ord" ∷ "Debug" ∷ []
