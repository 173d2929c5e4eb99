-- ===== src/Retry.antt =====
-- `should_retry` of src/lib.rs.
use sqlxmq.Prelude.{
  String, Bool, true, false, ◌&&◌, Option, none, some, str_eq, if◌then◌else◌, SqlxError, database,
  client,
}

abbrev pub is_text : Option String → String → Bool
is_text none t = false
is_text (some s) t = str_eq s t

-- The match on the code and the constraint of a database error, its arms in order.
unfoldable pub retryable : Option String → Option String → Bool
retryable code constraint =
    if is_text code "23503" && is_text constraint "mq_msgs_after_message_id_fkey"
    then true
    else if is_text code "23505"
        && is_text constraint "mq_msgs_channel_name_channel_args_after_message_id_idx"
    then true
    else if is_text code "40001"
    then true
    else is_text code "40P01"

unfoldable pub should_retry : SqlxError → Bool
unfolding retryable
should_retry (database code constraint) = retryable code constraint
should_retry client = false
