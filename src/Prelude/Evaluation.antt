-- ===== src/Prelude/Evaluation.antt =====
-- What a test unfolds to compute with the shared functions.
use aerosol.Prelude.Tests.{list_beq}
use aerosol.Prelude.Lists.{all, any, filter, find?, contains}
use aerosol.Prelude.Strings.{
  to_lower, to_upper, lower, upper, before, starts_with, ends_with, rstrip, is_blank, lstrip_blank,
  strip, split, drop_newline, at_dollar,
}
use aerosol.Prelude.Tables.{update_where, delete_where, count_where}
use aerosol.Prelude.Sorting.{text_ltb, insert_by, sort_by}

unfoldable pub evaluation : Unit {0}
unfolding list_beq all any filter find? contains split to_lower to_upper lower upper before
    starts_with ends_with rstrip is_blank lstrip_blank strip drop_newline at_dollar update_where
    delete_where count_where text_ltb insert_by sort_by
evaluation = tt
