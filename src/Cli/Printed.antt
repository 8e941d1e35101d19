-- ===== src/Cli/Printed.antt =====
-- What the commands `plan` and `status` of cmd/pg-migrate/main.go print as text.
--
-- `rfc3339` formats a time, `decimal` a number, and `message` is the text of a recorded error.
use pg_migrate.Prelude.{ℕ, Option, none, some, List, [], ◌∷◌, ◌++◌, if◌then◌else◌, is_nil, length}
use pg_migrate.Text.{Bytes, codes}
use pg_migrate.Error.{Error}
use pg_migrate.Api.{Analysis, StatusRow}

abbrev line : Bytes → Bytes
line text = text ++ 0x0a ∷ []

-- a loop that prints an ID with what the list makes of it
unfoldable pub id_lines : Bytes → List Bytes → Bytes
id_lines note [] = []
id_lines note (id ∷ ids) = line (codes "  - " ++ (id ++ note)) ++ id_lines note ids

-- a heading with its list, or a line that says that there is none
abbrev listed : Bytes → Bytes → List Bytes → Bytes
listed heading note ids =
    if is_nil ids
    then line (heading ++ codes ": None")
    else line (heading ++ codes ":") ++ id_lines note ids

-- the text that `plan` prints
unfoldable pub plan_text : Analysis → Bytes
unfolding id_lines
plan_text a =
    line (codes "Migration execution plan:")
    ++ (listed (codes "To Rollback") (codes " (DOWN)") a.to_rollback
        ++ (listed (codes "To Apply") (codes " (UP)") a.to_apply
            ++ (if is_nil a.interleaved
                then []
                else line (codes "Interleaved (Out-of-Order):")
                  ++ id_lines (codes " (Interleaved)") a.interleaved)))

module _ (rfc3339 decimal : ℕ → Bytes) (message : Error → Bytes) where
  -- the text of a recorded error; there is none without a failure
  abbrev error_text : Option Error → Bytes
  error_text none = []
  error_text (some e) = message e

  -- U+2717 for a failed migration, U+2713 for another
  abbrev pub status_line : StatusRow → Bytes
  status_line row =
      if row.failed
      then line (
          codes "  "
          ++ (0xe2 ∷ 0x9c ∷ 0x97 ∷ codes " "
              ++ (row.id
                  ++ (codes "  "
                      ++ (rfc3339 row.applied_at
                          ++ (codes "  FAILED: " ++ error_text row.error))))))
      else line (
          codes "  "
          ++ (0xe2 ∷ 0x9c ∷ 0x93 ∷ codes " " ++ (row.id ++ (codes "  " ++ rfc3339 row.applied_at))))

  unfoldable pub status_lines : List StatusRow → Bytes
  status_lines [] = []
  status_lines (row ∷ rows) = status_line row ++ status_lines rows

  -- the text that `status` prints
  unfoldable pub status_text : List StatusRow → Bytes
  unfolding status_lines
  status_text rows =
      if is_nil rows
      then line (codes "No migrations applied.")
      else line (codes "Applied migrations (" ++ (decimal (length rows) ++ codes "):"))
        ++ status_lines rows
