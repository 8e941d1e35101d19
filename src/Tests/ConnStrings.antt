-- ===== src/Tests/ConnStrings.antt =====
-- Instances of the theorem on connection strings.
use pg_migrate.Prelude.{◌≡◌, refl, some, [], filter}
use pg_migrate.Text.{codes}
use pg_migrate.Text.Unicode.{decode_rune}
use pg_migrate.Dsn.{ConnConfig, settings_of, has_value, get_data_source, quote_dsn_value}
use pg_migrate.Dsn.Reading.{read_dsn, is_utf8, is_carried}
use pg_migrate.Dsn.RoundTrip.{IsCarried, get_data_source-reads}

abbrev conn : ConnConfig
conn = record {
  dsn = [];
  host = codes "db";
  port = [];
  user = codes "o'neil";
  password = codes "two words\\";
  db_name = codes "app";
  ssl_mode = [];
}

written : get_data_source conn ≡ codes "host=db user='o\\'neil' password='two words\\\\' dbname=app"
unfolding get_data_source quote_dsn_value decode_rune
written = refl

conn-IsCarried : IsCarried conn
unfolding is_utf8 is_carried decode_rune
conn-IsCarried = (
  (refl, refl),
  ((refl, refl), ((refl, refl), ((refl, refl), ((refl, refl), ((refl, refl), tt))))),
)

get_data_source-reads_example :
    read_dsn (get_data_source conn) ≡ some (filter has_value (settings_of conn))
get_data_source-reads_example = get_data_source-reads conn refl conn-IsCarried
