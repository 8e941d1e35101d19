-- ===== src/Dsn.antt =====
-- The connection string of internal/db/postgres.go.
pub mod Reading
pub mod Escaped
pub mod RoundTrip
use pg_migrate.Prelude.{
  ℕ, zero, suc, ◌+◌, ◌-◌, Bool, true, false, not, ◌&&◌, ◌||◌, List, [], ◌∷◌, ◌++◌, if◌then◌else◌,
  is_nil, leb, ltb, ◌==◌, filter,
}
use pg_migrate.Text.{Bytes, codes}
use pg_migrate.Text.Unicode.{decode_rune}

-- the part of `PostgresConfig` that is about the connection
pub record ConnConfig : Type 0 where
  pub dsn : Bytes
  pub host : Bytes
  pub port : Bytes
  pub user : Bytes
  pub password : Bytes
  pub db_name : Bytes
  pub ssl_mode : Bytes

abbrev pub is_escaped : ℕ → Bool
is_escaped c = c == b'\'' || c == b'\\'

-- the test `strings.ContainsAny(s, " '\\")`
unfoldable pub needs_quotes : Bytes → Bool
needs_quotes [] = false
needs_quotes (c ∷ s) = c == b' ' || is_escaped c || needs_quotes s

-- The loop of `quoteDSNValue` over the characters of a text; `skip` bytes are left of the character
-- at hand, which is written as it was read. A byte that begins no character is written as U+FFFD.
unfoldable pub escape_from : ℕ → Bytes → Bytes
escape_from skip [] = []
escape_from (suc k) (c ∷ s) = c ∷ escape_from k s
escape_from zero (c ∷ s) =
    let width = (decode_rune (c ∷ s)).1 in
    let plain = escape_from (width - 1) s in
    let one = escape_from zero s in
    if is_escaped c
    then b'\\' ∷ c ∷ one
    else if ltb c 0x80 || ltb 1 width
    then c ∷ plain
    else 0xef ∷ 0xbf ∷ 0xbd ∷ one

-- `quoteDSNValue`
unfoldable pub quote_dsn_value : Bytes → Bytes
unfolding needs_quotes escape_from
quote_dsn_value s = if not (needs_quotes s) then s else b'\'' ∷ escape_from zero s ++ b'\'' ∷ []

-- a field with its key
abbrev pub Setting : Type 0
Setting = Bytes × Bytes

abbrev pub settings_of : ConnConfig → List Setting
settings_of c =
    (codes "host", c.host)
    ∷ (codes "port", c.port)
    ∷ (codes "user", c.user)
    ∷ (codes "password", c.password)
    ∷ (codes "dbname", c.db_name)
    ∷ (codes "sslmode", c.ssl_mode)
    ∷ []

abbrev pub show_setting : Setting → Bytes
show_setting (key, value) = key ++ b'=' ∷ quote_dsn_value value

-- `strings.Join(parts, " ")`
unfoldable pub join_settings : List Setting → Bytes
join_settings [] = []
join_settings (p ∷ []) = show_setting p
join_settings (p ∷ q ∷ ps) = show_setting p ++ b' ' ∷ join_settings (q ∷ ps)

abbrev pub has_value : Setting → Bool
has_value (key, value) = not (is_nil value)

-- `GetDataSource`
unfoldable pub get_data_source : ConnConfig → Bytes
unfolding join_settings
get_data_source c =
    if not (is_nil c.dsn) then c.dsn else join_settings (filter has_value (settings_of c))
