-- ===== src/Dsn/RoundTrip.antt =====
-- `GetDataSource` of internal/db/postgres.go, and the reader of connection strings.
use pg_migrate.Prelude.{
  ℕ, zero, ◌≡◌, refl, sym, ap, ◌∙◌, Bool, true, false, Option, some, List, [], ◌∷◌, ◌++◌,
  if◌then◌else◌, is_nil, ◌==◌, filter, All, arith, Bool-cases, inl, inr, append_assoc, append-nil,
}
use pg_migrate.Text.{Bytes}
use pg_migrate.Dsn.{
  ConnConfig, Setting, needs_quotes, escape_from, quote_dsn_value, settings_of, show_setting,
  join_settings, has_value, get_data_source,
}
use pg_migrate.Dsn.Escaped.{read_escaped}
use pg_migrate.Dsn.Reading.{
  is_blank, read_settings, read_dsn, ended, is_utf8, is_carried, is_key, between, in_key,
  before_value, plain, quoted,
}

abbrev Readings : Type 0
Readings = Option (List Setting)

-- what a reader makes of what follows a value: nothing, or a blank and other settings
abbrev after : Bytes → Readings
after [] = some []
after (c ∷ r) = read_settings between [] [] r

abbrev is_boundary : Bytes → Bool
is_boundary [] = true
is_boundary (c ∷ r) = c == b' '

step_key :
    (c : ℕ) (key r : Bytes)
    → (c == b'=') ≡ false
    → read_settings in_key key [] (c ∷ r) ≡ read_settings in_key (key ++ c ∷ []) [] r
unfolding read_settings
step_key c key r h =
    ap
      (λ t.
        read_settings (if t then before_value else in_key) (if t then key else key ++ c ∷ []) [] r)
      h

end_key :
    (key r : Bytes) → read_settings in_key key [] (b'=' ∷ r) ≡ read_settings before_value key [] r
unfolding read_settings
end_key key r = refl

read_key :
    (acc key r : Bytes)
    → is_key key ≡ true
    → read_settings in_key acc [] (key ++ b'=' ∷ r) ≡ read_settings before_value (acc ++ key) [] r
read_key acc [] r h =
    end_key acc r ∙ ap (λ k. read_settings before_value k [] r) (sym (append-nil acc))
read_key acc (c ∷ key) r h =
    step_key c acc (key ++ b'=' ∷ r) (ground arith)
    ∙ read_key (acc ++ c ∷ []) key r (ground arith)
    ∙ ap (λ k. read_settings before_value k [] r) (append_assoc acc (c ∷ []) key)

step_plain :
    (c : ℕ) (key acc r : Bytes)
    → is_blank c ≡ false
    → (c == b'\\') ≡ false
    → read_settings (plain false) key acc (c ∷ r)
      ≡ read_settings (plain false) key (acc ++ c ∷ []) r
unfolding read_settings
step_plain c key acc r h k = rw (h, k) refl

read_plain :
    (key acc v r : Bytes)
    → needs_quotes v ≡ false
    → is_carried v ≡ true
    → read_settings (plain false) key acc (v ++ r) ≡ read_settings (plain false) key (acc ++ v) r
unfolding needs_quotes is_carried
read_plain key acc [] r h k = rw (append-nil acc) refl
read_plain key acc (c ∷ v) r h k =
    step_plain c key acc (v ++ r) (ground arith) (ground arith)
    ∙ read_plain key (acc ++ c ∷ []) v r (ground arith) (ground arith)
    ∙ ap (λ a. read_settings (plain false) key a r) (append_assoc acc (c ∷ []) v)

end_plain :
    (key v r : Bytes)
    → is_boundary r ≡ true
    → read_settings (plain false) key v r ≡ ended key v (after r)
unfolding read_settings
end_plain key v [] h = refl
end_plain key v (c ∷ r) h = rw (blank c h) refl
  where
    blank : (c : ℕ) → (c == b' ') ≡ true → is_blank c ≡ true
    blank c e = ground arith

start_plain :
    (c : ℕ) (key r : Bytes)
    → is_blank c ≡ false
    → (c == b'\'') ≡ false
    → (c == b'\\') ≡ false
    → read_settings before_value key [] (c ∷ r) ≡ read_settings (plain false) key (c ∷ []) r
unfolding read_settings
start_plain c key r h k l = rw (h, k, l) refl

start_key :
    (c : ℕ) (r : Bytes)
    → is_blank c ≡ false
    → read_settings between [] [] (c ∷ r) ≡ read_settings in_key (c ∷ []) [] r
unfolding read_settings
start_key c r h =
    ap (λ t. read_settings (if t then between else in_key) (if t then [] else c ∷ []) [] r) h

start_quoted :
    (key r : Bytes)
    → read_settings before_value key [] (b'\'' ∷ r) ≡ read_settings (quoted false) key [] r
unfolding read_settings
start_quoted key r = refl

after_boundary : (r : Bytes) → is_boundary r ≡ true → read_settings between [] [] r ≡ after r
unfolding read_settings
after_boundary [] h = refl
after_boundary (c ∷ r) h =
    ap (λ t. read_settings (if t then between else in_key) (if t then [] else c ∷ []) [] r)
      (blank c h)
  where
    blank : (c : ℕ) → (c == b' ') ≡ true → is_blank c ≡ true
    blank c e = ground arith

-- A quoted value reads as the value.
read_value :
    (key v r : Bytes)
    → is_nil v ≡ false
    → is_utf8 zero v ≡ true
    → is_carried v ≡ true
    → is_boundary r ≡ true
    → read_settings before_value key [] (quote_dsn_value v ++ r) ≡ ended key v (after r)
unfolding quote_dsn_value
read_value key [] r some_value utf8 carried boundary = cc
read_value key (c ∷ v) r some_value utf8 carried boundary =
    elim (Bool-cases (needs_quotes (c ∷ v))) [
      | inl e ↦ rw e (
          start_quoted key ((escape_from zero (c ∷ v) ++ b'\'' ∷ []) ++ r)
          ∙ ap (read_settings (quoted false) key [])
              (append_assoc (escape_from zero (c ∷ v)) (b'\'' ∷ []) r)
          ∙ read_escaped zero key [] (c ∷ v) r utf8
          ∙ ap (ended key (c ∷ v)) (after_boundary r boundary))
      | inr e ↦ rw e (
          let (blank, quote, slash, needs, rest) = bare_head c v e carried in
          start_plain c key (v ++ r) blank quote slash
          ∙ read_plain key (c ∷ []) v r needs rest
          ∙ end_plain key (c ∷ v) r boundary)
    ]
  where
    bare_head :
        (c : ℕ) (v : Bytes)
        → needs_quotes (c ∷ v) ≡ false
        → is_carried (c ∷ v) ≡ true
        → (is_blank c ≡ false)
          × ((c == b'\'') ≡ false)
          × ((c == b'\\') ≡ false)
          × (needs_quotes v ≡ false)
          × (is_carried v ≡ true)
    bare_head c v h k =
        unfold needs_quotes in
        unfold is_carried in (ground arith, ground arith, ground arith, ground arith, ground arith)

-- A setting that a connection string can carry.
record IsReadable (p : Setting) : Type 0 where
  key : is_key p.0 ≡ true
  has_key : is_nil p.0 ≡ false
  value : is_nil p.1 ≡ false
  utf8 : is_utf8 zero p.1 ≡ true
  carried : is_carried p.1 ≡ true

read_setting :
    (key v r : Bytes)
    → IsReadable (key, v)
    → is_boundary r ≡ true
    → read_settings between [] [] (show_setting (key, v) ++ r) ≡ ended key v (after r)
read_setting [] v r h boundary = cc (h.has_key)
read_setting (c ∷ key) v r h boundary =
    start_key c ((key ++ b'=' ∷ quote_dsn_value v) ++ r) (first_of h.key)
    ∙ ap (read_settings in_key (c ∷ []) []) (append_assoc key (b'=' ∷ quote_dsn_value v) r)
    ∙ read_key (c ∷ []) key (quote_dsn_value v ++ r) (rest_of h.key)
    ∙ read_value (c ∷ key) v r h.value h.utf8 h.carried boundary
  where
    first_of : is_key (c ∷ key) ≡ true → is_blank c ≡ false
    first_of e = ground arith

    rest_of : is_key (c ∷ key) ≡ true → is_key key ≡ true
    rest_of e = ground arith

read_joined :
    (ps : List Setting)
    → All IsReadable ps
    → read_settings between [] [] (join_settings ps) ≡ some ps
unfolding join_settings
read_joined [] h = unfold read_settings in refl
read_joined ((key, v) ∷ []) h =
    ap (read_settings between [] []) (sym (append-nil (show_setting (key, v))))
    ∙ read_setting key v [] h.0 refl
read_joined ((key, v) ∷ q ∷ ps) h =
    read_setting key v (b' ' ∷ join_settings (q ∷ ps)) h.0 refl
    ∙ ap (ended key v) (read_joined (q ∷ ps) h.1)

-- the six values, each of whole characters and with no blank but spaces
abbrev pub IsCarried : ConnConfig → Type 0
IsCarried c =
    All (λ (p : Setting). (is_utf8 zero p.1 ≡ true) × (is_carried p.1 ≡ true)) (settings_of c)

IsReadable-settings :
    (ps : List Setting)
    → All (λ (p : Setting). (is_key p.0 ≡ true) × (is_nil p.0 ≡ false)) ps
    → All (λ (p : Setting). (is_utf8 zero p.1 ≡ true) × (is_carried p.1 ≡ true)) ps
    → All IsReadable (filter has_value ps)
IsReadable-settings [] h k = tt
IsReadable-settings ((key, []) ∷ ps) h k = IsReadable-settings ps h.1 k.1
IsReadable-settings ((key, c ∷ v) ∷ ps) h k = (
  record { key = h.0.0; has_key = h.0.1; value = refl; utf8 = k.0.0; carried = k.0.1 },
  IsReadable-settings ps h.1 k.1,
)

-- Without a DSN, `GetDataSource` makes a string that reads, by libpq's rules for the keyword/value form,
-- as the fields that are not empty, in their order, each with its key and its value as it stands. The
-- values are UTF-8 and have no blanks but spaces.
pub get_data_source-reads :
    (c : ConnConfig)
    → c.dsn ≡ []
    → IsCarried c
    → read_dsn (get_data_source c) ≡ some (filter has_value (settings_of c))
unfolding read_dsn get_data_source
get_data_source-reads c no_dsn h =
    rw no_dsn
      (read_joined (filter has_value (settings_of c)) (IsReadable-settings (settings_of c) keys h))
  where
    keys : All (λ (p : Setting). (is_key p.0 ≡ true) × (is_nil p.0 ≡ false)) (settings_of c)
    keys = (
      (refl, refl),
      ((refl, refl), ((refl, refl), ((refl, refl), ((refl, refl), ((refl, refl), tt))))),
    )
