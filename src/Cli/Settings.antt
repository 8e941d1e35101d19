-- ===== src/Cli/Settings.antt =====
-- What the flags and the environment come to: the settings that the package is given.
use pg_migrate.Prelude.{
  ◌≡◌, refl, sym, ◌∙◌, ap, ℕ, ◌==◌, arith, inl, inr, ◌⊎◌, Bool, true, false, not, Option, none,
  some, List, [], ◌∷◌, ◌++◌, if◌then◌else◌, is_nil, is_nil_lem, ℤ, pos, negsuc, zero, suc,
  Bool-cases,
}
use pg_migrate.Result.{ok, bind-eq-ok, ok_injective}
use pg_migrate.Text.{Bytes}
use pg_migrate.Api.{
  Config, Configure, apply_options, zero_config, with_lock_timeout, with_lock_id, with_table_name,
  with_schema, with_rollback, with_interleaved,
}
use pg_migrate.Cli.{
  Runtime, CliConfig, Flags, Overrides, option_if, is_zero, flag_timeout, build_options,
}

-- The configuration of the package with the settings that the command has.
abbrev pub settings : ℤ → ℤ → Bytes → Bytes → Bool → Bool → Config
settings timeout id name schema rollback interleaved = record {
  table = record { schema = schema; name = name };
  lock_timeout = timeout;
  lock_id = id;
  allow_rollback = rollback;
  allow_interleaved = interleaved;
  allow_empty_source = false;
  lock_timeout_set = true;
}

-- A timeout comes from the flag if it is given, else from the environment.
abbrev pub IsChosen : {S : Type 0} → Runtime S → CliConfig → Flags → ℤ → Type 0
IsChosen rt cfg flags timeout =
    ((flags.lock_timeout ≡ []) × (timeout ≡ cfg.lock_timeout))
    ⊎ (rt.parse_duration flags.lock_timeout ≡ some timeout)

apply_options-append :
    (front back : List Configure) (c : Config)
    → apply_options (front ++ back) c ≡ apply_options back (apply_options front c)
apply_options-append [] back c = refl
apply_options-append (opt ∷ front) back c = apply_options-append front back (opt c)

module _ (t : ℤ) where
  id_settled :
      (id : ℤ)
      → apply_options
          (option_if (not (is_zero id)) (with_lock_id id))
          (settings t (pos 0) [] [] false false)
        ≡ settings t id [] [] false false
  unfolding with_lock_id
  id_settled (pos zero) = refl
  id_settled (pos (suc n)) = rw (not_zero n) refl
    where
      not_zero : (n : ℕ) → (suc n == 0) ≡ false
      not_zero n = ground arith
  id_settled (negsuc n) = refl

  name_settled :
      (id : ℤ) (name : Bytes)
      → apply_options
          (option_if (not (is_nil name)) (with_table_name name))
          (settings t id [] [] false false)
        ≡ settings t id name [] false false
  unfolding with_table_name
  name_settled id [] = refl
  name_settled id (c ∷ name) = refl

  schema_settled :
      (id : ℤ) (name schema : Bytes)
      → apply_options
          (option_if (not (is_nil schema)) (with_schema schema))
          (settings t id name [] false false)
        ≡ settings t id name schema false false
  unfolding with_schema
  schema_settled id name [] = refl
  schema_settled id name (c ∷ schema) = refl

  overrides_settled :
      (id : ℤ) (name schema : Bytes) (rollback interleaved : Bool)
      → apply_options
          (option_if rollback with_rollback ++ option_if interleaved with_interleaved)
          (settings t id name schema false false)
        ≡ settings t id name schema rollback interleaved
  unfolding with_rollback with_interleaved
  overrides_settled id name schema true true = refl
  overrides_settled id name schema true false = refl
  overrides_settled id name schema false true = refl
  overrides_settled id name schema false false = refl

  flags_settled :
      (id : ℤ) (name schema : Bytes) (rollback interleaved : Bool)
      → apply_options
          (option_if (not (is_zero id)) (with_lock_id id)
            ++ (option_if (not (is_nil name)) (with_table_name name)
                ++ (option_if (not (is_nil schema)) (with_schema schema)
                    ++ (option_if rollback with_rollback
                        ++ option_if interleaved with_interleaved))))
          (settings t (pos 0) [] [] false false)
        ≡ settings t id name schema rollback interleaved
  flags_settled id name schema rollback interleaved =
      rw
        (
          apply_options-append (option_if (not (is_zero id)) (with_lock_id id)),
          id_settled id,
          apply_options-append (option_if (not (is_nil name)) (with_table_name name)),
          name_settled id name,
          apply_options-append (option_if (not (is_nil schema)) (with_schema schema)),
          schema_settled id name schema,
        )
        (overrides_settled id name schema rollback interleaved)

flag_timeout-ok : (raw : Bytes) (d : Option ℤ) {t : ℤ} → flag_timeout raw d ≡ ok t → d ≡ some t
flag_timeout-ok raw none h = cc
flag_timeout-ok raw (some d) h = cc

module _ {S : Type 0} (rt : Runtime S) (cfg : CliConfig) (flags : Flags) where
  chosen :
      {t : ℤ}
      → (if is_nil flags.lock_timeout
          then ok cfg.lock_timeout
          else flag_timeout flags.lock_timeout (rt.parse_duration flags.lock_timeout))
        ≡ ok t
      → IsChosen rt cfg flags t
  chosen {t} h = elim (Bool-cases (is_nil flags.lock_timeout)) [
    | inl e ↦ inl (is_nil_lem flags.lock_timeout e, sym (ok_injective (rw e at h)))
    | inr e ↦
        inr (flag_timeout-ok flags.lock_timeout (rt.parse_duration flags.lock_timeout) (rw e at h))
  ]

-- The options that the command builds set the package up with the flags: the lock ID, the table, its
-- schema and the two overrides are those given, an empty source is not allowed, and the lock timeout
-- counts as set; it is the flag's if there is one, else the environment's.
pub build_options_settle :
    {S : Type 0} (rt : Runtime S) (cfg : CliConfig) (flags : Flags) (overrides : Overrides)
    {opts : List Configure}
    → build_options rt cfg flags overrides ≡ ok opts
    → (timeout : ℤ) × IsChosen rt cfg flags timeout
      × (apply_options opts zero_config
          ≡ settings timeout flags.lock_id flags.table_name flags.table_schema
              overrides.allow_rollback overrides.allow_interleaved)
unfolding build_options with_lock_timeout
build_options_settle rt cfg flags overrides {opts} h =
    let (t, found, same) = bind-eq-ok _ _ h in
    (
      t,
      chosen rt cfg flags found,
      ap (λ os. apply_options os zero_config) (sym (ok_injective same))
          ∙ flags_settled t flags.lock_id flags.table_name flags.table_schema
              overrides.allow_rollback overrides.allow_interleaved,
    )
