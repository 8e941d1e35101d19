-- ===== src/Executor/Pinned.antt =====
-- What a script that runs outside a transaction leaves of the ledger.
use pg_migrate.Prelude.{
  ℕ, suc, ◌≡◌, refl, ◌⊎◌, inl, inr, true, false, some, Bool-cases, sym, ◌∙◌, Option, List, [], ◌∷◌,
  is_nil,
}
use pg_migrate.Result.{Result, ok, err}
use pg_migrate.Error.{Error, errors_is, no_pinned_conn}
use pg_migrate.Text.{Bytes}
use pg_migrate.Text.Space.{trim_space}
use pg_migrate.Database.{Row, Server}
use pg_migrate.Database.Calls.{pure, lift, attempt, call}
use pg_migrate.Database.Triples.{
  Pred, Post, Triple, Triple-pure, Triple-lift, Triple-wrapping, Triple-attempt, Triple-bind,
  Triple-mono, Triple-call,
}
use pg_migrate.Database.Statements.{Triple-exec_script}
use mathlib.Core.Bool.{false≢true}
use pg_migrate.Directives.{ScriptError}
use pg_migrate.Executor.Ran.{Ran, texts}
use pg_migrate.Executor.Statements.{of_script, run_statements, on_pinned_conn, without_conn}

-- Schema and ledger are what they were.
abbrev pub Same : {S : Type 0} → S → Option (List Row) → Pred S
Same s₀ l₀ s l = (s ≡ s₀) × (l ≡ l₀)

module _ {S : Type 0} (sv : Server S) (l₀ : Option (List Row)) where
  run_statements-Triple :
      (s₀ : S) (i : ℕ) (stmts : List Bytes)
      → Triple
          (Same s₀ l₀)
          (run_statements sv i stmts)
          (λ _ s l. Ran sv (texts stmts) s₀ s × (l ≡ l₀))
          (λ e s l. (errors_is e no_pinned_conn ≡ false) × (l ≡ l₀))
  unfolding run_statements
  run_statements-Triple s₀ i [] = Triple-pure tt (λ s l h. h)
  run_statements-Triple s₀ i (stmt ∷ rest) = elim (Bool-cases (is_nil (trim_space stmt))) [
    | inl blank ↦ rw blank (run_statements-Triple s₀ (suc i) rest)
    | inr spoken ↦ rw spoken (
        Triple-bind {Q = λ _ s l. (sv.exec (trim_space stmt) s₀ ≡ some s) × (l ≡ l₀)} _ _
          (Triple-wrapping _ _ (
            Triple-exec_script sv (λ s l. (sv.exec (trim_space stmt) s₀ ≡ some s) × (l ≡ l₀)) _
              (λ s t l runs h. (rw h.0 at runs, h.1)) (λ n s l h. (unfold errors_is in refl, h.1))
              (λ n s l h. (unfold errors_is in refl, h.1))))
          (λ _. record {
            at = λ db h.
                (Triple-mono (run_statements sv (suc i) rest)
                    (run_statements-Triple db.schema (suc i) rest)
                    (λ a s l k. ((db.schema, h.0, k.0), k.1)) (λ e s l k. k)).at
                  db (refl, h.1);
          }))
  ]

  pub on_pinned_conn-Triple :
      (s₀ : S) (stmts : List Bytes)
      → Triple
          (Same s₀ l₀)
          (on_pinned_conn sv (run_statements sv 0 stmts))
          (λ _ s l. Ran sv (texts stmts) s₀ s × (l ≡ l₀))
          (λ e s l. (l ≡ l₀) × ((errors_is e no_pinned_conn ≡ false) ⊎ (s ≡ s₀)))
  unfolding on_pinned_conn
  on_pinned_conn-Triple s₀ stmts =
      Triple-bind {Q = Post (λ _. Same s₀ l₀) (λ _. Same s₀ l₀)} (attempt (call sv (pure tt))) _
        (Triple-attempt (call sv (pure tt)) (
          Triple-call {Q = λ _. Same s₀ l₀} sv (pure tt) (Triple-pure tt (λ s l h. h))
            (λ n s l h. h) (λ n a s l h. h)))
        (λ connected.
          Triple-bind {Q = λ _. Same s₀ l₀} (lift (without_conn connected)) _
            (Triple-lift (without_conn connected) (opened connected))
            (λ _.
              Triple-mono (run_statements sv 0 stmts) (run_statements-Triple s₀ 0 stmts)
                (λ a s l h. h) (λ e s l h. (h.1, inl h.0))))
    where
      opened :
          (r : Result Error (Unit {0})) (s : S) (l : Option (List Row))
          → Post (λ _. Same s₀ l₀) (λ _. Same s₀ l₀) r s l
          → Post
              (λ _. Same s₀ l₀)
              (λ e s l. (l ≡ l₀) × ((errors_is e no_pinned_conn ≡ false) ⊎ (s ≡ s₀)))
              (without_conn r)
              s
              l
      opened (ok a) s l h = h
      opened (err e) s l h = (h.1, inr h.0)

  -- An error of a connection that could not be had has left the schema.
  pub unrun :
      (e : Error) (s s₀ : S)
      → errors_is e no_pinned_conn ≡ true
      → (errors_is e no_pinned_conn ≡ false) ⊎ (s ≡ s₀)
      → s ≡ s₀
  unrun e s s₀ t (inl f) = absurd (false≢true (sym f ∙ t))
  unrun e s s₀ t (inr h) = h

-- A parser's result, which leaves schema and ledger alone.
pub of_script-Post :
    {S A : Type 0} {s₀ : S} {l₀ : Option (List Row)} (E : Error → Pred S) (r : Result ScriptError A)
    (s : S) (l : Option (List Row))
    → ((e : Error) → E e s l)
    → Same s₀ l₀ s l
    → Post (λ a s l. Same s₀ l₀ s l × (r ≡ ok a)) E (of_script r) s l
of_script-Post E (ok a) s l fails h = (h, refl)
of_script-Post E (err e) s l fails h = fails _
