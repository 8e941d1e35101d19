-- ===== src/New/Stamps.antt =====
-- `availableTimestamp` of cmd/pg-migrate/new.go: the search for a free time stamp.
use pg_migrate.Prelude.{
  ℕ, zero, suc, ◌+◌, ◌≤◌, ◌<◌, ◌≡◌, refl, sym, ap, ◌∙◌, inl, inr, Bool, true, false, not, ◌&&◌,
  ◌||◌, some, List, [], ◌∷◌, length, filter, take, leb, arith, Bool-cases,
}
use pg_migrate.Result.{ok}
use pg_migrate.Text.{Bytes, equal, equal_iff, contains}
use pg_migrate.Source.Files.{Entry}
use pg_migrate.Text.Lines.{has_prefix}
use pg_migrate.New.{layout_length, taken_stamps, next_stamp, entries, stamped, available_timestamp}

-- all but one of the stamps
abbrev other_stamps : Bytes → List Bytes → List Bytes
other_stamps s = filter (λ t. not (equal t s))

contains-other_stamps :
    (s k : Bytes) (taken : List Bytes)
    → equal s k ≡ false
    → contains (other_stamps s taken) k ≡ contains taken k
unfolding contains
contains-other_stamps s k [] h = refl
contains-other_stamps s k (t ∷ taken) h = elim (Bool-cases (equal t s)) [
  | inl e ↦
      rw e (contains-other_stamps s k taken h ∙ sym (ap (λ b. b || contains taken k) (other e)))
  | inr e ↦ rw e (ap (λ b. equal t k || b) (contains-other_stamps s k taken h))
]
  where
    other : equal t s ≡ true → equal t k ≡ false
    other e = rw ((equal_iff t s).0 e) h

length-other_stamps-le :
    (s : Bytes) (taken : List Bytes) → length (other_stamps s taken) ≤ length taken
length-other_stamps-le s [] = omega arith
length-other_stamps-le s (t ∷ taken) = ground (arith, length-other_stamps-le s taken)

length-other_stamps-lt :
    (s : Bytes) (taken : List Bytes)
    → contains taken s ≡ true
    → length (other_stamps s taken) < length taken
unfolding contains
length-other_stamps-lt s [] h = cc
length-other_stamps-lt s (t ∷ taken) h =
    ground (arith, length-other_stamps-le s taken, length-other_stamps-lt s taken)

-- The stamps from number k on are taken, that many of them.
unfoldable taken_run : (ℕ → Bytes) → List Bytes → ℕ → ℕ → Bool
unfolding contains
taken_run stamp taken k zero = true
taken_run stamp taken k (suc count) =
    contains taken (stamp k) && taken_run stamp taken (k + 1) count

-- What a search from stamp k on comes to: the first stamp that is free, after at most as many rounds as
-- there are stamps taken.
abbrev IsFirstFree : (ℕ → Bytes) → List Bytes → ℕ → ℕ → Type 0
IsFirstFree stamp taken k count =
    (count ≤ length taken)
    × (taken_run stamp taken k count ≡ true)
    × (contains taken (stamp (k + count)) ≡ false)

module _ (stamp : ℕ → Bytes) (distinct : (j k : ℕ) → stamp j ≡ stamp k → j ≡ k) where
  apart : (j k : ℕ) → j < k → equal (stamp j) (stamp k) ≡ false
  apart j k h = elim (Bool-cases (equal (stamp j) (stamp k))) [
    | inl e ↦ absurd (omega (arith, distinct j k ((equal_iff (stamp j) (stamp k)).0 e)))
    | inr e ↦ e
  ]

  next_stamp-other_stamps :
      (j fuel k : ℕ) (taken : List Bytes)
      → j < k
      → next_stamp stamp (other_stamps (stamp j) taken) fuel k ≡ next_stamp stamp taken fuel k
  unfolding next_stamp
  next_stamp-other_stamps j zero k taken h = refl
  next_stamp-other_stamps j (suc fuel) k taken h =
      rw
        (
          contains-other_stamps (stamp j) (stamp k) taken (apart j k h),
          next_stamp-other_stamps j fuel (k + 1) taken (omega arith),
        )
        refl

  taken_run-other_stamps :
      (j count k : ℕ) (taken : List Bytes)
      → j < k
      → taken_run stamp (other_stamps (stamp j) taken) k count ≡ taken_run stamp taken k count
  unfolding taken_run
  taken_run-other_stamps j zero k taken h = refl
  taken_run-other_stamps j (suc count) k taken h =
      rw
        (
          contains-other_stamps (stamp j) (stamp k) taken (apart j k h),
          taken_run-other_stamps j count (k + 1) taken (omega arith),
        )
        refl

  next_stamp-IsFirstFree :
      (fuel k : ℕ) (taken : List Bytes)
      → length taken < fuel
      → (count : ℕ) × (next_stamp stamp taken fuel k ≡ some (stamp (k + count)))
        × IsFirstFree stamp taken k count
  unfolding next_stamp taken_run
  next_stamp-IsFirstFree zero k taken h = absurd (omega arith)
  next_stamp-IsFirstFree (suc fuel) k taken h = elim (Bool-cases (contains taken (stamp k))) [
    | inr free ↦
        let e : k ≡ k + 0 = omega arith in
        (
          0,
          rw free (ap (λ n. some (stamp n)) e),
          (omega arith, refl, ap (λ n. contains taken (stamp n)) (sym e) ∙ free),
        )
    | inl used ↦
        let rest = other_stamps (stamp k) taken in
        let (count, found, (few, run, free)) =
          next_stamp-IsFirstFree fuel (k + 1) rest
            (omega (arith, length-other_stamps-lt (stamp k) taken used)) in
        let e : (k + 1) + count ≡ k + suc count = omega arith in
        (
          suc count,
          rw used (
              sym (next_stamp-other_stamps k fuel (k + 1) taken (omega arith))
              ∙ found
              ∙ ap (λ n. some (stamp n)) e),
          (
            omega (arith, length-other_stamps-lt (stamp k) taken used),
            rw used (sym (taken_run-other_stamps k count (k + 1) taken (omega arith)) ∙ run),
            ap (λ n. contains taken (stamp n)) (sym e)
                ∙ sym (
                    contains-other_stamps (stamp k) (stamp ((k + 1) + count)) taken
                      (apart k ((k + 1) + count) (omega arith)))
                ∙ free,
          ),
        )
  ]

length-taken_stamps : (es : List Entry) → length (taken_stamps es) ≤ length es
unfolding taken_stamps
length-taken_stamps [] = omega arith
length-taken_stamps (e ∷ es) = ground (arith, length-taken_stamps es)

-- Whether a file, not a folder, has a name that begins with `s`.
abbrev pub begins_any : List Entry → Bytes → Bool
begins_any [] s = false
begins_any (e ∷ es) s = (not e.is_dir && has_prefix e.name s) || begins_any es s

has_prefix-take :
    (n : ℕ) (name s : Bytes)
    → length s ≡ n
    → has_prefix name s ≡ (leb n (length name) && equal (take n name) s)
unfolding has_prefix equal
has_prefix-take zero name [] h = ground arith
has_prefix-take zero name (c ∷ s) h = absurd (omega (arith, h))
has_prefix-take (suc n) name [] h = absurd (omega (arith, h))
has_prefix-take (suc n) [] (c ∷ s) h = ground arith
has_prefix-take (suc n) (d ∷ name) (c ∷ s) h =
    ground (arith, has_prefix-take n name s (omega (arith, h)))

contains-taken_stamps :
    (es : List Entry) (s : Bytes)
    → length s ≡ layout_length
    → contains (taken_stamps es) s ≡ begins_any es s
unfolding contains taken_stamps
contains-taken_stamps [] s h = refl
contains-taken_stamps (e ∷ es) s h =
    ground (arith, has_prefix-take layout_length e.name s h, contains-taken_stamps es s h)

-- Some file has a name that begins with the stamp, for each of that many stamps from number k on.
abbrev pub AllBegin : (ℕ → Bytes) → List Entry → ℕ → ℕ → Type 0
AllBegin stamp es k zero = Unit {0}
AllBegin stamp es k (suc count) = (begins_any es (stamp k) ≡ true) × AllBegin stamp es (k + 1) count

AllBegin-taken_run :
    (stamp : ℕ → Bytes) (es : List Entry) (k count : ℕ)
    → ((n : ℕ) → length (stamp n) ≡ layout_length)
    → taken_run stamp (taken_stamps es) k count ≡ true
    → AllBegin stamp es k count
unfolding taken_run
AllBegin-taken_run stamp es k zero long h = tt
AllBegin-taken_run stamp es k (suc count) long h = (
  sym (contains-taken_stamps es (stamp k) (long k)) ∙ first_of _ _ h,
  AllBegin-taken_run stamp es (k + 1) count long (second_of _ _ h),
)
  where
    first_of : (a b : Bool) → (a && b) ≡ true → a ≡ true
    first_of a b h = ground (arith, h)

    second_of : (a b : Bool) → (a && b) ≡ true → b ≡ true
    second_of a b h = ground (arith, h)

-- If the clock gives different stamps at different seconds, each as long as the layout, then the search of
-- `availableTimestamp` ends, after at most one round more than the folder has entries, with the first
-- stamp, from now on, that no file name begins with: folders apart, each earlier stamp is the
-- beginning of a name, and the one that is returned is not.
pub available_timestamp-IsFirstFree :
    (stamp : ℕ → Bytes) (es : List Entry)
    → ((j k : ℕ) → stamp j ≡ stamp k → j ≡ k)
    → ((n : ℕ) → length (stamp n) ≡ layout_length)
    → (count : ℕ) × (available_timestamp stamp (entries es) ≡ some (ok (stamp count)))
      × (count ≤ length es)
      × AllBegin stamp es 0 count
      × (begins_any es (stamp count) ≡ false)
unfolding available_timestamp
available_timestamp-IsFirstFree stamp es distinct long =
    let (count, found, free) =
      next_stamp-IsFirstFree stamp distinct (length es + 1) 0 (taken_stamps es)
        (omega (arith, length-taken_stamps es)) in
    let e : 0 + count ≡ count = omega arith in
    (
      count,
      ap stamped found ∙ ap (λ n. some (ok (stamp n))) e,
      omega (arith, free.0, length-taken_stamps es),
      AllBegin-taken_run stamp es 0 count long free.1,
      sym (contains-taken_stamps es (stamp count) (long count))
          ∙ ap (λ n. contains (taken_stamps es) (stamp n)) (sym e)
          ∙ free.2,
    )
