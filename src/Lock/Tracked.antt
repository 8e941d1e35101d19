-- ===== src/Lock/Tracked.antt =====
-- What is known of the pool while the lock's code runs, and what each call of the driver makes of it.
use pg_migrate.Prelude.{
  ℕ, zero, suc, ◌+◌, ◌<◌, ◌≡◌, refl, ◌⊎◌, inl, inr, false, Option, none, some, List, [], ◌∷◌, ◌==◌,
  All, All-filter, arith,
}
use pg_migrate.Result.{Result, ok, err}
use pg_migrate.Error.{Error, Context}
use pg_migrate.Database.{Reply, served, refused, lost}
use pg_migrate.Text.Space.{has_byte}
use pg_migrate.Lock.{Pool, Network, others}
use pg_migrate.Lock.Calls.{
  M, continue, wrap_error, respond, call, get_conn, item_at, put_limit, begin_call, set_limit_call,
  plain_call, close_conn, destroy, remove_grant, advisory_unlock_call, unlock_all_call,
  advisory_lock_call, Wait, granted_after, aborted_after, endless, wait_done, lock_wait, drop_one,
  drop_all, put_back, nothing, hand_out, take_conn, count_call,
}

abbrev pub IsKnown : Pool → Type 0
IsKnown w = All (λ s. s < w.next) w.idle

-- Nothing is held, and no connection is lent.
abbrev pub IsFree : Pool → Type 0
IsFree w = (w.grants ≡ []) × IsKnown w

-- Session `s` is lent: it is not in the pool.
abbrev pub IsLent : ℕ → Pool → Type 0
IsLent s w = IsKnown w × (has_byte w.idle s ≡ false) × (s < w.next)

abbrev pub IsLentClean : ℕ → Pool → Type 0
IsLentClean s w = IsLent s w × (w.grants ≡ [])

abbrev pub IsLentHolding : ℕ → Pool → Type 0
IsLentHolding s w = IsLent s w × (w.grants ≡ s ∷ [])

-- `s` is lent, and if a session holds the lock, it is this one.
abbrev pub IsLentUnsure : ℕ → Pool → Type 0
IsLentUnsure s w = IsLent s w × ((w.grants ≡ []) ⊎ (w.grants ≡ s ∷ []))

-- A call ends with `P` of its result, or with an error and `Q`.
abbrev pub Ends :
    {A : Type 0} → (A → Pool → Type 0) → (Pool → Type 0) → Result Error A × Pool → Type 0
Ends P Q (ok a, w) = P a w
Ends P Q (err e, w) = Q w

module _ {A B : Type 0} where
  pub bind-Ends :
      (P : A → Pool → Type 0) (P' : B → Pool → Type 0) (Q : Pool → Type 0)
      (r : Result Error A × Pool) (f : A → M B)
      → Ends P Q r
      → ((a : A) (w : Pool) → P a w → Ends P' Q (f a w))
      → Ends P' Q (continue r f)
  bind-Ends P P' Q (ok a, w) f h k = k a w h
  bind-Ends P P' Q (err e, w) f h k = h

pub wrapping-Ends :
    {A : Type 0} (P : A → Pool → Type 0) (Q : Pool → Type 0) (c : Context)
    (r : Result Error A × Pool)
    → Ends P Q r
    → Ends P Q (wrap_error c r)
wrapping-Ends P Q c (ok a, w) h = h
wrapping-Ends P Q c (err e, w) h = h

has_byte-fresh : (n : ℕ) (xs : List ℕ) → All (λ s. s < n) xs → has_byte xs n ≡ false
unfolding has_byte
has_byte-fresh n [] h = refl
has_byte-fresh n (x ∷ xs) h = ground (arith, has_byte-fresh n xs h.1)

has_byte-others : (s : ℕ) (xs : List ℕ) → has_byte (others s xs) s ≡ false
unfolding has_byte
has_byte-others s [] = refl
has_byte-others s (x ∷ xs) = ground (arith, has_byte-others s xs)

pub has_byte-cons :
    (x s : ℕ) (xs : List ℕ) → (x == s) ≡ false → has_byte xs s ≡ false → has_byte (x ∷ xs) s ≡ false
unfolding has_byte
has_byte-cons x s xs e h = rw e h

pub All-suc : (n : ℕ) (xs : List ℕ) → All (λ s. s < n) xs → All (λ s. s < n + 1) xs
All-suc n [] h = tt
All-suc n (x ∷ xs) h = (omega arith, All-suc n xs h.1)

module _ {A : Type 0} (P : A → Pool → Type 0) (Q : Pool → Type 0) where
  respond-Ends :
      (r : Reply) (n : ℕ) (done : Result Error A × Pool) (w : Pool)
      → Q w
      → Ends P Q done
      → ((a : A) (w' : Pool) → P a w' → Q w')
      → Ends P Q (respond r n done w)
  respond-Ends served n done w h k m = k
  respond-Ends refused n done w h k m = h
  respond-Ends lost n (ok a, w') w h k m = m a w' k
  respond-Ends lost n (err e, w') w h k m = k

  pub call-Ends :
      (nw : Network) (op : M A) (w : Pool)
      → Q (count_call w)
      → Ends P Q (op (count_call w))
      → ((a : A) (w' : Pool) → P a w' → Q w')
      → Ends P Q (call nw op w)
  call-Ends nw op w h k m =
      respond-Ends (nw.reply w.calls) w.calls (op (count_call w)) (count_call w) h k m

take_conn-Ends :
    (o : Option ℕ) (w : Pool)
    → IsFree w
    → ((s : ℕ) → o ≡ some s → s < w.next)
    → Ends IsLentClean IsFree (take_conn o w)
take_conn-Ends none w (g, known) h =
    ((All-suc w.next w.idle known, has_byte-fresh w.next w.idle known, omega arith), g)
take_conn-Ends (some s) w (g, known) h =
    ((All-filter _ _ w.idle known, has_byte-others s w.idle, h s refl), g)

item_at-lt : (n : ℕ) (xs : List ℕ) (i s : ℕ) → All (λ r. r < n) xs → item_at xs i ≡ some s → s < n
item_at-lt n [] i s h e = cc
item_at-lt n (x ∷ xs) zero s h e = ground arith
item_at-lt n (x ∷ xs) (suc i) s h e = item_at-lt n xs i s h.1 e

hand_out-Ends :
    (r : Reply) (nw : Network) (n : ℕ) (w : Pool)
    → IsFree w
    → Ends IsLentClean IsFree (hand_out r nw n w)
hand_out-Ends served nw n w h =
    take_conn-Ends (item_at w.idle (nw.picks n)) w h
      (λ s e. item_at-lt w.next w.idle (nw.picks n) s h.1 e)
hand_out-Ends refused nw n w h = h
hand_out-Ends lost nw n w h = h

-- `db.Conn` hands out a connection that holds nothing, and that is in the pool no more.
pub get_conn-Ends : (nw : Network) (w : Pool) → IsFree w → Ends IsLentClean IsFree (get_conn nw w)
unfolding get_conn
get_conn-Ends nw w h = hand_out-Ends (nw.reply w.calls) nw w.calls (count_call w) h

pub plain_call-Ends :
    (nw : Network) (P : Pool → Type 0) (w : Pool)
    → P (count_call w)
    → Ends (λ _. P) P (plain_call nw w)
unfolding plain_call
plain_call-Ends nw P w h = call-Ends (λ _. P) P nw nothing w h h (λ a w' k. k)

put_limit-Ends :
    (nw : Network) (m : ℕ) (P : Pool → Type 0) (w : Pool)
    → P (count_call w)
    → P (record (count_call w) { limit = m })
    → Ends (λ _. P) P (call nw (put_limit m) w)
put_limit-Ends nw m P w h k = call-Ends (λ _. P) P nw (put_limit m) w h k (λ a w' k'. k')

pub begin_call-Ends :
    (nw : Network) (P : Pool → Type 0) (w : Pool)
    → P (count_call w)
    → P (record (count_call w) { limit = nw.session_limit })
    → Ends (λ _. P) P (begin_call nw w)
unfolding begin_call
begin_call-Ends nw P w h k = put_limit-Ends nw nw.session_limit P w h k

pub set_limit_call-Ends :
    (nw : Network) (m : ℕ) (P : Pool → Type 0) (w : Pool)
    → P (count_call w)
    → P (record (count_call w) { limit = m })
    → Ends (λ _. P) P (set_limit_call nw m w)
unfolding set_limit_call
set_limit_call-Ends nw m P w h k = put_limit-Ends nw m P w h k

wait_done-Ends :
    (s : ℕ) (t : Wait) (n : ℕ) (w : Pool)
    → IsLentClean s w
    → Ends (λ _. IsLentHolding s) (IsLentUnsure s) (wait_done s t n w)
wait_done-Ends s (granted_after t) n w (h, g) = (h, rw g)
wait_done-Ends s (aborted_after t) n w (h, g) = (h, inl g)
wait_done-Ends s endless n w (h, g) = (h, inl g)

-- A call that takes the lock and succeeds holds it; if it fails, it may.
pub advisory_lock_call-Ends :
    (nw : Network) (s : ℕ) (w : Pool)
    → IsLentClean s w
    → Ends (λ _. IsLentHolding s) (IsLentUnsure s) (advisory_lock_call nw s w)
unfolding advisory_lock_call
advisory_lock_call-Ends nw s w (h, g) =
    call-Ends (λ _. IsLentHolding s) (IsLentUnsure s) nw (wait_done s (lock_wait nw s w) w.calls) w
      (h, inl g) (wait_done-Ends s (lock_wait nw s w) w.calls (count_call w) (h, g))
      (λ a w' k. (k.0, inr k.1))

others_self : (s : ℕ) → others s (s ∷ []) ≡ []
others_self s = ground arith

others-Unsure : (s : ℕ) (grants : List ℕ) → (grants ≡ []) ⊎ (grants ≡ s ∷ []) → others s grants ≡ []
others-Unsure s grants (inl e) = rw e
others-Unsure s grants (inr e) = rw e (others_self s)

-- The session of a connection that is destroyed holds nothing any more.
pub destroy-IsFree : (s : ℕ) (w : Pool) → IsLentUnsure s w → IsFree (destroy s w)
unfolding destroy
destroy-IsFree s w (h, g) = (others-Unsure s w.grants g, h.0)

-- A connection that holds nothing may go back to the pool.
pub close_conn-Ends :
    (nw : Network) (s : ℕ) (w : Pool)
    → IsLentClean s w
    → Ends (λ _. IsFree) IsFree (close_conn nw s w)
unfolding close_conn
close_conn-Ends nw s w (h, g) =
    call-Ends (λ _. IsFree) IsFree nw (put_back s) w (g, h.0) (g, (h.2, h.0)) (λ a w' k. k)

pub unlock_all_call-Ends :
    (nw : Network) (s : ℕ) (w : Pool)
    → IsLentUnsure s w
    → Ends (λ _. IsLentClean s) (IsLentUnsure s) (unlock_all_call nw s w)
unfolding unlock_all_call
unlock_all_call-Ends nw s w (h, g) =
    call-Ends (λ _. IsLentClean s) (IsLentUnsure s) nw (drop_all s) w (h, g)
      (h, others-Unsure s w.grants g) (λ a w' k. (k.0, inl k.1))

remove_grant-Unsure :
    (s : ℕ) (grants : List ℕ) → (grants ≡ []) ⊎ (grants ≡ s ∷ []) → remove_grant s grants ≡ []
unfolding remove_grant
remove_grant-Unsure s grants (inl e) = rw e
remove_grant-Unsure s grants (inr e) = rw e (ground arith)

pub advisory_unlock_call-Ends :
    (nw : Network) (s : ℕ) (w : Pool)
    → IsLentUnsure s w
    → Ends (λ _. IsLentClean s) (IsLentUnsure s) (advisory_unlock_call nw s w)
unfolding advisory_unlock_call
advisory_unlock_call-Ends nw s w (h, g) =
    call-Ends (λ _. IsLentClean s) (IsLentUnsure s) nw (drop_one s) w (h, g)
      (h, remove_grant-Unsure s w.grants g) (λ a w' k. (k.0, inl k.1))
