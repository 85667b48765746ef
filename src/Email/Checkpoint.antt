-- ===== src/Email/Checkpoint.antt =====
-- What a digest of backend/email_service.py tells its readers, against the snapshot of what they
-- were told before: both as functions from identities to jobs.
use mathlib.Core.Path.{fun_ext}
use Prim.Native.String.{compare}
use Prim.Native.Nat.{Ordering}
use Prim.Native.Nat.Ordering.{gt, lt, eq}
use opportunity_radar.Prelude.{
  ◌≡◌, refl, sym, ap, ◌∙◌, subst, inl, inr, String, false, Option, none, some, List, [], ◌∷◌,
  length, if◌then◌else◌, if_cases, arith, Dict, lookup, str_eq, eq_iff, eq_refl, Bool-cases,
}
use opportunity_radar.Email.{
  JobRow, Job, by_identity, values, insert_by_key, is_missing, difference, current_active_jobs,
  snapshot_jobs, replace_snapshot,
}

-- The jobs that one dictionary has and another has not.
abbrev pub minus : (String → Option Job) → (String → Option Job) → String → Option Job
minus f g k = if is_missing (g k) then f k else none

placed :
    (k j i : String) (v w : Job) (d : Dict Job)
    → (o : Ordering) → compare k i ≡ o
    → lookup j (insert_by_key k v d) ≡ (if str_eq k j then some v else lookup j d)
    → lookup j (insert_by_key k v ((i, w) ∷ d))
      ≡ (if str_eq k j then some v else lookup j ((i, w) ∷ d))
unfolding lookup insert_by_key
placed k j i v w d lt e h = rw (e, insert_by_key) refl
placed k j i v w d eq e h = rw (e, insert_by_key) refl
placed k j i v w d gt e h =
    let apart : str_eq k i ≡ false = rw e refl in
    rw (e, insert_by_key) (ground (arith, h, apart, eq_iff k i, eq_iff k j, eq_iff i j))

pub lookup-insert :
    (k j : String) (v : Job) (d : Dict Job)
    → lookup j (insert_by_key k v d) ≡ (if str_eq k j then some v else lookup j d)
unfolding lookup insert_by_key
lookup-insert k j v [] = refl
lookup-insert k j v ((i, w) ∷ d) = placed k j i v w d (compare k i) refl (lookup-insert k j v d)

pub lookup-difference :
    (k : String) (current previous : Dict Job)
    → lookup k (difference current previous)
      ≡ minus (λ j. lookup j current) (λ j. lookup j previous) k
unfolding lookup difference is_missing
lookup-difference k [] previous = ground arith
lookup-difference k ((j, v) ∷ current) previous =
    elim (Bool-cases (is_missing (lookup j previous))) [
      | inl h ↦
          rw (h, lookup-insert j k v (difference current previous))
            (ground (arith, lookup-difference k current previous, eq_iff j k, h))
      | inr h ↦ rw h (ground (arith, lookup-difference k current previous, eq_iff j k, h))
    ]

pub by_identity-values :
    (jobs : List Job) → by_identity (values (by_identity jobs)) ≡ by_identity jobs
unfolding by_identity values
by_identity-values [] = refl
by_identity-values (j ∷ jobs) = ap (λ d. (j.identity_key, j) ∷ d) (by_identity-values jobs)

-- A snapshot that was replaced reads as the jobs that replaced it.
pub snapshot-replace :
    (rows : List JobRow)
    → snapshot_jobs (replace_snapshot (current_active_jobs rows)) ≡ current_active_jobs rows
unfolding snapshot_jobs replace_snapshot current_active_jobs
snapshot-replace rows = by_identity-values _

-- Every key is the identity of its job.
abbrev pub IsKeyed : Dict Job → Type 0
IsKeyed [] = Unit
IsKeyed ((k, j) ∷ d) = (j.identity_key ≡ k) × IsKeyed d

pub by_identity-IsKeyed : (jobs : List Job) → IsKeyed (by_identity jobs)
unfolding by_identity
by_identity-IsKeyed [] = tt
by_identity-IsKeyed (j ∷ jobs) = (refl, by_identity-IsKeyed jobs)

placed-IsKeyed :
    (k i : String) (v w : Job) (d : Dict Job)
    → (o : Ordering) → compare k i ≡ o
    → v.identity_key ≡ k
    → w.identity_key ≡ i
    → IsKeyed d
    → IsKeyed (insert_by_key k v d)
    → IsKeyed (insert_by_key k v ((i, w) ∷ d))
unfolding insert_by_key
placed-IsKeyed k i v w d lt e hv hw hd h = rw (e, insert_by_key) (hv, (hw, hd))
placed-IsKeyed k i v w d eq e hv hw hd h = rw (e, insert_by_key) (hv, (hw, hd))
placed-IsKeyed k i v w d gt e hv hw hd h = rw (e, insert_by_key) (hw, h)

insert-IsKeyed :
    (k : String) (v : Job) (d : Dict Job)
    → v.identity_key ≡ k
    → IsKeyed d
    → IsKeyed (insert_by_key k v d)
unfolding insert_by_key
insert-IsKeyed k v [] hv hd = (hv, tt)
insert-IsKeyed k v ((i, w) ∷ d) hv hd =
    placed-IsKeyed k i v w d (compare k i) refl hv hd.0 hd.1 (insert-IsKeyed k v d hv hd.1)

difference-IsKeyed :
    (current previous : Dict Job) → IsKeyed current → IsKeyed (difference current previous)
unfolding difference
difference-IsKeyed [] previous h = tt
difference-IsKeyed ((k, v) ∷ current) previous h =
    if_cases IsKeyed (is_missing (lookup k previous))
      (λ _.
        insert-IsKeyed k v (difference current previous) h.0
          (difference-IsKeyed current previous h.1))
      (λ _. difference-IsKeyed current previous h.1)

Keyed-values : (d : Dict Job) → IsKeyed d → by_identity (values d) ≡ d
unfolding by_identity values
Keyed-values [] h = refl
Keyed-values ((k, j) ∷ d) h = rw (h.0, Keyed-values d h.1) refl

-- A dictionary as a function.
abbrev pub view : Dict Job → String → Option Job
view d k = lookup k d

-- What a list of differences says.
pub difference-minus :
    (current previous : Dict Job)
    → IsKeyed current
    → view (by_identity (values (difference current previous)))
      ≡ minus (view current) (view previous)
difference-minus current previous h =
    rw (Keyed-values (difference current previous) (difference-IsKeyed current previous h))
      (fun_ext λ k. lookup-difference k current previous)

values-none : (d : Dict Job) (k : String) → length (values d) ≡ 0 → lookup k d ≡ none
unfolding values lookup
values-none [] k e = refl
values-none ((j, v) ∷ d) k e = absurd (omega (arith, e))

pub no_difference :
    (current previous : Dict Job)
    → length (values (difference current previous)) ≡ 0
    → minus (view current) (view previous) ≡ (λ k. none)
no_difference current previous e =
    fun_ext λ k.
      sym (lookup-difference k current previous) ∙ values-none (difference current previous) k e

minus_self : (o : Option Job) → (if is_missing o then o else none) ≡ none
unfolding is_missing
minus_self none = refl
minus_self (some j) = refl

-- A dictionary in which no key is found has no entries.
lookup-none : (d : Dict Job) → ((k : String) → lookup k d ≡ none) → d ≡ []
unfolding lookup
lookup-none [] h = refl
lookup-none ((j, v) ∷ d) h =
    let found : some v ≡ none = rw (eq_refl j) at (h j) in absurd (cc found)

-- Dictionaries that are the same function do not differ.
pub no_difference_of_view : (d e : Dict Job) → view d ≡ view e → difference d e ≡ []
no_difference_of_view d e same = lookup-none (difference d e) (λ k.
    lookup-difference k d e
    ∙ subst (λ (f : String → Option Job). minus (view d) f k ≡ none) same (minus_self (lookup k d)))
