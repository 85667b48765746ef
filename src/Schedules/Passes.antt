-- ===== src/Schedules/Passes.antt =====
-- What a pass of backend/maintenance_scheduler.py over a schedule does not change.
use opportunity_radar.Prelude.{
  subst, sym, ◌≡◌, inl, inr, refl, ◌∙◌, String, Bool, true, false, not, Option, none, some, List,
  [], ◌∷◌, str_eq, eq_iff, if_cases, arith, Bool-cases,
}
use opportunity_radar.Schedules.{
  Schedule, Claim, can_claim, claimed, update_where, can_release, released, release_occurrence,
  claim_occurrence, StartResult, run_started, runtime_error, other_error, started_unread, give_back,
  raised, raised_running, Definition, Moment, claim_of, is_due, Served, launch, attempted, serve,
}
use opportunity_radar.Schedules.Claims.{can_claim-key, taken-count, with_key, IsTaken}

-- A change of rows that keeps their keys.
module _ (key : String) (test : Schedule → Bool) (change : Schedule → Schedule)
    (keeps : (r : Schedule) → (change r).job_key ≡ r.job_key) where
  pub with_key-update_where :
      (rows : List Schedule) → with_key key (update_where test change rows) ≡ with_key key rows
  unfolding update_where
  with_key-update_where [] = refl
  with_key-update_where (r ∷ rows) = elim (Bool-cases (test r)) [
    | inl h ↦ rw (h, update_where, keeps r, with_key-update_where rows) refl
    | inr h ↦ rw (h, update_where, with_key-update_where rows) refl
  ]

  -- It keeps a date taken, if it gives the job's rows that date or leaves them alone.
  IsTaken-update_where :
      (date : String) (rows : List Schedule)
      → ((r : Schedule)
          → test r ≡ true
          → str_eq r.job_key key ≡ true
          → (change r).last_scheduled_date ≡ date)
      → IsTaken key date rows
      → IsTaken key date (update_where test change rows)
  unfolding update_where
  IsTaken-update_where date [] gives h = tt
  IsTaken-update_where date (r ∷ rows) gives h = (
    if_cases (λ (x : Schedule). str_eq x.job_key key ≡ true → x.last_scheduled_date ≡ date) (test r)
        (λ e k. gives r e (rw (keeps r) at k)) (λ _. h.0),
    IsTaken-update_where date rows gives h.1,
  )

can_release-key :
    (c : Claim) (r : Schedule) → can_release c r ≡ true → str_eq r.job_key c.job_key ≡ true
unfolding can_release
can_release-key c r h = ground (arith, h)

same_key : (a b c : String) → str_eq a b ≡ true → str_eq a c ≡ true → str_eq b c ≡ true
same_key a b c h k = ground (arith, h, k, eq_iff a b, eq_iff a c, eq_iff b c)

module _ (key date : String) (m : Moment) (s : Schedule) where
  claim-IsTaken :
      (rows : List Schedule)
      → (str_eq s.job_key key ≡ true → m.date ≡ date)
      → IsTaken key date rows
      → IsTaken key date (claim_occurrence (claim_of m s) rows).1
  unfolding claim_occurrence
  claim-IsTaken rows day h =
      IsTaken-update_where key (can_claim (claim_of m s)) (claimed (claim_of m s))
        (λ r. unfold claimed in refl) date rows
        (λ r e k.
          unfold claimed claim_of in
          day (same_key r.job_key s.job_key key (can_claim-key (claim_of m s) r e) k))
        h

  release-IsTaken :
      (rows : List Schedule)
      → str_eq s.job_key key ≡ false
      → IsTaken key date rows
      → IsTaken key date (release_occurrence (claim_of m s) m.stamp rows)
  unfolding release_occurrence
  release-IsTaken rows other h =
      IsTaken-update_where key (can_release (claim_of m s)) (released (claim_of m s) m.stamp)
        (λ r. unfold released in refl) date rows
        (λ r e k.
          unfold claim_of in
          absurd
            (cc (same_key r.job_key s.job_key key (can_release-key (claim_of m s) r e) k, other)))
        h

taken-claim :
    (m : Moment) (s : Schedule) (rows : List Schedule)
    → IsTaken s.job_key m.date rows
    → (claim_occurrence (claim_of m s) rows).0 ≡ false
unfolding claim_occurrence
taken-claim m s rows h =
    let free : IsTaken (claim_of m s).job_key (claim_of m s).local_date rows =
      unfold claim_of in h in
    rw (taken-count (claim_of m s) rows free) refl

-- What holds of the rows with and without the release holds of them after a launch.
give_back-either :
    (P : List Schedule → Type 0) (releases : Bool) (c : Claim) (stamp : String)
    (after failing : Served) (rows : List Schedule)
    → P rows
    → P (release_occurrence c stamp rows)
    → P (give_back releases c stamp after failing rows).1
unfolding give_back
give_back-either P true c stamp after failing rows h k = k
give_back-either P false c stamp after failing rows h k = h

launch-either :
    (P : List Schedule → Type 0) (enabled : Bool) (d : StartResult) (records releases : Bool)
    (c : Claim) (stamp : String) (rows : List Schedule)
    → P rows
    → P (release_occurrence c stamp rows)
    → P
        (launch
          record { enabled = enabled; start = d; records = records; releases = releases }
          c
          stamp
          rows).1
unfolding launch
launch-either P false d records releases c stamp rows h k = h
launch-either P true run_started records releases c stamp rows h k = h
launch-either P true runtime_error records releases c stamp rows h k =
    give_back-either P releases c stamp _ raised rows h k
launch-either P true other_error records releases c stamp rows h k =
    give_back-either P releases c stamp raised raised rows h k
launch-either P true started_unread records releases c stamp rows h k =
    give_back-either P releases c stamp raised_running raised_running rows h k

module _ (key date : String) (m : Moment) (s : Schedule) where
  attempted-IsTaken :
      (d : Definition) (rows : List Schedule)
      → (str_eq s.job_key key ≡ true → m.date ≡ date)
      → IsTaken key date rows
      → IsTaken key date (attempted d m s rows).1
  unfolding attempted
  attempted-IsTaken d rows day h =
      let after = claim-IsTaken key date m s rows day h in
      if_cases (λ (r : Served × List Schedule). IsTaken key date r.1)
        (claim_occurrence (claim_of m s) rows).0
        (λ won.
          launch-either (IsTaken key date) d.enabled d.start d.records d.releases (claim_of m s)
            m.stamp _ after
            (elim (Bool-cases (str_eq s.job_key key)) [
              | inl same ↦
                  let free = taken-claim m s rows (
                    subst (λ k. IsTaken k m.date rows) (sym ((eq_iff s.job_key key).0 same))
                      (subst (λ (d : String). IsTaken key d rows) (sym (day same)) h)) in
                  absurd (cc (won, free))
              | inr other ↦ release-IsTaken key date m s _ other after
            ]))
        (λ _. after)

  pub serve-keeps :
      (job : Option Definition) (rows : List Schedule)
      → (str_eq s.job_key key ≡ true → m.date ≡ date)
      → IsTaken key date rows
      → IsTaken key date (serve job m s rows).1
  unfolding serve
  serve-keeps none rows day h = h
  serve-keeps (some d) rows day h =
      if_cases (λ (r : Served × List Schedule). IsTaken key date r.1) (not (is_due m s)) (λ _. h)
        (λ _. attempted-IsTaken d rows day h)

  -- The number of rows with a key stays.
  attempted-with_key :
      (d : Definition) (rows : List Schedule)
      → with_key key (attempted d m s rows).1 ≡ with_key key rows
  unfolding attempted claim_occurrence release_occurrence
  attempted-with_key d rows =
      let won =
        with_key-update_where key (can_claim (claim_of m s)) (claimed (claim_of m s))
          (λ r. unfold claimed in refl) in
      let back =
        with_key-update_where key (can_release (claim_of m s)) (released (claim_of m s) m.stamp)
          (λ r. unfold released in refl) in
      if_cases (λ (r : Served × List Schedule). with_key key r.1 ≡ with_key key rows)
        (claim_occurrence (claim_of m s) rows).0
        (λ _.
          launch-either (λ (r : List Schedule). with_key key r ≡ with_key key rows) d.enabled
            d.start d.records d.releases (claim_of m s) m.stamp _ (won rows) (back _ ∙ won rows))
        (λ _. won rows)

  pub serve-with_key :
      (job : Option Definition) (rows : List Schedule)
      → with_key key (serve job m s rows).1 ≡ with_key key rows
  unfolding serve
  serve-with_key none rows = refl
  serve-with_key (some d) rows =
      if_cases (λ (r : Served × List Schedule). with_key key r.1 ≡ with_key key rows)
        (not (is_due m s)) (λ _. refl) (λ _. attempted-with_key d rows)
