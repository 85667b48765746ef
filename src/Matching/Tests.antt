-- ===== src/Matching/Tests.antt =====
-- The score and the batch of backend/resume_matching.py at a concrete resume and jobs.
use opportunity_radar.Prelude.{
  ◌≤◌, ◌≡◌, ◌==◌, refl, String, true, false, some, List, [], ◌∷◌, length, filter, Text, codes,
  contains, starts_with, strip, join, split, text_eq, put, lookup, str_eq,
}
use opportunity_radar.Matching.{Posting, calculate_match, raw_score}
use opportunity_radar.Matching.Score.{score_range}
use opportunity_radar.Matching.Service.{
  StoredJob, Repository, MatchContext, Writes, matched, status_of, unique_ids, match_jobs_if_needed,
}
use opportunity_radar.Matching.Rematch.{Listed, is_eligible, Rematched, rematched, rematch_all}
use opportunity_radar.Matching.Progress.{IsProgress, rematch-IsProgress}
use opportunity_radar.Matching.Context.{unreadable, usable, resume_context}
use opportunity_radar.Matching.Batch.{batch_isolated, total}

abbrev resume : Text
resume = codes "azure and linux systems"

abbrev posting : Posting
posting = record {
  title = codes "Linux Engineer";
  description = codes "Azure";
  work_type_folded = codes "remote";
}

-- Two of three keywords and one of two words of the title, and 5 for the place.
scores : calculate_match false resume posting ≡ 58
unfolding calculate_match contains join split text_eq
scores = refl

score_range_example :
    (2 ≤ calculate_match false resume posting)
    × (calculate_match false resume posting ≤ 100)
    × (calculate_match false resume posting ≡ raw_score false resume posting)
score_range_example = score_range false resume posting

-- The database takes the match of "b" and not that of "a", and "b" is listed twice.
abbrev context : MatchContext
context = record { version = codes "v1"; normalized_text = resume; has_years = false }

abbrev writes : Writes
writes = record { matches = λ job_id. str_eq job_id "b"; failures = λ job_id. true }

abbrev job : StoredJob
job = record { posting = posting; fingerprint = codes "f1" }

abbrev stored : Repository
stored = record { jobs = put "a" job (put "b" job []); fits = [] }

abbrev listed : List String
listed = "a" ∷ "b" ∷ "b" ∷ []

one_fails :
    (match_jobs_if_needed (some context) writes listed stored).0
    ≡ record { matched = 1; failed = 1; skipped = 0 }
unfolding match_jobs_if_needed put lookup
one_fails = refl

batch_isolated_example :
    (status_of context "b" job (match_jobs_if_needed (some context) writes listed stored).1
      ≡ matched)
    × (total (match_jobs_if_needed (some context) writes listed stored).0
        ≡ length (unique_ids [] listed))
unfolding put lookup
batch_isolated_example = batch_isolated context writes listed "b" job stored refl refl refl refl

-- Two open jobs and a closed one; the event is set when the second one's turn comes.
abbrev rows : List Listed
rows =
    record { id = "a"; status_folded = codes "open"; source_url = codes "https://a"; stored = job }
    ∷ record {
      id = "c";
      status_folded = codes "closed";
      source_url = codes "https://c";
      stored = job;
    }
    ∷ record {
      id = "b";
      status_folded = codes "open";
      source_url = codes "https://b";
      stored = job;
    }
    ∷ []

rematch-IsProgress_example :
    (result : Rematched) × (rematch_all
        (usable context)
        writes
        (λ n. n == 2)
        (λ n. false)
        rows
        stored
      ≡ rematched result)
    × IsProgress writes
        (λ n. n == 2)
        (λ n. false)
        (length (filter is_eligible rows))
        []
        (filter is_eligible rows)
        result.ending
        result.reports
rematch-IsProgress_example =
    rematch-IsProgress context writes (λ n. n == 2) (λ n. false) rows stored

-- A resume whose text is spaces only is not read.
blank_text :
    resume_context
      (λ text. false)
      (some record {
        notes_folded = [];
        experience_folded = [];
        extracted_text = [];
        raw_text = codes "  ";
        version = codes "v1";
        id = [];
      })
    ≡ unreadable
unfolding resume_context contains starts_with strip
blank_text = refl
