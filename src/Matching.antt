-- ===== src/Matching.antt =====
-- backend/resume_matching.py: the score of a job against the resume. Texts are over ASCII, and the
-- score is computed with exact fractions in place of floats.
pub mod Score
pub mod Service
pub mod Stale
pub mod Unique
pub mod Batch
pub mod Context
pub mod Rematch
pub mod Progress
mod Tests
use opportunity_radar.Prelude.{
  ℕ, ◌+◌, ◌*◌, ◌≤◌, Bool, true, false, not, Option, none, some, ◌&&◌, ◌||◌, List, [], ◌∷◌, ◌++◌,
  map, filter, take, any, length, leb, ltb, min, max, ◌==◌, if◌then◌else◌, Text, codes, text_eq,
  contains, split, join, is_space, round_to,
}

unfoldable pub tracked_keywords : List Text
tracked_keywords =
    codes "active directory"
    ∷ codes "automation"
    ∷ codes "azure"
    ∷ codes "banking"
    ∷ codes "cloud"
    ∷ codes "compliance"
    ∷ codes "credit union"
    ∷ codes "cybersecurity"
    ∷ codes "database"
    ∷ codes "excel"
    ∷ codes "financial services"
    ∷ codes "fiserv"
    ∷ codes "help desk"
    ∷ codes "infrastructure"
    ∷ codes "jack henry"
    ∷ codes "kubernetes"
    ∷ codes "leadership"
    ∷ codes "linux"
    ∷ codes "microsoft 365"
    ∷ codes "networking"
    ∷ codes "operations"
    ∷ codes "powershell"
    ∷ codes "project management"
    ∷ codes "risk"
    ∷ codes "security"
    ∷ codes "sql"
    ∷ codes "symitar"
    ∷ codes "terraform"
    ∷ codes "vendor management"
    ∷ codes "virtualization"
    ∷ codes "windows server"
    ∷ []

unfoldable pub stop_words : List Text
stop_words =
    codes "about"
    ∷ codes "ability"
    ∷ codes "company"
    ∷ codes "experience"
    ∷ codes "including"
    ∷ codes "position"
    ∷ codes "preferred"
    ∷ codes "required"
    ∷ codes "requirements"
    ∷ codes "responsibilities"
    ∷ codes "skills"
    ∷ codes "strong"
    ∷ codes "their"
    ∷ codes "there"
    ∷ codes "these"
    ∷ codes "those"
    ∷ codes "through"
    ∷ codes "using"
    ∷ codes "with"
    ∷ codes "years"
    ∷ codes "your"
    ∷ []

unfoldable pub folded : ℕ → ℕ
folded c = if leb b'A' c && leb c b'Z' then c + 32 else c

-- [a-z0-9+.#\s-]
unfoldable pub is_kept : ℕ → Bool
is_kept c =
    (leb b'a' c && leb c b'z')
    || (leb b'0' c && leb c b'9')
    || (c == b'+')
    || (c == b'.')
    || (c == b'#')
    || (c == b'-')
    || is_space c

-- `normalize`: what is not kept becomes a space, and runs of spaces become one.
unfoldable pub normalize : Text → Text
unfolding folded is_kept
normalize value = join 32 (split (map (λ c. if is_kept (folded c) then folded c else 32) value))

-- list(dict.fromkeys(words)): each where it stands first.
unfoldable pub is_in : Text → List Text → Bool
is_in word words = any (text_eq word) words

unfoldable pub unique_after : (seen words : List Text) → List Text
unfolding is_in
unique_after seen [] = []
unique_after seen (w ∷ words) =
    let fresh = unique_after (w ∷ seen) words in
    let again = unique_after seen words in if is_in w seen then again else w ∷ fresh

unfoldable pub unique : List Text → List Text
unfolding unique_after
unique words = unique_after [] words

unfoldable pub is_meaningful : Text → Bool
unfolding is_in stop_words
is_meaningful word = ltb 4 (length word) && not (is_in word stop_words)

-- `meaningful_words`
unfoldable pub meaningful_words : Text → List Text
unfolding unique is_meaningful
meaningful_words text = unique (filter is_meaningful (split text))

-- `extract_keywords`
unfoldable pub extract_keywords : Text → List Text
unfolding tracked_keywords unique meaningful_words
extract_keywords text =
    unique (filter (contains text) tracked_keywords ++ take 30 (meaningful_words text))

-- A job, as far as it is matched. Its texts are as `str` gives them.
pub record Posting : Type 0 where
  pub title : Text
  pub description : Text
  pub work_type_folded : Text

-- What `re.search` finds of years of experience is an argument.
unfoldable pub experience_score : Bool → ℕ
experience_score has_years = if has_years then 10 else 0

unfoldable pub location_score : Posting → (resume : Text) → ℕ
location_score job resume =
    if text_eq job.work_type_folded (codes "remote") || contains resume (codes "remote")
    then 5
    else 2

-- The four parts over the common denominator `terms * words`, where none of an empty list counts.
unfoldable pub weighted : (matched keywords found terms : ℕ) → (rest : ℕ) → ℕ
weighted matched keywords found terms rest =
    60 * (matched * max 1 terms)
    + 25 * (found * max 1 keywords)
    + rest * (max 1 keywords * max 1 terms)

unfoldable pub rounded : (matched keywords found terms : ℕ) → (rest : ℕ) → ℕ
unfolding weighted
rounded matched keywords found terms rest =
    round_to (max 1 keywords * max 1 terms) (weighted matched keywords found terms rest)

unfoldable pub job_keywords : Posting → List Text
unfolding normalize extract_keywords
job_keywords job = extract_keywords (normalize (job.title ++ codes " " ++ job.description))

unfoldable pub title_terms : Posting → List Text
unfolding normalize meaningful_words
title_terms job = meaningful_words (normalize job.title)

-- The score before the cap.
unfoldable pub raw_score : (has_years : Bool) → (resume : Text) → Posting → ℕ
unfolding rounded experience_score location_score job_keywords title_terms
raw_score has_years resume job =
    rounded (length (filter (contains resume) (job_keywords job))) (length (job_keywords job))
      (length (filter (contains resume) (title_terms job))) (length (title_terms job))
      (experience_score has_years + location_score job resume)

-- `calculate_match`, its score
unfoldable pub calculate_match : (has_years : Bool) → (resume : Text) → Posting → ℕ
unfolding raw_score
calculate_match has_years resume job = min 100 (raw_score has_years resume job)

-- `match_label`
pub data Label : Type 0 where
  unlabelled strong good moderate low : Label

unfoldable pub match_label : Option ℕ → Label
match_label none = unlabelled
match_label (some score) =
    if leb 80 score
    then strong
    else if leb 60 score
    then good
    else if leb 40 score
    then moderate
    else low
