-- ===== src/Matching/Context.antt =====
-- `_context` of backend/resume_matching.py: the resume that jobs are matched against.
use opportunity_radar.Prelude.{
  Bool, ◌||◌, Option, none, some, if◌then◌else◌, Text, codes, contains, starts_with, strip,
}
use opportunity_radar.Matching.{normalize}
use opportunity_radar.Matching.Service.{MatchContext, is_blank}

-- A stored resume: its fields as text, where what is absent is blank.
pub record Resume : Type 0 where
  pub notes_folded : Text
  pub experience_folded : Text
  pub extracted_text : Text
  pub raw_text : Text
  pub version : Text
  pub id : Text

pub data Context : Type 0 where
  no_resume unreadable : Context
  usable : MatchContext → Context

unfoldable pub first_text : Text → Text → Text
first_text a b = if is_blank a then b else a

unfoldable pub is_legacy : Resume → Bool
is_legacy resume =
    contains resume.notes_folded (codes "parsing is stubbed")
    || starts_with resume.experience_folded (codes "todo: parse")

-- What `re.search` finds of years of experience in the normalized text is an argument.
unfoldable pub resume_context : (has_years : Text → Bool) → Option Resume → Context
unfolding first_text is_legacy normalize
resume_context has_years none = no_resume
resume_context has_years (some resume) =
    let text = strip (first_text resume.extracted_text resume.raw_text) in
    if is_legacy resume
    then unreadable
    else if is_blank text
    then unreadable
    else usable record {
      version = first_text resume.version resume.id;
      normalized_text = normalize text;
      has_years = has_years (normalize text);
    }
