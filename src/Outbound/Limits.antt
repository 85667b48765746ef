-- ===== src/Outbound/Limits.antt =====
-- How many requests `_request_with_validated_redirects` of backend/outbound_security.py sends,
-- and what it returns.
use opportunity_radar.Prelude.{
  ℕ, zero, suc, ◌+◌, ◌≤◌, ◌≡◌, subst, true, false, not, ◌&&◌, ◌||◌, Option, none, some, if_cases,
  arith, Text, length,
}
use opportunity_radar.Outbound.Redirects.{
  Kwargs, Defaults, Sent, Reply, Net, Outcome, returned, Hop, is_redirect, no_location, next_hop,
  sent_at, Trace, and_before, after_reply, round, rounds, first_hop,
  request_with_validated_redirects,
}

-- A final answer is no redirect that has a location.
abbrev pub Final : Outcome → Type 0
Final (returned r) = (is_redirect r.status_code && not (no_location r.location)) ≡ false
Final o = Unit

-- A trace of at most `n` requests, with a final answer.
abbrev pub Within : ℕ → Trace → Type 0
Within n t = (length t.0 ≤ n) × Final t.1

module _ (net : Net) (d : ℕ → Defaults) where
  abbrev MoreWithin : ℕ → Option (Hop → Trace) → Type 0
  MoreWithin n none = Unit
  MoreWithin n (some f) = (next : Hop) → Within n (f next)

  Final-lem :
      (r : Reply)
      → (not true || not (is_redirect r.status_code) || no_location r.location) ≡ true
      → Final (returned r)
  Final-lem r h = ground arith

  after_reply-Within :
      (n : ℕ) (h : Hop) (more : Option (Hop → Trace)) (o : Option Reply)
      → MoreWithin n more
      → Within n (after_reply net d true h more o)
  unfolding after_reply
  after_reply-Within n h more none ih = (omega arith, tt)
  after_reply-Within n h none (some r) ih =
      if_cases (Within n) (not true || not (is_redirect r.status_code) || no_location r.location)
        (λ e. (omega arith, Final-lem r e)) (λ _. (omega arith, tt))
  after_reply-Within n h (some f) (some r) ih =
      if_cases (Within n) (not true || not (is_redirect r.status_code) || no_location r.location)
        (λ e. (omega arith, Final-lem r e))
        (λ _.
          if_cases (Within n) (net.validate h.history true (net.urljoin h.url r.location))
            (λ _. ih (next_hop net h r)) (λ _. (omega arith, tt)))

  and_before-Within : (n : ℕ) (s : Sent) (t : Trace) → Within n t → Within (n + 1) (and_before s t)
  unfolding and_before
  and_before-Within n s t (le, final) = (omega (arith, le), final)

  round-Within :
      (n : ℕ) (h : Hop) (more : Option (Hop → Trace))
      → MoreWithin n more
      → Within (n + 1) (round net d true more h)
  unfolding round
  round-Within n h more ih =
      if_cases (Within (n + 1)) (net.validate h.history false h.url)
        (λ _.
          and_before-Within n (sent_at d h) _
            (after_reply-Within n h more (net.sender (sent_at d h)) ih))
        (λ _. (omega arith, tt))

  rounds-Within : (left : ℕ) (h : Hop) → Within (left + 1) (rounds net d true left h)
  unfolding rounds
  rounds-Within zero h = round-Within 0 h none tt
  rounds-Within (suc left) h =
      let ih : (next : Hop) → Within (suc left) (rounds net d true left next) = λ next.
        subst (λ n. Within n (rounds net d true left next)) (omega arith)
          (rounds-Within left next) in
      round-Within (suc left) h (some (λ next. rounds net d true left next)) ih

-- A call that follows redirects sends at most one request more than the limit, whatever the servers
-- answer; and an answer that it returns is not a redirect with a location.
pub request-Within :
    (net : Net) (d : ℕ → Defaults) (max_redirects : ℕ) (method url : Text) (kwargs : Kwargs)
    → Within
        (max_redirects + 1)
        (request_with_validated_redirects net d true max_redirects method url kwargs)
unfolding request_with_validated_redirects
request-Within net d max_redirects method url kwargs =
    rounds-Within net d max_redirects (first_hop method url kwargs)
