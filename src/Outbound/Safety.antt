-- ===== src/Outbound/Safety.antt =====
-- What `_request_with_validated_redirects` of backend/outbound_security.py sends.
use mathlib.Core.Option
use opportunity_radar.Prelude.{
  ℕ, zero, suc, ◌≡◌, ◌⊎◌, inl, inr, refl, sym, ◌∙◌, Bool, true, false, not, ◌||◌, Option, none,
  some, [], ◌∷◌, if◌then◌else◌, if_cases, arith, Text, All, All-filter, Bool-cases,
}
use opportunity_radar.Outbound.{Origin, origin, origin_eq→eq}
use opportunity_radar.Outbound.Redirects.{
  Headers, Kwargs, Defaults, Sent, Reply, Net, Hop, is_secret, remove_headers, is_redirect,
  no_location, is_entity, becomes_get, hop_defaults, next_method, without_credentials, without_body,
  redirect_kwargs, crosses, next_hop, sent_at, Trace, and_before, after_reply, round, rounds,
  first_hop, request_with_validated_redirects,
}

-- An invariant of the loop's variables holds of all that is sent, if each hop keeps it.
module _ (net : Net) (d : ℕ → Defaults) (follow : Bool) (P : Hop → Type 0) (Q : Sent → Type 0)
    (kept : (h : Hop) (r : Reply) → P h → P (next_hop net h r))
    (shown : (h : Hop) → net.validate h.history false h.url ≡ true → P h → Q (sent_at d h)) where
  abbrev MoreAll : Option (Hop → Trace) → Type 0
  MoreAll none = Unit
  MoreAll (some f) = (next : Hop) → P next → All Q (f next).0

  after_reply-All :
      (h : Hop) (more : Option (Hop → Trace)) (o : Option Reply)
      → P h
      → MoreAll more
      → All Q (after_reply net d follow h more o).0
  unfolding after_reply
  after_reply-All h more none p ih = tt
  after_reply-All h none (some r) p ih =
      if_cases (λ (t : Trace). All Q t.0)
        (not follow || not (is_redirect r.status_code) || no_location r.location) (λ _. tt)
        (λ _. tt)
  after_reply-All h (some f) (some r) p ih =
      if_cases (λ (t : Trace). All Q t.0)
        (not follow || not (is_redirect r.status_code) || no_location r.location) (λ _. tt)
        (λ _.
          if_cases (λ (t : Trace). All Q t.0)
            (net.validate h.history true (net.urljoin h.url r.location))
            (λ _. ih (next_hop net h r) (kept h r p)) (λ _. tt))

  round-All :
      (h : Hop) (more : Option (Hop → Trace))
      → P h
      → MoreAll more
      → All Q (round net d follow more h).0
  unfolding round and_before
  round-All h more p ih =
      if_cases (λ (t : Trace). All Q t.0) (net.validate h.history false h.url)
        (λ valid. (shown h valid p, after_reply-All h more (net.sender (sent_at d h)) p ih))
        (λ _. tt)

  pub rounds-All : (left : ℕ) (h : Hop) → P h → All Q (rounds net d follow left h).0
  unfolding rounds
  rounds-All zero h p = round-All h none p tt
  rounds-All (suc left) h p =
      round-All h (some (λ next. rounds net d follow left next)) p
        (λ next q. rounds-All left next q)

-- Nothing of a header list is secret.
abbrev NoSecrets : Headers → Type 0
NoSecrets hs = All (λ h. is_secret h.0 ≡ false) hs

remove_headers-NoSecrets : (hs : Headers) → NoSecrets (remove_headers is_secret hs)
unfolding remove_headers
remove_headers-NoSecrets [] = tt
remove_headers-NoSecrets (h ∷ hs) =
    if_cases NoSecrets (not (is_secret h.0)) (λ e. (ground arith, remove_headers-NoSecrets hs))
      (λ _. remove_headers-NoSecrets hs)

remove_more-NoSecrets :
    (p : Text → Bool) (hs : Headers) → NoSecrets hs → NoSecrets (remove_headers p hs)
unfolding remove_headers
remove_more-NoSecrets p hs n = All-filter (λ h. is_secret h.0 ≡ false) (λ h. not (p h.0)) hs n

abbrev NoSecretsIn : Option Headers → Type 0
NoSecretsIn none = Unit
NoSecretsIn (some hs) = NoSecrets hs

-- Arguments without credentials, and a hop or a request without any.
pub record CleanKwargs (k : Kwargs) : Type 0 where
  pub no_auth : k.auth ≡ none
  pub no_cookies : k.cookies ≡ none
  pub no_secrets : NoSecretsIn k.headers

record CleanHop (h : Hop) : Type 0 where
  clean_kwargs : CleanKwargs h.kwargs
  suppressed : h.session_credentials_allowed ≡ false

pub record CleanSent (s : Sent) : Type 0 where
  pub clean_kwargs : CleanKwargs s.kwargs
  pub no_session_auth : s.defaults.auth ≡ none
  pub no_session_cookies : s.defaults.cookies ≡ none
  pub no_session_secrets : NoSecrets s.defaults.headers

removed-NoSecretsIn : (o : Option Headers) → NoSecretsIn (Option.map (remove_headers is_secret) o)
removed-NoSecretsIn none = tt
removed-NoSecretsIn (some hs) = remove_headers-NoSecrets hs

removed_more-NoSecretsIn :
    (p : Text → Bool) (o : Option Headers)
    → NoSecretsIn o
    → NoSecretsIn (Option.map (remove_headers p) o)
removed_more-NoSecretsIn p none n = tt
removed_more-NoSecretsIn p (some hs) n = remove_more-NoSecrets p hs n

without_credentials-CleanKwargs : (k : Kwargs) → CleanKwargs (without_credentials k)
unfolding without_credentials
without_credentials-CleanKwargs k = record {
  no_auth = refl;
  no_cookies = refl;
  no_secrets = removed-NoSecretsIn k.headers;
}

without_body-CleanKwargs : (k : Kwargs) → CleanKwargs k → CleanKwargs (without_body k)
unfolding without_body
without_body-CleanKwargs k c = record {
  no_auth = c.no_auth;
  no_cookies = c.no_cookies;
  no_secrets = removed_more-NoSecretsIn is_entity k.headers c.no_secrets;
}

without_params-CleanKwargs : (k : Kwargs) → CleanKwargs k → CleanKwargs (record k { params = none })
without_params-CleanKwargs k c = record {
  no_auth = c.no_auth;
  no_cookies = c.no_cookies;
  no_secrets = c.no_secrets;
}

keeps_clean :
    (cross : Bool) (k : Kwargs) → (cross ≡ true) ⊎ CleanKwargs k → cross ≡ false → CleanKwargs k
keeps_clean cross k (inl h) e = cc
keeps_clean cross k (inr c) e = c

redirect-CleanKwargs :
    (cross : Bool) (method next : Text) (k : Kwargs)
    → (cross ≡ true) ⊎ CleanKwargs k
    → CleanKwargs (redirect_kwargs cross method next k)
unfolding redirect_kwargs
redirect-CleanKwargs cross method next k h =
    let safe = if cross then without_credentials k else k in
    let clean : CleanKwargs safe =
      if_cases CleanKwargs cross (λ _. without_credentials-CleanKwargs k) (keeps_clean cross k h) in
    without_params-CleanKwargs _ (
      if_cases CleanKwargs (becomes_get method next) (λ _. without_body-CleanKwargs safe clean)
        (λ _. clean))

sent_at-CleanSent : (d : ℕ → Defaults) (h : Hop) → CleanHop h → CleanSent (sent_at d h)
unfolding sent_at hop_defaults
sent_at-CleanSent d h c = record {
  clean_kwargs = c.clean_kwargs;
  no_session_auth = rw c.suppressed refl;
  no_session_cookies = rw c.suppressed refl;
  no_session_secrets = rw c.suppressed (remove_headers-NoSecrets (d h.history).headers);
}

-- The hops of the first origin, and those without credentials.
abbrev pub hop_origin : Net → Text → Origin
hop_origin net url = origin (net.urlsplit url)

abbrev HomeOrClean : Net → Text → Hop → Type 0
HomeOrClean net first h = (hop_origin net h.url ≡ hop_origin net first) ⊎ CleanHop h

crosses-false :
    (net : Net) (a b : Text) → crosses net a b ≡ false → hop_origin net b ≡ hop_origin net a
unfolding crosses
crosses-false net a b h = sym (origin_eq→eq (hop_origin net a) (hop_origin net b) (ground arith))

crossed-CleanHop :
    (net : Net) (h : Hop) (r : Reply)
    → (crosses net h.url (net.urljoin h.url r.location) ≡ true) ⊎ CleanHop h
    → CleanHop (next_hop net h r)
unfolding next_hop
crossed-CleanHop net h r (inl c) = record {
  clean_kwargs =
      redirect-CleanKwargs _ h.method (next_method h.method r.status_code) h.kwargs (inl c);
  suppressed = ground (arith, c);
}
crossed-CleanHop net h r (inr c) = record {
  clean_kwargs =
      redirect-CleanKwargs _ h.method (next_method h.method r.status_code) h.kwargs
        (inr c.clean_kwargs);
  suppressed = ground (arith, c.suppressed);
}

next_hop-HomeOrClean :
    (net : Net) (first : Text) (h : Hop) (r : Reply)
    → HomeOrClean net first h
    → HomeOrClean net first (next_hop net h r)
unfolding next_hop
next_hop-HomeOrClean net first h r (inr c) = inr (crossed-CleanHop net h r (inr c))
next_hop-HomeOrClean net first h r (inl home) =
    elim (Bool-cases (crosses net h.url (net.urljoin h.url r.location))) [
      | inl c ↦ inr (crossed-CleanHop net h r (inl c))
      | inr c ↦ inl (crosses-false net h.url (net.urljoin h.url r.location) c ∙ home)
    ]

sent-HomeOrClean :
    (net : Net) (d : ℕ → Defaults) (first : Text) (h : Hop)
    → HomeOrClean net first h
    → (hop_origin net (sent_at d h).url ≡ hop_origin net first) ⊎ CleanSent (sent_at d h)
unfolding sent_at
sent-HomeOrClean net d first h (inl home) = inl home
sent-HomeOrClean net d first h (inr c) = inr (sent_at-CleanSent d h c)

-- Wherever the redirects lead: a request is to the origin of the caller's URL, or it has no
-- credentials, neither the caller's nor the session's: no `auth`, no cookies, and no header that
-- is named Authorization, Proxy-Authorization, Cookie, X-Api-Key or Api-Key in any case.
pub request-HomeOrClean :
    (net : Net) (d : ℕ → Defaults) (follow : Bool) (max_redirects : ℕ) (method url : Text)
    (kwargs : Kwargs)
    → All
        (λ s. (hop_origin net s.url ≡ hop_origin net url) ⊎ CleanSent s)
        (request_with_validated_redirects net d follow max_redirects method url kwargs).0
unfolding request_with_validated_redirects first_hop
request-HomeOrClean net d follow max_redirects method url kwargs =
    rounds-All net d follow (HomeOrClean net url)
      (λ s. (hop_origin net s.url ≡ hop_origin net url) ⊎ CleanSent s)
      (next_hop-HomeOrClean net url) (λ h valid p. sent-HomeOrClean net d url h p) max_redirects
      (first_hop method url kwargs) (inl refl)

-- A URL is sent only right after `validate_outbound_url` passed it.
pub request-All-validated :
    (net : Net) (d : ℕ → Defaults) (follow : Bool) (max_redirects : ℕ) (method url : Text)
    (kwargs : Kwargs)
    → All
        (λ s. net.validate s.hop false s.url ≡ true)
        (request_with_validated_redirects net d follow max_redirects method url kwargs).0
unfolding request_with_validated_redirects
request-All-validated net d follow max_redirects method url kwargs =
    rounds-All net d follow (λ h. Unit) (λ s. net.validate s.hop false s.url ≡ true) (λ h r p. tt)
      (λ h valid p. unfold sent_at in valid) max_redirects (first_hop method url kwargs) tt
