-- ===== src/Outbound/Bodies.antt =====
-- The methods and bodies that `_request_with_validated_redirects` of backend/outbound_security.py
-- sends.
use opportunity_radar.Prelude.{
  ℕ, ◌≡◌, ◌⊎◌, inl, inr, refl, sym, ◌∙◌, Bool, true, false, not, ◌&&◌, none, ◌==◌, if◌then◌else◌,
  if_cases, Text, codes, text_eq, text_eq→eq, text_eq_self, All, Bool-cases,
}
use opportunity_radar.Outbound.Redirects.{
  Kwargs, Defaults, Reply, Net, Hop, becomes_get, next_method, without_credentials, without_body,
  redirect_kwargs, next_hop, sent_at, first_hop, request_with_validated_redirects,
}
use opportunity_radar.Outbound.Safety.{rounds-All}

-- No body among the arguments.
pub record NoBody (k : Kwargs) : Type 0 where
  pub no_form : k.form_data ≡ none
  pub no_json : k.json ≡ none
  pub no_files : k.files ≡ none
  pub no_content : k.content ≡ none

-- The caller's method, or a GET without a body.
abbrev pub PlainOr : Text → Text → Kwargs → Type 0
PlainOr method m k = (m ≡ method) ⊎ ((m ≡ codes "GET") × NoBody k)

next_method-cases :
    (m : Text) (status : ℕ) → (next_method m status ≡ m) ⊎ (next_method m status ≡ codes "GET")
unfolding next_method
next_method-cases m status =
    if_cases (λ r. (r ≡ m) ⊎ (r ≡ codes "GET")) ((status == 303) && not (text_eq m (codes "HEAD")))
      (λ _. inr refl)
      (λ _.
        if_cases (λ r. (r ≡ m) ⊎ (r ≡ codes "GET"))
          ((status == 302) && not (text_eq m (codes "HEAD"))) (λ _. inr refl)
          (λ _.
            if_cases (λ r. (r ≡ m) ⊎ (r ≡ codes "GET"))
              ((status == 301) && text_eq m (codes "POST")) (λ _. inr refl) (λ _. inl refl)))

without_body-NoBody : (k : Kwargs) → NoBody (without_body k)
unfolding without_body
without_body-NoBody k = record {
  no_form = refl;
  no_json = refl;
  no_files = refl;
  no_content = refl;
}

safe-NoBody :
    (cross : Bool) (k : Kwargs) → NoBody k → NoBody (if cross then without_credentials k else k)
unfolding without_credentials
safe-NoBody true k n = record {
  no_form = n.no_form;
  no_json = n.no_json;
  no_files = n.no_files;
  no_content = n.no_content;
}
safe-NoBody false k n = n

without_params-NoBody : (k : Kwargs) → NoBody k → NoBody (record k { params = none })
without_params-NoBody k n = record {
  no_form = n.no_form;
  no_json = n.no_json;
  no_files = n.no_files;
  no_content = n.no_content;
}

redirect-NoBody :
    (cross : Bool) (m next : Text) (k : Kwargs)
    → (becomes_get m next ≡ true) ⊎ NoBody k
    → NoBody (redirect_kwargs cross m next k)
unfolding redirect_kwargs
redirect-NoBody cross m next k (inr n) = without_params-NoBody _ (
    if_cases NoBody (becomes_get m next)
      (λ _. without_body-NoBody (if cross then without_credentials k else k))
      (λ _. safe-NoBody cross k n))
redirect-NoBody cross m next k (inl b) = without_params-NoBody _ (
    if_cases NoBody (becomes_get m next)
      (λ _. without_body-NoBody (if cross then without_credentials k else k)) (λ f. cc))

-- A method that becomes a GET.
turned-PlainOr :
    (cross : Bool) (method m next : Text) (k : Kwargs)
    → m ≡ method
    → next ≡ codes "GET"
    → PlainOr method next (redirect_kwargs cross m next k)
unfolding becomes_get
turned-PlainOr cross method m next k same get = elim (Bool-cases (text_eq m (codes "GET"))) [
  | inl h ↦ inl (get ∙ (sym (text_eq→eq m (codes "GET") h) ∙ same))
  | inr h ↦
      inr (get, redirect-NoBody cross m next k (inl (rw (get, h, text_eq_self (codes "GET")) refl)))
]

redirect-PlainOr :
    (cross : Bool) (method m : Text) (status : ℕ) (k : Kwargs)
    → PlainOr method m k
    → PlainOr method (next_method m status) (redirect_kwargs cross m (next_method m status) k)
redirect-PlainOr cross method m status k (inl same) = elim (next_method-cases m status) [
  | inl kept ↦ inl (kept ∙ same)
  | inr get ↦ turned-PlainOr cross method m (next_method m status) k same get
]
redirect-PlainOr cross method m status k (inr (get, n)) = elim (next_method-cases m status) [
  | inl kept ↦ inr (kept ∙ get, redirect-NoBody cross m (next_method m status) k (inr n))
  | inr get2 ↦ inr (get2, redirect-NoBody cross m (next_method m status) k (inr n))
]

next_hop-PlainOr :
    (net : Net) (method : Text) (h : Hop) (r : Reply)
    → PlainOr method h.method h.kwargs
    → PlainOr method (next_hop net h r).method (next_hop net h r).kwargs
unfolding next_hop
next_hop-PlainOr net method h r p = redirect-PlainOr _ method h.method r.status_code h.kwargs p

-- Wherever the redirects lead: each request has the caller's method, or it is a GET without a body
-- (no `data`, `json`, `files` or `content`).
pub request-PlainOr :
    (net : Net) (d : ℕ → Defaults) (follow : Bool) (max_redirects : ℕ) (method url : Text)
    (kwargs : Kwargs)
    → All
        (λ s. PlainOr method s.method s.kwargs)
        (request_with_validated_redirects net d follow max_redirects method url kwargs).0
unfolding request_with_validated_redirects first_hop
request-PlainOr net d follow max_redirects method url kwargs =
    rounds-All net d follow (λ h. PlainOr method h.method h.kwargs)
      (λ s. PlainOr method s.method s.kwargs) (next_hop-PlainOr net method)
      (λ h valid p. unfold sent_at in p) max_redirects (first_hop method url kwargs) (inl refl)
