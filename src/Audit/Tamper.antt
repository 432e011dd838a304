-- ===== src/Audit/Tamper.antt =====
-- What a change to the JSONL audit log cannot hide: crates/audit-log/src/lib.rs.
use connor_agent_core.Common.{
  ℕ, suc, String, true, ◌≡◌, refl, ap, ◌∙◌, Option, none, some, List, [], ◌∷◌, map, eq_iff,
  Bool-cases, inl, inr, if◌then◌else◌,
}
use connor_agent_core.Audit.{AuditEvent, AuditResult, ok, err}
use connor_agent_core.Audit.Integrity.{
  AuditCodec, AuditIntegrityEnvelope, AuditIntegrityIssue, AuditLine, envelope_line, legacy_line,
  unreadable, current_audit_integrity_schema_version, unless, AuditFile, compute_hash,
  compute_chain_hash, new_envelope, verify_envelope, verify_lines, verify_line, verify, is_empty,
  lines_of, list_lines, list_line, list, with_event,
}
use connor_agent_core.Audit.Chain.{chain, same_option-≡, unless-nil, append-nil-both}

is_empty-nil : (is : List AuditIntegrityIssue) → is_empty is ≡ true → is ≡ []
is_empty-nil [] e = refl
is_empty-nil (i ∷ is) e = cc

abbrev events_or_none : AuditResult (List AuditEvent) → List AuditEvent
events_or_none (ok es) = es
events_or_none (err reason) = []

cons_eq :
    {x y : AuditIntegrityEnvelope} {xs ys : List AuditIntegrityEnvelope}
    → x ≡ y
    → xs ≡ ys
    → ◌≡◌ {A = List AuditIntegrityEnvelope} (x ∷ xs) (y ∷ ys)
cons_eq e f = cc

ok-injective :
    {es fs : List AuditEvent} → ◌≡◌ {A = AuditResult (List AuditEvent)} (ok es) (ok fs) → es ≡ fs
ok-injective e = ap events_or_none e

with_event-ok :
    (e : AuditEvent) (r : AuditResult (List AuditEvent)) (es : List AuditEvent)
    → with_event e r ≡ ok es
    → (fs : List AuditEvent) × (r ≡ ok fs) × (e ∷ fs ≡ es)
with_event-ok e (ok fs) es h = (fs, refl, ok-injective h)
with_event-ok e (err reason) es h = cc

-- the envelope, its schema version aside, which nothing checks
abbrev pub as_current : AuditIntegrityEnvelope → AuditIntegrityEnvelope
as_current e = record e { schema_version = current_audit_integrity_schema_version }

module _ (C : AuditCodec) where
  open C use {Line, parse, is_blank}

  abbrev pub envelope_in : AuditLine → List AuditIntegrityEnvelope → List AuditIntegrityEnvelope
  envelope_in (envelope_line e) rest = e ∷ rest
  envelope_in (legacy_line event) rest = rest
  envelope_in (unreadable reason) rest = rest

  -- the envelopes in a file
  abbrev pub envelopes : List Line → List AuditIntegrityEnvelope
  envelopes [] = []
  envelopes (l ∷ ls) =
      let rest = envelopes ls in if is_blank l then rest else envelope_in (parse l) rest

  verify_envelope-nil :
      (p : Option String) (e : AuditIntegrityEnvelope)
      → verify_envelope C p e ≡ []
      → as_current e ≡ new_envelope C e.event p
  verify_envelope-nil p e h =
      let (own, linked) = append-nil-both (unless _ _) _ h in
      let (previous, chained) = append-nil-both (unless _ _) (unless _ _) linked in
      let a = (eq_iff e.event_hash (compute_hash C e.event)).0 (unless-nil _ _ own) in
      let b = same_option-≡ e.previous_event_hash p (unless-nil _ _ previous) in
      let c =
        (eq_iff e.chain_hash (compute_chain_hash C e.previous_event_hash e.event_hash)).0
          (unless-nil _ _ chained) in
      let d : e.chain_hash ≡ compute_chain_hash C p (compute_hash C e.event) = cc in cc

  verify_line-chain :
      (n : ℕ) (p : Option String) (a : AuditLine) (ls : List Line) (es : List AuditEvent)
      → ((q : Option String) (fs : List AuditEvent)
          → (verify_lines C (suc n) q ls).1 ≡ []
          → list_lines C ls ≡ ok fs
          → map as_current (envelopes ls) ≡ chain C q fs)
      → (verify_line C (suc n) p a (λ (q : Option String). verify_lines C (suc n) q ls)).1 ≡ []
      → list_line C a (list_lines C ls) ≡ ok es
      → map as_current (envelope_in a (envelopes ls)) ≡ chain C p es
  verify_line-chain n p (envelope_line e) ls es rest clean listed =
      let (own, later) = append-nil-both (verify_envelope C p e) _ clean in
      let (fs, tail, same) = with_event-ok e.event (list_lines C ls) es listed in
      let head = verify_envelope-nil p e own in
      let others = rest (some e.chain_hash) fs later tail in
      let hash = ap (λ (x : AuditIntegrityEnvelope). x.chain_hash) head in
      let after = others ∙ ap (λ (h : String). chain C (some h) fs) hash in
      cons_eq head after ∙ ap (chain C p) same
  verify_line-chain n p (legacy_line event) ls es rest clean listed = cc
  verify_line-chain n p (unreadable reason) ls es rest clean listed = cc

  verify_lines_sound :
      (n : ℕ) (p : Option String) (ls : List Line) (es : List AuditEvent)
      → (verify_lines C n p ls).1 ≡ []
      → list_lines C ls ≡ ok es
      → map as_current (envelopes ls) ≡ chain C p es
  verify_lines_sound n p [] es clean listed = ap (chain C p) (ok-injective listed)
  verify_lines_sound n p (l ∷ ls) es clean listed = elim (Bool-cases (is_blank l)) [
    | inl blank ↦
        rw blank (verify_lines_sound (suc n) p ls es (rw blank at clean) (rw blank at listed))
    | inr full ↦ rw full (
        verify_line-chain n p (parse l) ls es (λ q fs. verify_lines_sound (suc n) q ls fs)
          (rw full at clean) (rw full at listed))
  ]

  -- In a log that verifies, every hash is determined by the events: but for their schema version,
  -- its envelopes are those that recording the events it lists, in their order, would have written.
  pub verified_log_is_chain :
      (file : AuditFile C) (es : List AuditEvent)
      → (verify C file).verified ≡ true
      → list C file ≡ ok es
      → map as_current (envelopes (lines_of C file)) ≡ chain C none es
  unfolding verify list
  verified_log_is_chain none es v l = ap (chain C none) (ok-injective l)
  verified_log_is_chain (some ls) es v l = verify_lines_sound 0 none ls es (is_empty-nil _ v) l
