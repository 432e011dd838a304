-- ===== src/Audit/Chain.antt =====
-- What the hash chain of the JSONL audit log shows: crates/audit-log/src/lib.rs.
use connor_agent_core.Common.{
  ℕ, suc, String, Bool, true, false, ◌≡◌, refl, ap, ◌∙◌, subst, Option, none, some, List, [], ◌∷◌,
  ◌++◌, map, eq_iff, eq_self, length, reverse, reverse-append,
}
use mathlib.Core.List.{append_assoc, append-nil}
use connor_agent_core.Audit.{AuditEvent, ok}
use connor_agent_core.Audit.Integrity.{
  AuditCodec, AuditIntegrityEnvelope, AuditIntegrityIssue, same_option, unless, AuditFile,
  compute_hash, compute_chain_hash, new_envelope, verify_envelope, verify_lines, verify,
  last_chain_hash, lines_of, previous_chain_hash, log_event, list_lines, list,
}

same_option_self : (o : Option String) → same_option o o ≡ true
same_option_self none = refl
same_option_self (some a) = eq_self a

pub same_option-≡ : (a b : Option String) → same_option a b ≡ true → a ≡ b
same_option-≡ none none e = refl
same_option-≡ none (some b) e = cc
same_option-≡ (some a) none e = cc
same_option-≡ (some a) (some b) e = ap some ((eq_iff a b).0 e)

pub unless-nil : (b : Bool) (i : AuditIntegrityIssue) → unless b i ≡ [] → b ≡ true
unless-nil true i e = refl
unless-nil false i e = cc

pub append-nil-both {ℓ} : {A : Type ℓ} (xs ys : List A) → xs ++ ys ≡ [] → (xs ≡ []) × (ys ≡ [])
append-nil-both [] ys e = (refl, e)
append-nil-both (x ∷ xs) ys e = cc

pair {ℓ κ} :
    {A : Type ℓ} {B : Type κ} {a a' : A} {b b' : B}
    → a ≡ a'
    → b ≡ b'
    → ◌≡◌ {A = A × B} (a, b) (a', b')
pair e f = cc

module _ (C : AuditCodec) where
  open C use {Line, encode, parse, is_blank, parse-encode, encode-is_blank}

  -- the envelopes that recording the events one after another writes
  abbrev pub chain : Option String → List AuditEvent → List AuditIntegrityEnvelope
  chain previous [] = []
  chain previous (e ∷ es) =
      new_envelope C e previous ∷ chain (some (new_envelope C e previous).chain_hash) es

  -- the last hash of a chain
  abbrev tip : Option String → List AuditIntegrityEnvelope → Option String
  tip previous [] = previous
  tip previous (x ∷ xs) = tip (some x.chain_hash) xs

  tip-append :
      (p : Option String) (xs : List AuditIntegrityEnvelope) (x : AuditIntegrityEnvelope)
      → tip p (xs ++ x ∷ []) ≡ some x.chain_hash
  tip-append p [] x = refl
  tip-append p (y ∷ ys) x = tip-append (some y.chain_hash) ys x

  chain-append :
      (p : Option String) (es : List AuditEvent) (e : AuditEvent)
      → chain p (es ++ e ∷ []) ≡ chain p es ++ new_envelope C e (tip p (chain p es)) ∷ []
  chain-append p [] e = refl
  chain-append p (x ∷ xs) e =
      ap (λ (v : List AuditIntegrityEnvelope). new_envelope C x p ∷ v)
        (chain-append (some (new_envelope C x p).chain_hash) xs e)

  map-append_one :
      (xs : List AuditIntegrityEnvelope) (x : AuditIntegrityEnvelope)
      → map encode (xs ++ x ∷ []) ≡ map encode xs ++ encode x ∷ []
  map-append_one [] x = refl
  map-append_one (y ∷ ys) x = ap (λ (v : List Line). encode y ∷ v) (map-append_one ys x)

  last_chain_hash-append :
      (ls : List Line) (x : AuditIntegrityEnvelope)
      → last_chain_hash C (reverse (ls ++ encode x ∷ [])) ≡ some x.chain_hash
  last_chain_hash-append ls x =
      rw (reverse-append ls (encode x), encode-is_blank x, parse-encode x) refl

  -- the file holds the chain of these events, and goes on from its end
  abbrev Holds : List AuditEvent → AuditFile C → Type 0
  Holds es file =
      (lines_of C file ≡ map encode (chain none es))
      × (previous_chain_hash C file ≡ tip none (chain none es))

  log_event-Holds :
      (es : List AuditEvent) (e : AuditEvent) (file : AuditFile C)
      → Holds es file
      → Holds (es ++ e ∷ []) (log_event C e file)
  unfolding log_event
  log_event-Holds es e file (same, end) = (
    ap (λ (q : List Line × Option String). q.0 ++ encode (new_envelope C e q.1) ∷ [])
          (pair same end)
        ∙ rw (chain-append none es e, map-append_one) refl,
    last_chain_hash-append (lines_of C file) (new_envelope C e (previous_chain_hash C file))
        ∙ ap (λ (o : Option String). some (new_envelope C e o).chain_hash) end
        ∙ rw (chain-append none es e, tip-append) refl,
  )

  -- recording events one after another
  abbrev pub log_all : List AuditEvent → AuditFile C → AuditFile C
  log_all [] file = file
  log_all (e ∷ es) file = log_all es (log_event C e file)

  log_all-Holds :
      (new old : List AuditEvent) (file : AuditFile C)
      → Holds old file
      → Holds (old ++ new) (log_all new file)
  log_all-Holds [] old file h = rw (append-nil old) h
  log_all-Holds (e ∷ es) old file h =
      subst (λ (v : List AuditEvent). Holds v (log_all es (log_event C e file)))
        (append_assoc old (e ∷ []) es)
        (log_all-Holds es (old ++ e ∷ []) (log_event C e file) (log_event-Holds old e file h))

  verify_envelope_new :
      (p : Option String) (e : AuditEvent) → verify_envelope C p (new_envelope C e p) ≡ []
  verify_envelope_new p e =
      rw
        (
          eq_self (compute_hash C e),
          same_option_self p,
          eq_self (compute_chain_hash C p (compute_hash C e)),
        )
        refl

  verify_lines-chain :
      (n : ℕ) (p : Option String) (es : List AuditEvent)
      → verify_lines C n p (map encode (chain p es)) ≡ (length es, [])
  verify_lines-chain n p [] = refl
  verify_lines-chain n p (e ∷ es) =
      rw
        (
          encode-is_blank (new_envelope C e p),
          parse-encode (new_envelope C e p),
          verify_lines-chain (suc n) (some (new_envelope C e p).chain_hash) es,
          verify_envelope_new p e,
        )
        refl

  list_lines-chain :
      (p : Option String) (es : List AuditEvent) → list_lines C (map encode (chain p es)) ≡ ok es
  list_lines-chain p [] = refl
  list_lines-chain p (e ∷ es) =
      rw
        (
          encode-is_blank (new_envelope C e p),
          parse-encode (new_envelope C e p),
          list_lines-chain (some (new_envelope C e p).chain_hash) es,
        )
        refl

  -- the log that recording these events in turn makes where there was no file
  abbrev pub recorded : List AuditEvent → AuditFile C
  recorded es = log_all es none

  verify_recorded :
      (file : AuditFile C) (es : List AuditEvent)
      → lines_of C file ≡ map encode (chain none es)
      → ((verify C file).verified ≡ true) × ((verify C file).event_count ≡ length es)
  unfolding verify
  verify_recorded none [] e = (refl, refl)
  verify_recorded none (x ∷ xs) e = cc
  verify_recorded (some ls) es e = rw (e, verify_lines-chain 0 none es) (refl, refl)

  -- Recording any events in turn where there was no file makes a log that verifies, counts them
  -- all, and lists exactly these events in their order.
  pub recorded_log_verifies :
      (es : List AuditEvent)
      → ((verify C (recorded es)).verified ≡ true)
        × ((verify C (recorded es)).event_count ≡ length es)
        × (list C (recorded es) ≡ ok es)
  unfolding list
  recorded_log_verifies es =
      let (same, end) = log_all-Holds es [] none (refl, refl) in
      let (clean, counted) = verify_recorded (recorded es) es same in
      (clean, counted, ap (list_lines C) same ∙ list_lines-chain none es)
