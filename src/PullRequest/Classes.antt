-- ===== src/PullRequest/Classes.antt =====
-- What the class of a finding says of the base branch and of the diff.
use mathlib.Core.Option.{some-injective}
use cft_security_agent.Prelude.{
  ℕ, zero, suc, ◌+◌, ◌-◌, ◌≤◌, ◌<◌, String, ◌≡◌, ◌↔◌, ◌⊎◌, inl, inr, refl, sym, ◌∙◌, ap, subst,
  Bool, true, false, ◌||◌, Option, some, none, List, [], ◌∷◌, any, keep, non_empty, All, Some, In,
  insert, contains, contains_iff, ◌==◌, nat_eq, text_eq, or_default, arith, Option-cases,
}
use cft_security_agent.Schemas.Finding.{
  new, existing, PrFindingContext, Finding, ArchitectureContext,
}
use cft_security_agent.Agent.Consistency.{range}
use cft_security_agent.PullRequest.{
  PrAnalysisService, finding_lines, relevant_lines, classify, normalize_path, finding_fingerprint,
  architecture_changed, lines_of, relevant_to, context_at, context_of, contexts_differ,
  fingerprints, enriched, analyse_pr, PrAnalysisSummary,
}

non_empty-keep : (p : ℕ → Bool) (ns : List ℕ) → non_empty (keep p ns) ≡ any p ns
non_empty-keep p [] = refl
non_empty-keep p (n ∷ ns) = ground (arith, non_empty-keep p ns)

any-or : (p q : ℕ → Bool) (ns : List ℕ) → any (λ n. p n || q n) ns ≡ (any p ns || any q ns)
any-or p q [] = refl
any-or p q (n ∷ ns) = ground (arith, any-or p q ns)

any_none : (ns : List ℕ) → any (λ n. false) ns ≡ false
any_none [] = refl
any_none (n ∷ ns) = ground (arith, any_none ns)

-- that two lists share a number, read from either side
shared : (ms ns : List ℕ) → any (λ n. any (λ m. m == n) ms) ns ≡ any (λ m. any (λ n. m == n) ns) ms
shared ms [] = sym (any_none ms)
shared ms (n ∷ ns) =
    ground (arith, shared ms ns, any-or (λ m. m == n) (λ m. any (λ n. m == n) ns) ms)

any-range_iff :
    (m start count : ℕ)
    → (any (λ n. m == n) (range start count) ≡ true) ↔ ((start ≤ m) × (m < start + count))
unfolding range
any-range_iff m start zero = ground arith
any-range_iff m start (suc count) = ground (arith, any-range_iff m (suc start) count)

-- the line is outside the lines of a finding
abbrev pub IsOutside : Option ℕ → Option ℕ → ℕ → Type 0
IsOutside none line_end n = Unit
IsOutside (some start) line_end n = (n < start) ⊎ (or_default line_end start < n)

IsOutside-iff :
    (line_start line_end : Option ℕ) (m : ℕ)
    → (any (λ n. m == n) (finding_lines line_start line_end) ≡ false)
      ↔ IsOutside line_start line_end m
unfolding finding_lines
IsOutside-iff none e m = ground arith
IsOutside-iff (some s) e m = ground (arith, any-range_iff m s (suc (or_default e s) - s))

none_relevant_iff :
    (line_start line_end : Option ℕ) (file_lines : List ℕ)
    → (any (λ m. any (λ n. m == n) (finding_lines line_start line_end)) file_lines ≡ false)
      ↔ All (IsOutside line_start line_end) file_lines
none_relevant_iff s e [] = ground arith
none_relevant_iff s e (m ∷ ms) = ground (arith, none_relevant_iff s e ms, IsOutside-iff s e m)

relevant_lines-non_empty :
    (file_lines lines : List ℕ)
    → non_empty (relevant_lines file_lines lines) ≡ any (λ m. any (λ n. m == n) lines) file_lines
unfolding relevant_lines
relevant_lines-non_empty file_lines lines =
    non_empty-keep (λ n. any (λ m. m == n) file_lines) lines ∙ shared file_lines lines

classify_iff :
    (known : Bool) (relevant : List ℕ) (changed : Bool)
    → ((classify known relevant changed ≡ new) ↔ (known ≡ false))
      × ((classify known relevant changed ≡ existing)
          ↔ ((known ≡ true) × (non_empty relevant ≡ false) × (changed ≡ false)))
unfolding classify
classify_iff known relevant changed = ground arith

-- Both providers are there, and the contexts that they give of the service of the finding differ.
abbrev pub HasNewContext : PrAnalysisService → Finding → Type 0
HasNewContext service f =
    (name : String) × (before : String → ArchitectureContext) × (after : String
      → ArchitectureContext)
    × (f.service ≡ some name)
    × (service.base_architecture ≡ some before)
    × (service.head_architecture ≡ some after)
    × (service.same_context (before name) (after name) ≡ false)

contexts_differ_iff :
    (service : PrAnalysisService) (b h : Option (String → ArchitectureContext)) (name : String)
    → (contexts_differ service b h name ≡ true) ↔ (
        (before : String → ArchitectureContext) × (after : String → ArchitectureContext) × (b
          ≡ some before)
        × (h ≡ some after)
        × (service.same_context (before name) (after name) ≡ false))
contexts_differ_iff service (some b) (some h) name = (
  λ e. (b, h, refl, refl, ground (arith, e)),
  λ (b', h', p, q, e).
      let e1 : service.same_context (b name) (h' name) ≡ false =
        subst
          (λ (k : String → ArchitectureContext). service.same_context (k name) (h' name) ≡ false)
          (sym (some-injective _ _ p)) e in
      let e2 : service.same_context (b name) (h name) ≡ false =
        subst (λ (k : String → ArchitectureContext). service.same_context (b name) (k name) ≡ false)
          (sym (some-injective _ _ q)) e1 in
      ground (arith, e2),
)
contexts_differ_iff service (some b) none name =
    (λ e. absurd (ground (arith, e)), λ (b', h', p, q, e). absurd (ground (arith, q)))
contexts_differ_iff service none h name =
    (λ e. absurd (ground (arith, e)), λ (b', h', p, q, e). absurd (ground (arith, p)))

architecture_changed_iff :
    (service : PrAnalysisService) (o : Option String)
    → (architecture_changed service o ≡ true) ↔ (
        (name : String) × (before : String → ArchitectureContext) × (after : String
          → ArchitectureContext)
        × (o ≡ some name)
        × (service.base_architecture ≡ some before)
        × (service.head_architecture ≡ some after)
        × (service.same_context (before name) (after name) ≡ false))
unfolding architecture_changed
architecture_changed_iff service none =
    (λ e. absurd (ground (arith, e)), λ r. absurd (ground (arith, r.3)))
architecture_changed_iff service (some name) =
    let iff =
      contexts_differ_iff service service.base_architecture service.head_architecture name in
    (
      λ e. let (b, h, p, q, d) = iff.0 e in (name, b, h, refl, p, q, d),
      λ (n, b, h, o, p, q, d). iff.1 (
        b,
        h,
        p,
        q,
        subst (λ k. service.same_context (b k) (h k) ≡ false) (sym (some-injective _ _ o)) d,
      ),
    )

fingerprints_iff :
    (service : PrAnalysisService) (fs : List Finding) (base : List String)
    → fingerprints service fs ≡ some base
    → (a : String) → In a base ↔ Some (λ (f : Finding). finding_fingerprint service f ≡ some a) fs
unfolding fingerprints
fingerprints_iff service [] base h a = ground (arith, h)
fingerprints_iff service (f ∷ fs) base h a = elim (Option-cases (finding_fingerprint service f)) [
  | inl e ↦ absurd (ground (arith, e))
  | inr (x, e) ↦ elim (Option-cases (fingerprints service fs)) [
    | inl n ↦ absurd (ground (arith, e, n))
    | inr (rest, n) ↦
        let same : x ∷ rest ≡ base = ground (arith, e, n) in
        subst
          (λ q. In a q ↔ Some (λ (f : Finding). finding_fingerprint service f ≡ some a) (f ∷ fs))
          same (ground (arith, e, fingerprints_iff service fs rest n a))
  ]
]

module _ (service : PrAnalysisService) (base : List Finding) where
  -- What the class of the context says, for the path of the finding: it is new exactly when no
  -- finding of the base has its fingerprint, and existing exactly when one has, every changed line
  -- of its file is outside its lines, and its service has no new context.
  abbrev pub SaysClass : Finding → PrFindingContext → String → Type 0
  SaysClass f c path =
      ((c.classification ≡ new)
        ↔ ¬ (Some (λ (b : Finding). finding_fingerprint service b ≡ some c.fingerprint) base))
      × ((c.classification ≡ existing) ↔ (
          Some (λ (b : Finding). finding_fingerprint service b ≡ some c.fingerprint) base
          × All (IsOutside f.line_start f.line_end) (lines_of service path)
          × ¬ (HasNewContext service f)))

  -- the finding of the result for a finding of the head
  abbrev pub IsEnriched : Finding → Finding → Type 0
  IsEnriched f g =
      (c : PrFindingContext) × (path : String) × (g ≡ record f { pr_context = some c })
      × (normalize_path service f.file ≡ some path)
      × (finding_fingerprint service f ≡ some c.fingerprint)
      × SaysClass f c path

  abbrev pub AllEnriched : List Finding → List Finding → Type 0
  AllEnriched [] [] = Unit
  AllEnriched (f ∷ fs) (g ∷ gs) = IsEnriched f g × AllEnriched fs gs
  AllEnriched _ _ = ⊥

  module _ (known : List String) (read : fingerprints service base ≡ some known) where
    at-SaysClass :
        (f : Finding) (path fingerprint : String)
        → SaysClass f (context_at service known f path fingerprint) path
    unfolding context_at
    at-SaysClass f path fingerprint = ground (
      arith,
      classify_iff (contains fingerprint known) (relevant_to service f path)
          (architecture_changed service f.service),
      contains_iff fingerprint known,
      fingerprints_iff service base known read fingerprint,
      architecture_changed_iff service f.service,
      relevant_lines-non_empty (lines_of service path) (finding_lines f.line_start f.line_end),
      none_relevant_iff f.line_start f.line_end (lines_of service path),
    )

    fingerprint_kept :
        (f : Finding) (path fingerprint : String)
        → fingerprint ≡ (context_at service known f path fingerprint).fingerprint
    unfolding context_at
    fingerprint_kept f path fingerprint = refl

    context_of-SaysClass :
        (f : Finding) (c : PrFindingContext)
        → context_of service known f ≡ some c
        → (path : String) × (normalize_path service f.file ≡ some path)
          × (finding_fingerprint service f ≡ some c.fingerprint)
          × SaysClass f c path
    unfolding context_of
    context_of-SaysClass f c h = elim (Option-cases (finding_fingerprint service f)) [
      | inl e ↦ absurd (ground (arith, e))
      | inr (fingerprint, e) ↦ elim (Option-cases (normalize_path service f.file)) [
        | inl n ↦ absurd (ground (arith, e, n))
        | inr (path, n) ↦
            let same : context_at service known f path fingerprint ≡ c = ground (arith, e, n, h) in
            (
              path,
              n,
              e
                  ∙ ap (λ q. some q)
                      (fingerprint_kept f path fingerprint
                        ∙ ap (λ (q : PrFindingContext). q.fingerprint) same),
              subst (λ q. SaysClass f q path) same (at-SaysClass f path fingerprint),
            )
      ]
    ]

    enriched-AllEnriched :
        (fs : List Finding) (contexts : List (String × PrFindingContext)) (gs : List Finding)
        (out : List (String × PrFindingContext))
        → enriched service known fs contexts ≡ some (gs, out)
        → AllEnriched fs gs
    unfolding enriched
    enriched-AllEnriched [] contexts gs out h =
        subst (λ q. AllEnriched [] q)
          (ap (λ (q : List Finding × List (String × PrFindingContext)). q.0) (some-injective _ _ h))
          tt
    enriched-AllEnriched (f ∷ fs) contexts gs out h =
        elim (Option-cases (context_of service known f)) [
          | inl e ↦ absurd (ground (arith, e))
          | inr (c, e) ↦ elim (Option-cases (enriched service known fs (insert f.id c contexts))) [
            | inl n ↦ absurd (ground (arith, e, n))
            | inr ((rest, later), n) ↦
                let same : record f { pr_context = some c } ∷ rest ≡ gs = ground (arith, e, n) in
                let (path, p, q, s) = context_of-SaysClass f c e in
                subst (λ q. AllEnriched (f ∷ fs) q) same
                  ((c, path, refl, p, q, s), enriched-AllEnriched fs _ rest later n)
          ]
        ]

  -- An analysis that succeeds gives back the findings of the head, each with a context. The context
  -- has the fingerprint of the finding; its class is new exactly when no finding of the base has
  -- that fingerprint, and existing exactly when one has, every changed line of the file is outside
  -- the lines of the finding, and the two architecture providers, where both are there, give the
  -- same context of its service.
  pub classes_iff :
      (head findings : List Finding) (summary : PrAnalysisSummary)
      → analyse_pr service base head ≡ some (findings, summary)
      → AllEnriched head findings
  unfolding analyse_pr
  classes_iff head findings summary h = elim (Option-cases (fingerprints service base)) [
    | inl e ↦ absurd (ground (arith, e))
    | inr (known, e) ↦ elim (Option-cases (enriched service known head [])) [
      | inl n ↦ absurd (ground (arith, e, n))
      | inr ((gs, out), n) ↦
          subst (λ q. AllEnriched head q) (ground (arith, e, n))
            (enriched-AllEnriched known e head [] gs out n)
    ]
  ]
