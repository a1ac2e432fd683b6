-- ===== src/RuntimeMap/Entries/Healthy.antt =====
-- executor/runtime_service_map.py: when the readings of Docker Compose call a service ready.
use cft_security_agent.Prelude.{
  String, ◌≡◌, ◌⊎◌, inl, inr, refl, sym, true, Option, some, none, List, [], ◌∷◌, All, Some, insert,
  arith, text_eq, subst, ap, ◌∙◌, lookup,
}
use cft_security_agent.RuntimeMap.Compose.{
  ComposeItem, ComposeReadiness, compose_readiness, name_in, state_in, health_in, item_readiness,
  readiness_of, noted, noted_item,
}

pub Some-map :
    {A : Type 0} {P Q : A → Type 0} (xs : List A) → ((p : A) → P p → Q p) → Some P xs → Some Q xs
Some-map [] f s = absurd (ground arith)
Some-map (x ∷ xs) f (inl p) = inl (f x p)
Some-map (x ∷ xs) f (inr s) = inr (Some-map xs f s)

-- An item of the session says that the host runs and is healthy.
abbrev pub IsHealthy : String → ComposeItem → Type 0
IsHealthy host item =
    (name_in item ≡ some host)
    × (state_in item ≡ some "running")
    × (health_in item ≡ some "healthy")

readiness_of-is_ready :
    (state health : Option String) (r : ComposeReadiness)
    → readiness_of state health ≡ some r
    → r.is_ready ≡ true
    → (state ≡ some "running") × (health ≡ some "healthy")
unfolding readiness_of
readiness_of-is_ready none health r e h = absurd (ground arith)
readiness_of-is_ready (some s) none r e h = absurd (ground (arith, text_eq.same_iff s "running"))
readiness_of-is_ready (some s) (some t) r e h =
    ground (arith, text_eq.same_iff s "running", text_eq.same_iff t "healthy")

lookup-insert :
    (key other : String) (r : ComposeReadiness) (m : List (String × ComposeReadiness))
    (v : ComposeReadiness)
    → lookup other (insert key r m) ≡ some v
    → ((key ≡ other) × (r ≡ v)) ⊎ (lookup other m ≡ some v)
unfolding lookup insert
lookup-insert key other r [] v h = ground (arith, text_eq.same_iff key other)
lookup-insert key other r ((k, t) ∷ m) v h = ground (
  arith,
  text_eq.same_iff k key,
  text_eq.same_iff k other,
  text_eq.same_iff key other,
  lookup-insert key other r m v,
)

-- each entry of the readings that is ready comes from an item that is healthy
abbrev pub AllHealthy : List ComposeItem → List (String × ComposeReadiness) → Type 0
AllHealthy items m =
    (host : String) (r : ComposeReadiness)
    → lookup host m ≡ some r
    → r.is_ready ≡ true
    → Some (IsHealthy host) items

noted-AllHealthy :
    (items : List ComposeItem) (item : ComposeItem) (name : String) (o : Option ComposeReadiness)
    (m : List (String × ComposeReadiness))
    → name_in item ≡ some name
    → item_readiness item ≡ o
    → Some (λ i. i ≡ item) items
    → AllHealthy items m
    → AllHealthy items (noted name o m)
noted-AllHealthy items item name none m n e k a = a
noted-AllHealthy items item name (some r) m n e k a = λ host v h b.
    elim (lookup-insert name host r m v h) [
      | inr old ↦ a host v old b
      | inl (same, now) ↦
          let (state, health) =
            readiness_of-is_ready (state_in item) (health_in item) r e
              (subst (λ (q : ComposeReadiness). q.is_ready ≡ true) (sym now) b) in
          Some-map items
            (λ i f. subst (IsHealthy host) (sym f) (n ∙ ap (λ q. some q) same, state, health)) k
    ]

noted_item-AllHealthy :
    (items : List ComposeItem) (item : ComposeItem) (o : Option String)
    (m : List (String × ComposeReadiness))
    → name_in item ≡ o
    → Some (λ i. i ≡ item) items
    → AllHealthy items m
    → AllHealthy items (noted_item o item m)
noted_item-AllHealthy items item none m n k a = a
noted_item-AllHealthy items item (some name) m n k a =
    noted-AllHealthy items item name (item_readiness item) m n refl k a

pub compose_readiness-AllHealthy :
    (items rest : List ComposeItem) (m : List (String × ComposeReadiness))
    → All (λ (q : ComposeItem). Some (λ i. i ≡ q) items) rest
    → AllHealthy items m
    → AllHealthy items (compose_readiness rest m)
unfolding compose_readiness
compose_readiness-AllHealthy items [] m k a = a
compose_readiness-AllHealthy items (item ∷ rest) m k a =
    compose_readiness-AllHealthy items rest _ (k.1)
      (noted_item-AllHealthy items item (name_in item) m refl (k.0) a)

pub no_readings : (items : List ComposeItem) → AllHealthy items []
unfolding lookup
no_readings items = λ host r h b. absurd (ground arith)
