-- ===== src/Execution/Broker/Selection.antt =====
-- Which executors are offered an effect, and in which order.
use mathlib.Core.List.{Perm}
use mathlib.Core.List.Perm
use synth_agent_runtime.Prelude.{
  All, All-map, List, Option, Option-cases, String, [], ap, arith, beq_eq, beq_refl, false, if_elim,
  includes, inl, inr, keep, list_eq, nat_eq, none, option_eq, pair_eq, refl, some, string_eq, true,
  ℕ, ◌<◌, ◌==◌, ◌∙◌, ◌∷◌, ◌≡◌, ◌≤◌, ◌⊎◌,
}
use synth_agent_runtime.Execution.Effects.{Effect, EffectContext, ExecutionPolicy, Executor}
use synth_agent_runtime.Execution.Broker.{
  candidates, floor_of, insert_sorted, is_allowed, is_candidate, preference, preferred_of, sort_by,
  sorts_before,
}

module _ {W : Type 0} where
  insert_sorted-perm :
      (p : Option String) (e : Executor W) (xs : List (Executor W))
      → Perm (insert_sorted p e xs) (e ∷ xs)
  unfolding insert_sorted
  insert_sorted-perm p e [] = Perm.refl (e ∷ [])
  insert_sorted-perm p e (x ∷ xs) =
      if_elim (λ (r : List (Executor W)). Perm r (e ∷ x ∷ xs)) (sorts_before p e x) _ _
        (λ _. Perm.refl (e ∷ x ∷ xs))
        (λ _. Perm.trans (Perm.cons x (insert_sorted-perm p e xs)) (Perm.swap e x xs))

  sort_by-perm : (p : Option String) (xs : List (Executor W)) → Perm (sort_by p xs) xs
  unfolding sort_by
  sort_by-perm p [] = Perm.refl []
  sort_by-perm p (x ∷ xs) =
      Perm.trans (insert_sorted-perm p x (sort_by p xs)) (Perm.cons x (sort_by-perm p xs))

  -- `a` may stand before `b`: it is of the preferred class and `b` is not, or they agree in that and
  -- `a` has no higher fidelity.
  abbrev Precedes : Option String → Executor W → Executor W → Type 0
  Precedes p a b =
      (preference p a < preference p b)
      ⊎ ((preference p a ≡ preference p b) × (a.fidelity ≤ b.fidelity))

  abbrev IsOrdered : Option String → List (Executor W) → Type 0
  IsOrdered p [] = Unit
  IsOrdered p (x ∷ xs) = All (Precedes p x) xs × IsOrdered p xs

  Precedes-total :
      (p : Option String) (a b : Executor W)
      → ((sorts_before p a b ≡ true) → Precedes p a b)
        × ((sorts_before p a b ≡ false) → Precedes p b a)
  unfolding sorts_before
  Precedes-total p a b = (λ h. grind arith, λ h. grind arith)

  Precedes-trans :
      (p : Option String) (a b c : Executor W) → Precedes p a b → Precedes p b c → Precedes p a c
  Precedes-trans p a b c h k = grind arith

  Precedes-All :
      (p : Option String) (a b : Executor W) (xs : List (Executor W))
      → Precedes p a b
      → All (Precedes p b) xs
      → All (Precedes p a) xs
  Precedes-All p a b [] h k = tt
  Precedes-All p a b (x ∷ xs) h k = (Precedes-trans p a b x h k.0, Precedes-All p a b xs h k.1)

  insert_sorted-All :
      (p : Option String) (a e : Executor W) (xs : List (Executor W))
      → Precedes p a e
      → All (Precedes p a) xs
      → All (Precedes p a) (insert_sorted p e xs)
  unfolding insert_sorted
  insert_sorted-All p a e [] h k = (h, tt)
  insert_sorted-All p a e (x ∷ xs) h k =
      if_elim (All (Precedes p a)) (sorts_before p e x) (e ∷ x ∷ xs) (x ∷ insert_sorted p e xs)
        (λ _. (h, k)) (λ _. (k.0, insert_sorted-All p a e xs h k.1))

  insert_sorted-IsOrdered :
      (p : Option String) (e : Executor W) (xs : List (Executor W))
      → IsOrdered p xs
      → IsOrdered p (insert_sorted p e xs)
  unfolding insert_sorted
  insert_sorted-IsOrdered p e [] v = (tt, tt)
  insert_sorted-IsOrdered p e (x ∷ xs) v =
      if_elim (IsOrdered p) (sorts_before p e x) (e ∷ x ∷ xs) (x ∷ insert_sorted p e xs)
        (λ t. let h = (Precedes-total p e x).0 t in ((h, Precedes-All p e x xs h v.0), v))
        (λ t. (
          insert_sorted-All p x e xs ((Precedes-total p e x).1 t) v.0,
          insert_sorted-IsOrdered p e xs v.1,
        ))

  sort_by-IsOrdered : (p : Option String) (xs : List (Executor W)) → IsOrdered p (sort_by p xs)
  unfolding sort_by
  sort_by-IsOrdered p [] = tt
  sort_by-IsOrdered p (x ∷ xs) = insert_sorted-IsOrdered p x (sort_by p xs) (sort_by-IsOrdered p xs)

  -- The executor reaches the least fidelity of the broker and that of the policy, and if the policy
  -- lists classes and the executor has one, that class is on the list.
  abbrev pub IsOffered : EffectContext → ℕ → Executor W → Type 0
  IsOffered context least e =
      (least ≤ e.fidelity)
      × ((policy : ExecutionPolicy) (m : ℕ)
          → context.execution_policy ≡ some policy
          → policy.min_fidelity ≡ some m
          → m ≤ e.fidelity)
      × ((policy : ExecutionPolicy) (classes : List String) (c : String)
          → context.execution_policy ≡ some policy
          → policy.allowed_classes ≡ some classes
          → e.resource_class_id ≡ some c
          → (c == "") ≡ false
          → includes c classes ≡ true)

  -- The executor is of the preferred class, which is not the empty text.
  abbrev pub IsPreferred : Option String → Executor W → Type 0
  IsPreferred p e =
      (c : String) × (p ≡ some c) × ((c == "") ≡ false) × (e.resource_class_id ≡ some c)

  -- `a` may stand before `b`: it is preferred if `b` is, and if both or neither are, it has no higher
  -- fidelity.
  abbrev pub StandsBefore : Option String → Executor W → Executor W → Type 0
  StandsBefore p a b =
      (IsPreferred p b → IsPreferred p a)
      × ((IsPreferred p a → IsPreferred p b) → a.fidelity ≤ b.fidelity)

  abbrev pub IsRanked : Option String → List (Executor W) → Type 0
  IsRanked p [] = Unit
  IsRanked p (x ∷ xs) = All (StandsBefore p x) xs × IsRanked p xs

  preference_lem :
      (p : Option String) (e : Executor W)
      → ((preference p e ≡ 0) → IsPreferred p e)
        × (IsPreferred p e → preference p e ≡ 0)
        × (preference p e ≤ 1)
  unfolding preference
  preference_lem none e = (λ h. absurd (omega arith), λ h. absurd (cc), omega arith)
  preference_lem (some c) e = (
    λ h. elim (Option-cases e.resource_class_id) [
      | inl r ↦ absurd (ground arith)
      | inr (d, r) ↦ (c, refl, ground arith, r ∙ ap some (beq_eq d c (ground arith)))
    ],
    λ h.
        let same : c ≡ h.0 = cc in let named = h.2 in let class = h.3 in ground (arith, beq_refl c),
    ground arith,
  )

  Precedes-StandsBefore :
      (p : Option String) (a b : Executor W) → Precedes p a b → StandsBefore p a b
  Precedes-StandsBefore p a b (inl h) =
      let first = preference_lem p a in
      let next = preference_lem p b in
      let chosen : IsPreferred p a = first.0 (omega (arith, next.2)) in
      (λ _. chosen, λ both. let same = next.1 (both chosen) in absurd (omega arith))
  Precedes-StandsBefore p a b (inr h) =
      let first = preference_lem p a in
      let next = preference_lem p b in
      (λ k. let zero_b = next.1 k in first.0 (h.0 ∙ zero_b), λ _. h.1)

  IsOrdered-IsRanked : (p : Option String) (xs : List (Executor W)) → IsOrdered p xs → IsRanked p xs
  IsOrdered-IsRanked p [] h = tt
  IsOrdered-IsRanked p (x ∷ xs) h =
      (All-map _ _ xs (Precedes-StandsBefore p x) h.0, IsOrdered-IsRanked p xs h.1)

  is_candidate-IsOffered :
      (context : EffectContext) (least : ℕ) (e : Executor W)
      → is_candidate context least e ≡ true
      → IsOffered context least e
  unfolding is_candidate floor_of is_allowed
  is_candidate-IsOffered context least e h =
      (ground arith, λ policy m p k. ground arith, λ policy classes c p k r n. ground arith)

  IsOffered-floor_of :
      (context : EffectContext) (least : ℕ) (e : Executor W)
      → IsOffered context least e
      → floor_of context least ≤ e.fidelity
  unfolding floor_of
  IsOffered-floor_of context least e h =
      let reached = h.0 in
      elim (Option-cases context.execution_policy) [
        | inl p ↦ ground arith
        | inr (policy, p) ↦ elim (Option-cases policy.min_fidelity) [
          | inl k ↦ ground arith
          | inr (m, k) ↦ let floor = h.1 policy m p k in ground arith
        ]
      ]

  IsOffered-is_allowed :
      (context : EffectContext) (least : ℕ) (e : Executor W)
      → IsOffered context least e
      → is_allowed context e.resource_class_id ≡ true
  unfolding is_allowed
  IsOffered-is_allowed context least e h = elim (Option-cases context.execution_policy) [
    | inl p ↦ ground arith
    | inr (policy, p) ↦ elim (Option-cases policy.allowed_classes) [
      | inl k ↦ ground arith
      | inr (classes, k) ↦ elim (Option-cases e.resource_class_id) [
        | inl r ↦ ground arith
        | inr (c, r) ↦ let listed = h.2 policy classes c p k r in ground arith
      ]
    ]
  ]

  IsOffered-is_candidate :
      (context : EffectContext) (least : ℕ) (e : Executor W)
      → IsOffered context least e
      → is_candidate context least e ≡ true
  unfolding is_candidate
  IsOffered-is_candidate context least e h =
      ground (arith, IsOffered-floor_of context least e h, IsOffered-is_allowed context least e h)

  -- The executors that are offered an effect are those that reach the least fidelities of the broker
  -- and of the policy and are of a class that the policy allows or of none, each as often as it was
  -- given; those of the preferred class come first, and among equals the lower fidelity.
  pub candidates_lem :
      (executors : List (Executor W)) (effect : Effect) (context : EffectContext) (least : ℕ)
      → Perm
          (candidates executors effect context least)
          (keep (is_candidate context least) executors)
        × ((e : Executor W)
            → (is_candidate context least e ≡ true → IsOffered context least e)
              × (IsOffered context least e → is_candidate context least e ≡ true))
        × IsRanked (preferred_of effect context) (candidates executors effect context least)
  unfolding candidates
  candidates_lem executors effect context least = (
    sort_by-perm (preferred_of effect context) (keep (is_candidate context least) executors),
    λ e. (is_candidate-IsOffered context least e, IsOffered-is_candidate context least e),
    IsOrdered-IsRanked (preferred_of effect context) _ (
        sort_by-IsOrdered (preferred_of effect context)
          (keep (is_candidate context least) executors)),
  )
