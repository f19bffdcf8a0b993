-- ===== src/Stage/Sessions/Kept.antt =====
-- What pruning keeps, and what `session_for_request` promises.
use distributed_layer_infere.Common.{
  ℕ, zero, suc, ◌+◌, ◌≤◌, ◌≡◌, ◌⊎◌, inl, inr, refl, ◌∙◌, false, Option, none, some, Option-cases,
  max, [], ◌∷◌, arith, ltb, length, Bool-cases, Bytes, eqb, eqb→eq, is_empty,
}
use distributed_layer_infere.Stage.{LlamaRequestSession}
use distributed_layer_infere.Stage.Sessions.{
  Entry, Map, find, without_victim, prune_rounds, prune_sessions_except,
}
use distributed_layer_infere.Stage.Sessions.Lookups.{IsUnique}

module _ {X : Type 0} where
  -- One round drops one entry, which is not the kept one.
  pub record IsRound (keep : Bytes) (s s' : Map X) : Type 0 where
    pub shorter : length s ≡ suc (length s')
    pub kept : find keep s' ≡ find keep s
    pub others : (j : Bytes) → (find j s' ≡ none) ⊎ (find j s' ≡ find j s)
    pub unique : IsUnique s'

  -- Dropping an entry changes no lookup but its own key's, which then finds nothing.
  tail_find :
      (j : Bytes) (f : Entry X) (es : Map X)
      → find f.key es ≡ none
      → (find j es ≡ none) ⊎ (find j es ≡ find j (f ∷ es))
  unfolding find
  tail_find j f es h = ground (arith, eqb→eq f.key j)

  second_find :
      (j : Bytes) (e f : Entry X) (es : Map X)
      → find f.key es ≡ none
      → (find j (e ∷ es) ≡ none) ⊎ (find j (e ∷ es) ≡ find j (e ∷ f ∷ es))
  unfolding find
  second_find j e f es h = ground (arith, eqb→eq f.key j)

  IsRound-of_victim :
      (keep : Bytes) (s s' : Map X)
      → is_empty keep ≡ false
      → IsUnique s
      → without_victim keep s ≡ some s'
      → IsRound keep s s'
  unfolding find without_victim
  IsRound-of_victim keep [] s' n u h = cc
  IsRound-of_victim keep (e ∷ []) s' n u h = elim (Bool-cases (eqb e.key keep)) [
    | inl y ↦ absurd (ground arith)
    | inr y ↦ record {
      shorter = ground arith;
      kept = ground arith;
      others = λ j. ground arith;
      unique = ground arith;
    }
  ]
  IsRound-of_victim keep (e ∷ f ∷ es) s' n u h = elim (Bool-cases (eqb e.key keep)) [
    | inl y ↦
        let q : s' ≡ e ∷ es = ground arith in
        record {
          shorter = ground arith;
          kept = ground arith;
          others = λ j. rw q (second_find j e f es u.1.0);
          unique = ground arith;
        }
    | inr y ↦
        let q : s' ≡ f ∷ es = ground arith in
        record {
          shorter = ground arith;
          kept = ground arith;
          others = λ j. rw q (tail_find j e (f ∷ es) u.0);
          unique = ground arith;
        }
  ]

  last_round : (keep : Bytes) (s : Map X) → without_victim keep s ≡ none → length s ≤ 1
  unfolding without_victim
  last_round keep [] h = omega arith
  last_round keep (e ∷ []) h = omega arith
  last_round keep (e ∷ f ∷ es) h = ground arith

  -- What any number of rounds keeps.
  pub record IsPruned (keep : Bytes) (s s' : Map X) : Type 0 where
    pub kept : find keep s' ≡ find keep s
    pub others : (j : Bytes) → (find j s' ≡ none) ⊎ (find j s' ≡ find j s)
    pub unique : IsUnique s'

  unpruned : (keep : Bytes) (s : Map X) → IsUnique s → IsPruned keep s s
  unpruned keep s u = record { kept = refl; others = λ j. inr refl; unique = u }

  join_others :
      (a b c : Option (LlamaRequestSession X))
      → (b ≡ none) ⊎ (b ≡ a)
      → (c ≡ none) ⊎ (c ≡ b)
      → (c ≡ none) ⊎ (c ≡ a)
  join_others a b c h (inl e) = inl e
  join_others a b c (inl d) (inr e) = inl (e ∙ d)
  join_others a b c (inr d) (inr e) = inr (e ∙ d)

  IsPruned-round :
      (keep : Bytes) (s s' t : Map X) → IsRound keep s s' → IsPruned keep s' t → IsPruned keep s t
  IsPruned-round keep s s' t r p = record {
    kept = p.kept ∙ r.kept;
    others = λ j. join_others (find j s) (find j s') (find j t) (r.others j) (p.others j);
    unique = p.unique;
  }

  prune_rounds-IsPruned :
      (rounds m : ℕ) (keep : Bytes) (s : Map X)
      → is_empty keep ≡ false
      → IsUnique s
      → IsPruned keep s (prune_rounds rounds m keep s)
  unfolding prune_rounds
  prune_rounds-IsPruned zero m keep s n u = unpruned keep s u
  prune_rounds-IsPruned (suc rounds) m keep s n u = elim (Bool-cases (ltb m (length s))) [
    | inr done ↦ rw done (unpruned keep s u)
    | inl over ↦ elim (Option-cases (without_victim keep s)) [
      | inl e ↦ rw (over, e) (unpruned keep s u)
      | inr (s', e) ↦
          let r = IsRound-of_victim keep s s' n u e in
          rw (over, e)
            (IsPruned-round keep s s' _ r (prune_rounds-IsPruned rounds m keep s' n r.unique))
    ]
  ]

  prune_rounds-length :
      (rounds m : ℕ) (keep : Bytes) (s : Map X)
      → is_empty keep ≡ false
      → IsUnique s
      → 1 ≤ m
      → length s ≤ rounds + m
      → length (prune_rounds rounds m keep s) ≤ m
  unfolding prune_rounds
  prune_rounds-length zero m keep s n u one h = omega arith
  prune_rounds-length (suc rounds) m keep s n u one h = elim (Bool-cases (ltb m (length s))) [
    | inr done ↦ rw done (ground arith)
    | inl over ↦ elim (Option-cases (without_victim keep s)) [
      | inl e ↦ absurd (ground (arith, last_round keep s e))
      | inr (s', e) ↦
          let r = IsRound-of_victim keep s s' n u e in
          rw (over, e)
            (prune_rounds-length rounds m keep s' n r.unique one (omega (arith, r.shorter)))
    ]
  ]

  -- With a key that is not empty and on a map with unique keys, `prune_sessions_except` leaves at most
  -- max(1, limit) sessions, keeps the session of the key, and changes no other session that it
  -- leaves.
  pub prune_sessions_except-IsPruned :
      (limit : ℕ) (keep : Bytes) (s : Map X)
      → is_empty keep ≡ false
      → IsUnique s
      → (length (prune_sessions_except limit keep s) ≤ max 1 limit)
        × IsPruned keep s (prune_sessions_except limit keep s)
  unfolding prune_sessions_except
  prune_sessions_except-IsPruned limit keep s n u = (
    prune_rounds-length (length s) (max 1 limit) keep s n u (omega arith) (omega arith),
    prune_rounds-IsPruned (length s) (max 1 limit) keep s n u,
  )
