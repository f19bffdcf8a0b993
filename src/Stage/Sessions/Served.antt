-- ===== src/Stage/Sessions/Served.antt =====
-- What `session_for_request` promises.
use distributed_layer_infere.Common.{
  ℕ, ◌≤◌, ◌≡◌, ◌⊎◌, inl, inr, refl, ◌∙◌, Bool, true, false, Option, none, some, max, ◌∷◌, arith,
  length, if◌then◌else◌, Bool-cases, Bytes, eqb, eqb_refl, is_empty, Result, ok, err, sym, [],
}
use distributed_layer_infere.Stage.{RuntimeRequest, LlamaRequestSession, RuntimeError}
use distributed_layer_infere.Stage.Sessions.{
  Map, find, erase, session_key, restarts, fresh_session, found_or_emplaced, session_for_request,
  pruned, prune_sessions_except,
}
use distributed_layer_infere.Stage.Sessions.Lookups.{
  IsUnique, find-erase, find-erase_other, erase-IsUnique,
}
use distributed_layer_infere.Stage.Sessions.Kept.{prune_sessions_except-IsPruned}

session_key_nonempty : (request : RuntimeRequest) → is_empty (session_key request) ≡ false
unfolding session_key
session_key_nonempty request = ground arith

module _ {X : Type 0} where
  -- A rehash moves entries and neither adds, drops nor changes one.
  pub record IsRehash (rehash : Map X → Map X) : Type 0 where
    pub finds : (j : Bytes) (s : Map X) → IsUnique s → find j (rehash s) ≡ find j s
    pub unique : (s : Map X) → IsUnique s → IsUnique (rehash s)

  -- The new session of an executor that could be constructed.
  abbrev pub IsFresh : Result RuntimeError X → LlamaRequestSession X → Type 0
  IsFresh made session = (executor : X) × (made ≡ ok executor) × (session ≡ fresh_session executor)

  -- What a call that returns a session leaves and returns.
  pub record IsServed (limit : ℕ) (made : Result RuntimeError X) (request : RuntimeRequest)
      (s after : Map X) (session : LlamaRequestSession X) : Type 0 where
    pub size : length after ≤ max 1 limit
    pub found : find (session_key request) after ≡ some session
    pub restarted : restarts request ≡ true → IsFresh made session
    pub first : find (session_key request) s ≡ none → IsFresh made session
    pub continued :
        (old : LlamaRequestSession X)
        → restarts request ≡ false
        → find (session_key request) s ≡ some old
        → session ≡ old
    pub others :
        (j : Bytes)
        → eqb (session_key request) j ≡ false
        → (find j after ≡ none) ⊎ (find j after ≡ find j s)
    pub unique : IsUnique after

  -- What a call that throws leaves.
  pub record IsRefused (made : Result RuntimeError X) (request : RuntimeRequest) (s after : Map X)
      (e : RuntimeError) : Type 0 where
    pub thrown : made ≡ err e
    pub needed : (restarts request ≡ true) ⊎ (find (session_key request) s ≡ none)
    pub gone : find (session_key request) after ≡ none
    pub others : (j : Bytes) → eqb (session_key request) j ≡ false → find j after ≡ find j s
    pub shorter : length after ≤ length s
    pub unique : IsUnique after

  abbrev pub IsOutcome :
      ℕ
      → Result RuntimeError X
      → RuntimeRequest
      → Map X
      → Map X × Result RuntimeError (LlamaRequestSession X)
      → Type 0
  IsOutcome limit made request s (after, ok session) = IsServed limit made request s after session
  IsOutcome limit made request s (after, err e) = IsRefused made request s after e

  -- The map before the lookup: the old session is gone if the request restarts it.
  abbrev pub before_lookup : RuntimeRequest → Map X → Map X
  before_lookup request s = if restarts request then erase (session_key request) s else s

  before-IsUnique :
      (request : RuntimeRequest) (s : Map X) → IsUnique s → IsUnique (before_lookup request s)
  before-IsUnique request s u = elim (Bool-cases (restarts request)) [
    | inl y ↦ rw y (erase-IsUnique (session_key request) s u)
    | inr n ↦ rw n u
  ]

  before_others :
      (request : RuntimeRequest) (s : Map X) (j : Bytes)
      → eqb (session_key request) j ≡ false
      → find j (before_lookup request s) ≡ find j s
  before_others request s j h = elim (Bool-cases (restarts request)) [
    | inl y ↦ rw y (find-erase_other j (session_key request) s h)
    | inr n ↦ rw n refl
  ]

  before_own :
      (request : RuntimeRequest) (s : Map X)
      → find (session_key request) (before_lookup request s)
        ≡ (if restarts request then none else find (session_key request) s)
  before_own request s = elim (Bool-cases (restarts request)) [
    | inl y ↦ rw y (find-erase (session_key request) s)
    | inr n ↦ rw n refl
  ]

  erase-length : (k : Bytes) (s : Map X) → length (erase k s) ≤ length s
  unfolding erase
  erase-length k [] = omega arith
  erase-length k (e ∷ es) = ground (arith, erase-length k es)

  before_shorter :
      (request : RuntimeRequest) (s : Map X) → length (before_lookup request s) ≤ length s
  before_shorter request s = elim (Bool-cases (restarts request)) [
    | inl y ↦ rw y (erase-length (session_key request) s)
    | inr n ↦ rw n (omega arith)
  ]

  none_if :
      (b : Bool) {o : Option (LlamaRequestSession X)} → o ≡ none → (if b then none else o) ≡ none
  none_if true e = refl
  none_if false e = e

  none_from :
      (b : Bool) (o : Option (LlamaRequestSession X))
      → (if b then none else o) ≡ none
      → (b ≡ true) ⊎ (o ≡ none)
  none_from true o e = inl refl
  none_from false o e = inr e

  module _ (rehash : Map X → Map X) (ordered : IsRehash rehash) (limit : ℕ)
      (made : Result RuntimeError X) (request : RuntimeRequest) (s : Map X) (u : IsUnique s) where
    abbrev key : Bytes
    key = session_key request

    abbrev before : Map X
    before = before_lookup request s

    -- The map that holds the session, before it is pruned.
    record IsHeld (held : Map X) (session : LlamaRequestSession X) : Type 0 where
      found : find key held ≡ some session
      others : (j : Bytes) → eqb key j ≡ false → find j held ≡ find j before
      unique : IsUnique held

    added-IsHeld :
        (executor : X)
        → find key before ≡ none
        → IsHeld
            (rehash (record { key = key; session = fresh_session executor } ∷ before))
            (fresh_session executor)
    unfolding find
    added-IsHeld executor e =
        let added : Map X = record { key = key; session = fresh_session executor } ∷ before in
        let unique : IsUnique added = (e, before-IsUnique request s u) in
        record {
          found = ordered.finds key added unique ∙ rw (eqb_refl key) refl;
          others = λ j h. ordered.finds j added unique ∙ rw h refl;
          unique = ordered.unique added unique;
        }

    held-IsServed :
        (held : Map X) (session : LlamaRequestSession X)
        → IsHeld held session
        → (restarts request ≡ true → IsFresh made session)
        → (find key s ≡ none → IsFresh made session)
        → ((old : LlamaRequestSession X)
            → restarts request ≡ false
            → find key s ≡ some old
            → session ≡ old)
        → IsServed limit made request s (prune_sessions_except limit key held) session
    held-IsServed held session h restarted first continued =
        let (size, kept) =
          prune_sessions_except-IsPruned limit key held (session_key_nonempty request) h.unique in
        record {
          size = size;
          found = kept.kept ∙ h.found;
          restarted = restarted;
          first = first;
          continued = continued;
          others = λ j n. elim (kept.others j) [
            | inl e ↦ inl e
            | inr e ↦ inr (e ∙ h.others j n ∙ before_others request s j n)
          ];
          unique = kept.unique;
        }

    own_none : find key s ≡ none → find key before ≡ none
    own_none e = before_own request s ∙ none_if (restarts request) e

    own_restarted : restarts request ≡ true → find key before ≡ none
    own_restarted y = before_own request s ∙ rw y refl

    own_continued :
        (old : LlamaRequestSession X)
        → restarts request ≡ false
        → find key s ≡ some old
        → find key before ≡ some old
    own_continued old n e = before_own request s ∙ rw (n, e) refl

    looked_up-IsOutcome :
        (o : Option (LlamaRequestSession X)) (m : Result RuntimeError X)
        → find key before ≡ o
        → made ≡ m
        → IsOutcome limit made request s
            (pruned limit key (found_or_emplaced rehash m key before o))
    looked_up-IsOutcome (some session) m e g =
        held-IsServed before session
          (record { found = e; others = λ j h. refl; unique = before-IsUnique request s u })
          (λ y. let absent = own_restarted y in absurd (cc))
          (λ y. let absent = own_none y in absurd (cc))
          (λ old n f. let same = own_continued old n f in cc)
    looked_up-IsOutcome none (ok executor) e g =
        held-IsServed _ (fresh_session executor) (added-IsHeld executor e)
          (λ y. (executor, g, refl)) (λ y. (executor, g, refl))
          (λ old n f. let same = own_continued old n f in absurd (cc))
    looked_up-IsOutcome none (err x) e g = record {
      thrown = g;
      needed = none_from (restarts request) (find key s) (sym (before_own request s) ∙ e);
      gone = e;
      others = λ j n. before_others request s j n;
      shorter = before_shorter request s;
      unique = before-IsUnique request s u;
    }

    -- `session_for_request`, on a map with unique keys and for any order that a rehash may give. If
    -- it returns, the session is the one the map then holds for the request's key; it is a fresh
    -- one if the request is a prefill at token 0 or the key was not in the map, and the stored one
    -- otherwise; the map has at most max(1, limit) sessions, and every other key finds what it found
    -- before or nothing. If it throws, then because a new session was needed and the executor's
    -- constructor threw; the map then has no session for the key, not even the old one, and every
    -- other key finds what it found before. The keys are still unique in both cases.
    pub session_for_request-IsOutcome :
        IsOutcome limit made request s (session_for_request rehash limit made request s)
    unfolding session_for_request
    session_for_request-IsOutcome = looked_up-IsOutcome (find key before) made refl refl
