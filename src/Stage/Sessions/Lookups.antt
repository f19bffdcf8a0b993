-- ===== src/Stage/Sessions/Lookups.antt =====
-- Lookups in the session map, and the invariant that its keys differ.
use distributed_layer_infere.Common.{
  ◌≤◌, ◌≡◌, refl, false, none, [], ◌∷◌, arith, length, Bytes, eqb, eqb→eq,
}
use distributed_layer_infere.Stage.Sessions.{Map, find, erase}

-- No two entries have the same key.
abbrev pub IsUnique : {X : Type 0} → Map X → Type 0
IsUnique [] = Unit {0}
IsUnique (e ∷ es) = (find e.key es ≡ none) × IsUnique es

-- Two keys are not equal if the test says so.
module _ {X : Type 0} where
  pub find-erase : (k : Bytes) (s : Map X) → find k (erase k s) ≡ none
  unfolding find erase
  find-erase k [] = refl
  find-erase k (e ∷ es) = ground (arith, find-erase k es)

  pub find-erase_other : (j k : Bytes) (s : Map X) → eqb k j ≡ false → find j (erase k s) ≡ find j s
  unfolding find erase
  find-erase_other j k [] h = refl
  find-erase_other j k (e ∷ es) h =
      ground (arith, find-erase_other j k es h, eqb→eq e.key k, eqb→eq e.key j)

  pub erase_absent : (j k : Bytes) (s : Map X) → find j s ≡ none → find j (erase k s) ≡ none
  unfolding find erase
  erase_absent j k [] h = refl
  erase_absent j k (e ∷ es) h = ground (arith, erase_absent j k es)

  pub erase-IsUnique : (k : Bytes) (s : Map X) → IsUnique s → IsUnique (erase k s)
  unfolding erase
  erase-IsUnique k [] u = tt
  erase-IsUnique k (e ∷ es) u = ground (arith, erase_absent e.key k es, erase-IsUnique k es)

  pub erase-length : (k : Bytes) (s : Map X) → length (erase k s) ≤ length s
  unfolding erase
  erase-length k [] = omega arith
  erase-length k (e ∷ es) = ground (arith, erase-length k es)
