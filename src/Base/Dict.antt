-- ===== src/Base/Dict.antt =====
-- Maps keyed by texts, as association lists: a key stands at most once, since an insertion
-- replaces the entry in place and a removal takes the first one.
use Prim.Native.String.{String}
use mathlib.Core.Path.{◌≡◌, refl, subst}
use mathlib.Core.Logic.{◌≢◌}
use mathlib.Core.Option.{Option, none, some}
use mathlib.Core.List.{List, [], ◌∷◌}
use native.Mathlib.Omega.{arith}
use text.Mathlib.TextEquality.{eq_iff}
use evebox.Base.Tests.{str_eq, if◌then◌else◌}
use evebox.Base.Lists.{length}
use Prim.Native.Nat.{◌+◌, ◌≤◌}

module _ {ℓ} {V : Type ℓ} where
  -- The value of the first entry with the key.
  unfoldable pub lookup : String → List (String × V) → Option V
  lookup key [] = none
  lookup key ((name, value) ∷ entries) =
      let rest = lookup key entries in if str_eq name key then some value else rest

  unfoldable pub insert : String → V → List (String × V) → List (String × V)
  insert key value [] = (key, value) ∷ []
  insert key value ((name, old) ∷ entries) =
      let rest = insert key value entries in
      if str_eq name key then (key, value) ∷ entries else (name, old) ∷ rest

  unfoldable pub remove : String → List (String × V) → List (String × V)
  remove key [] = []
  remove key ((name, value) ∷ entries) =
      let rest = remove key entries in if str_eq name key then entries else (name, value) ∷ rest

  -- What an insertion changes: the entry of its own key.
  pub lookup-insert :
      (key asked : String) (value : V) (entries : List (String × V))
      → lookup asked (insert key value entries)
        ≡ (if str_eq key asked then some value else lookup asked entries)
  unfolding insert lookup
  lookup-insert key asked value [] = refl
  lookup-insert key asked value ((name, old) ∷ entries) =
      let tail = lookup-insert key asked value entries in
      ground (arith, tail, eq_iff name asked, eq_iff name key, eq_iff key asked)

  -- No entry of the map has the key.
  abbrev pub IsFresh : String → List (String × V) → Type 0
  IsFresh k [] = Unit
  IsFresh k ((j, _) ∷ m) = (j ≢ k) × IsFresh k m

  abbrev pub HasDistinctKeys : List (String × V) → Type 0
  HasDistinctKeys [] = Unit
  HasDistinctKeys ((j, _) ∷ m) = IsFresh j m × HasDistinctKeys m

  pub lookup_of_IsFresh : (k : String) (m : List (String × V)) → IsFresh k m → lookup k m ≡ none
  unfolding lookup
  lookup_of_IsFresh k [] h = refl
  lookup_of_IsFresh k ((j, v) ∷ m) h = ground (arith, eq_iff j k, lookup_of_IsFresh k m h.1)

  pub insert-IsFresh :
      (k j : String) (v : V) (m : List (String × V))
      → j ≢ k
      → IsFresh k m
      → IsFresh k (insert j v m)
  unfolding insert
  insert-IsFresh k j v [] ne h = (ne, tt)
  insert-IsFresh k j v ((i, w) ∷ m) ne h = ground (arith, eq_iff i j, insert-IsFresh k j v m ne h.1)

  pub insert-HasDistinctKeys :
      (k : String) (v : V) (m : List (String × V))
      → HasDistinctKeys m
      → HasDistinctKeys (insert k v m)
  unfolding insert
  insert-HasDistinctKeys k v [] h = (tt, tt)
  insert-HasDistinctKeys k v ((j, w) ∷ m) h = ground (
    arith,
    eq_iff j k,
    insert-HasDistinctKeys k v m h.1,
    λ (ne : k ≢ j). insert-IsFresh j k v m ne h.0,
  )

  pub length-insert-le :
      (k : String) (v : V) (m : List (String × V)) → length (insert k v m) ≤ length m + 1
  unfolding insert
  length-insert-le k v [] = omega arith
  length-insert-le k v ((j, w) ∷ m) = ground (arith, length-insert-le k v m)

  pub length-remove-le : (k : String) (m : List (String × V)) → length (remove k m) ≤ length m
  unfolding remove
  length-remove-le k [] = omega arith
  length-remove-le k ((j, w) ∷ m) = ground (arith, length-remove-le k m)

  pub remove-IsFresh : (k j : String) (m : List (String × V)) → IsFresh k m → IsFresh k (remove j m)
  unfolding remove
  remove-IsFresh k j [] h = tt
  remove-IsFresh k j ((i, w) ∷ m) h = ground (arith, remove-IsFresh k j m h.1)

  pub remove-HasDistinctKeys :
      (k : String) (m : List (String × V)) → HasDistinctKeys m → HasDistinctKeys (remove k m)
  unfolding remove
  remove-HasDistinctKeys k [] h = tt
  remove-HasDistinctKeys k ((j, w) ∷ m) h =
      ground (arith, remove-HasDistinctKeys k m h.1, remove-IsFresh j k m h.0)

  pub lookup-remove :
      (k j : String) (m : List (String × V))
      → HasDistinctKeys m
      → lookup j (remove k m) ≡ (if str_eq k j then none else lookup j m)
  unfolding lookup remove
  lookup-remove k j [] h = ground arith
  lookup-remove k j ((i, w) ∷ m) h = ground (
    arith,
    eq_iff k j,
    eq_iff i k,
    eq_iff i j,
    lookup-remove k j m h.1,
    λ (e : i ≡ j). lookup_of_IsFresh j m (subst (λ x. IsFresh x m) e h.0),
  )
