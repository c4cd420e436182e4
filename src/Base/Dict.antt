-- ===== src/Base/Dict.antt =====
-- Python's `dict` with text keys, in insertion order: an assignment to a key that is there keeps
-- the key's place, and a new key goes to the end.
use Prim.Native.Nat.{suc, ◌≤◌}
use Prim.Native.String.{String}
use mathlib.Core.Path.{◌≡◌, refl, sym, subst, subst₂}
use mathlib.Core.Bool.{Bool, true}
use mathlib.Core.Option.{Option, none, some}
use mathlib.Core.List.{List, [], ◌∷◌}
use native.Mathlib.Omega.{arith}
use text.Mathlib.Text.{◌==◌}
use text.Mathlib.TextEquality.{eq_iff}
use tristar.Base.Tests.{if◌then◌else◌, is_some, Bool-cases}
use mathlib.Core.Logic.{inl, inr}
use tristar.Base.Lists.{length, All}
use text.Mathlib.TextPositions.{eq_refl}

abbrev pub Dict {ℓ} : Type ℓ → Type ℓ
Dict V = List (String × V)

module _ {ℓ} {V : Type ℓ} where
  -- `d.get(k)`
  unfoldable pub lookup : String → Dict V → Option V
  lookup k [] = none
  lookup k ((j, v) ∷ d) = if j == k then some v else lookup k d

  -- `k in d`
  abbrev pub contains : String → Dict V → Bool
  contains k d = is_some (lookup k d)

  -- `d[k] = v`
  unfoldable pub insert : String → V → Dict V → Dict V
  insert k v [] = (k, v) ∷ []
  insert k v ((j, w) ∷ d) = if j == k then (j, v) ∷ d else (j, w) ∷ insert k v d

  -- `del d[k]`
  unfoldable pub erase : String → Dict V → Dict V
  erase k [] = []
  erase k ((j, w) ∷ d) = let rest = erase k d in if j == k then rest else (j, w) ∷ rest

  -- `list(d.values())`
  abbrev pub values : Dict V → List V
  values [] = []
  values ((_, v) ∷ d) = v ∷ values d

  pub lookup-insert :
      (k j : String) (v : V) (d : Dict V)
      → lookup j (insert k v d) ≡ (if k == j then some v else lookup j d)
  unfolding lookup insert
  lookup-insert k j v [] = refl
  lookup-insert k j v ((i, w) ∷ d) =
      ground (arith, eq_iff k j, eq_iff i k, eq_iff i j, lookup-insert k j v d)

  pub lookup-erase :
      (k j : String) (d : Dict V) → lookup j (erase k d) ≡ (if k == j then none else lookup j d)
  unfolding lookup erase
  lookup-erase k j [] = ground arith
  lookup-erase k j ((i, w) ∷ d) =
      ground (arith, lookup-erase k j d, eq_iff i k, eq_iff i j, eq_iff k j)

  pub length-insert_old :
      (k : String) (v : V) (d : Dict V) → contains k d ≡ true → length (insert k v d) ≡ length d
  unfolding lookup insert
  length-insert_old k v [] h = ground arith
  length-insert_old k v ((i, w) ∷ d) h = ground (arith, length-insert_old k v d)

  pub length-insert-le : (k : String) (v : V) (d : Dict V) → length (insert k v d) ≤ suc (length d)
  unfolding insert
  length-insert-le k v [] = omega arith
  length-insert-le k v ((i, w) ∷ d) = ground (arith, length-insert-le k v d)

  pub length-erase-le : (k : String) (d : Dict V) → length (erase k d) ≤ length d
  unfolding erase
  length-erase-le k [] = omega arith
  length-erase-le k ((i, w) ∷ d) = ground (arith, length-erase-le k d)

module _ {ℓ} {V : Type ℓ} where
  -- No key twice, as in every dict.
  abbrev pub IsDict : Dict V → Type ℓ
  IsDict [] = Unit
  IsDict ((k, v) ∷ d) = (lookup k d ≡ none) × IsDict d

  pub erase-IsDict : (j : String) (d : Dict V) → IsDict d → IsDict (erase j d)
  unfolding erase
  erase-IsDict j [] h = tt
  erase-IsDict j ((k, v) ∷ d) h = ground (arith, erase-IsDict j d h.1, lookup-erase j k d)

  pub insert-IsDict : (j : String) (u : V) (d : Dict V) → IsDict d → IsDict (insert j u d)
  unfolding insert lookup
  insert-IsDict j u [] h = (refl, tt)
  insert-IsDict j u ((k, v) ∷ d) h =
      ground (arith, insert-IsDict j u d h.1, lookup-insert j k u d, eq_iff k j, eq_iff j k)

  -- Every entry of a dict is found under its key.
  pub entries-lookup : (d : Dict V) → IsDict d → All (λ e. lookup e.0 d ≡ some e.1) d
  unfolding lookup
  entries-lookup [] h = tt
  entries-lookup ((k, v) ∷ d) h = (rw eq_refl, later d h.1 (entries-lookup d h.1))
    where
      later :
          (es : Dict V)
          → IsDict es
          → All (λ e. lookup e.0 d ≡ some e.1) es
          → All (λ e. lookup e.0 ((k, v) ∷ d) ≡ some e.1) es
      later [] i a = tt
      later ((j, w) ∷ es) i a = (ground (arith, eq_iff k j, a.0, h.0), later es i.1 a.1)

module _ {ℓ κ} {V : Type ℓ} (Q : String → V → Type κ) where
  pub insert-All :
      (k : String) (v : V) (d : Dict V)
      → Q k v
      → All (λ e. Q e.0 e.1) d
      → All (λ e. Q e.0 e.1) (insert k v d)
  unfolding insert
  insert-All k v [] q h = (q, tt)
  insert-All k v ((j, w) ∷ d) q h = elim (Bool-cases (j == k)) [
    | inl same ↦ rw same (subst (λ i. Q i v) (sym ((eq_iff j k).0 same)) q, h.1)
    | inr other ↦ rw other (h.0, insert-All k v d q h.1)
  ]

  pub erase-All :
      (k : String) (d : Dict V) → All (λ e. Q e.0 e.1) d → All (λ e. Q e.0 e.1) (erase k d)
  unfolding erase
  erase-All k [] h = tt
  erase-All k ((j, w) ∷ d) h = elim (Bool-cases (j == k)) [
    | inl same ↦ rw same (erase-All k d h.1)
    | inr other ↦ rw other (h.0, erase-All k d h.1)
  ]

  pub lookup-All :
      (k : String) {v : V} (d : Dict V) → All (λ e. Q e.0 e.1) d → lookup k d ≡ some v → Q k v
  unfolding lookup
  lookup-All k [] h e = cc
  lookup-All k {v} ((j, w) ∷ d) h e = elim (Bool-cases (j == k)) [
    | inl same ↦
        let w_is_v : w ≡ v = ground (arith, same) in subst₂ Q ((eq_iff j k).0 same) w_is_v h.0
    | inr other ↦ lookup-All k d h.1 (ground (arith, other))
  ]

module _ {ℓ κ} {V : Type ℓ} (P : V → Type κ) where
  pub values-All : (d : Dict V) → All (λ e. P e.1) d → All P (values d)
  values-All [] h = tt
  values-All ((k, v) ∷ d) h = (h.0, values-All d h.1)

pub ruleset dict_laws = (lookup-insert, lookup-erase)
