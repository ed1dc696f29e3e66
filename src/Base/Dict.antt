-- ===== src/Base/Dict.antt =====
-- A hash map as an association list. The order of the entries stands for the iteration order, which
-- the library leaves open.
use mathlib.Core.Logic.{ite, if_pos, if_neg, ◌≢◌}
use mathlib.Core.Path.{◌≡◌, refl, sym, ap, subst, ◌∙◌}
use mathlib.Core.Bool.{Bool}
use mathlib.Core.Option.{Option, none, some}
use mathlib.Core.List.{List, [], ◌∷◌}
use arrow_client.Base.Tests.{is_some}

abbrev pub Dict {ℓ κ} : Type ℓ → Type κ → Type (ℓ ⊔ κ)
Dict K V = List (K × V)

module _ {ℓ κ} {K : Type ℓ} {V : Type κ} (d : Discrete K) where
  unfoldable pub lookup : K → Dict K V → Option V
  lookup k [] = none
  lookup k ((j, v) ∷ m) = ite (d j k) (some v) (lookup k m)

  abbrev pub contains_key : K → Dict K V → Bool
  contains_key k m = is_some (lookup k m)

  -- `HashMap::insert` replaces the value of a key that is there.
  unfoldable pub insert : K → V → Dict K V → Dict K V
  insert k v [] = (k, v) ∷ []
  insert k v ((j, w) ∷ m) = ite (d j k) ((k, v) ∷ m) ((j, w) ∷ insert k v m)

  unfoldable pub remove : K → Dict K V → Dict K V
  remove k [] = []
  remove k ((j, w) ∷ m) = ite (d j k) (remove k m) ((j, w) ∷ remove k m)

  -- A step of `lookup`, on either answer of the test.
  pub lookup_hit : (k j : K) (v : V) (m : Dict K V) → j ≡ k → lookup k ((j, v) ∷ m) ≡ some v
  unfolding lookup
  lookup_hit k j v m e = if_pos (d j k) e (some v) (lookup k m)

  pub lookup_miss : (k j : K) (v : V) (m : Dict K V) → j ≢ k → lookup k ((j, v) ∷ m) ≡ lookup k m
  unfolding lookup
  lookup_miss k j v m n = if_neg (d j k) n (some v) (lookup k m)

  lookup_cons :
      (k j : K) (v : V) (m m' : Dict K V)
      → lookup k m ≡ lookup k m'
      → lookup k ((j, v) ∷ m) ≡ lookup k ((j, v) ∷ m')
  unfolding lookup
  lookup_cons k j v m m' e = ap (λ o. ite (d j k) (some v) o) e

  pub lookup-insert_self : (k : K) (v : V) (m : Dict K V) → lookup k (insert k v m) ≡ some v
  unfolding insert
  lookup-insert_self k v [] = lookup_hit k k v [] refl
  lookup-insert_self k v ((j, w) ∷ m) = elim (d j k) [
    | yes e ↦ rw (if_pos (d j k) e) (lookup_hit k k v m refl)
    | no n ↦ rw (if_neg (d j k) n) (lookup_miss k j w (insert k v m) n ∙ lookup-insert_self k v m)
  ]

  pub lookup-insert_ne :
      (k l : K) (v : V) (m : Dict K V) → k ≢ l → lookup l (insert k v m) ≡ lookup l m
  unfolding insert
  lookup-insert_ne k l v [] n = lookup_miss l k v [] n
  lookup-insert_ne k l v ((j, w) ∷ m) n = elim (d j k) [
    | yes e ↦
        rw (if_pos (d j k) e)
          (lookup_miss l k v m n ∙ sym (lookup_miss l j w m (λ q. n (sym e ∙ q))))
    | no o ↦ rw (if_neg (d j k) o) (lookup_cons l j w _ _ (lookup-insert_ne k l v m n))
  ]

  pub lookup-remove_self : (k : K) (m : Dict K V) → lookup k (remove k m) ≡ none
  unfolding remove lookup
  lookup-remove_self k [] = refl
  lookup-remove_self k ((j, w) ∷ m) = elim (d j k) [
    | yes e ↦ subst (λ t. lookup k t ≡ none) (sym (if_pos (d j k) e _ _)) (lookup-remove_self k m)
    | no n ↦
        subst (λ t. lookup k t ≡ none) (sym (if_neg (d j k) n _ _))
          (lookup_miss k j w (remove k m) n ∙ lookup-remove_self k m)
  ]

  pub lookup-remove_ne : (k l : K) (m : Dict K V) → k ≢ l → lookup l (remove k m) ≡ lookup l m
  unfolding remove lookup
  lookup-remove_ne k l [] n = refl
  lookup-remove_ne k l ((j, w) ∷ m) n = elim (d j k) [
    | yes e ↦
        subst (λ t. lookup l t ≡ lookup l ((j, w) ∷ m)) (sym (if_pos (d j k) e _ _))
          (lookup-remove_ne k l m n ∙ sym (lookup_miss l j w m (λ q. n (sym e ∙ q))))
    | no o ↦
        subst (λ t. lookup l t ≡ lookup l ((j, w) ∷ m)) (sym (if_neg (d j k) o _ _))
          (lookup_cons l j w (remove k m) m (lookup-remove_ne k l m n))
  ]
