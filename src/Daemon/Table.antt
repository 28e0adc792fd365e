-- ===== src/Daemon/Table.antt =====
-- The part of sync.Map that pkg/daemon uses, as an association list.
use drover_runner.Base.{
  Bool-cases, inl, inr, Text, ◌==◌, eq_iff, List, [], ◌∷◌, if◌then◌else◌, Option, none, some, ◌≡◌,
  ◌≢◌, refl, arith,
}

-- Load, Store and Delete of sync.Map.
module _ {ℓ} {V : Type ℓ} where
  unfoldable pub load : Text → List (Text × V) → Option V
  load k [] = none
  load k ((j, v) ∷ m) = if j == k then some v else load k m

  unfoldable pub store : Text → V → List (Text × V) → List (Text × V)
  store k v [] = (k, v) ∷ []
  store k v ((j, w) ∷ m) = if j == k then (k, v) ∷ m else (j, w) ∷ store k v m

  unfoldable pub delete : Text → List (Text × V) → List (Text × V)
  delete k [] = []
  delete k ((j, w) ∷ m) = let rest = delete k m in if j == k then rest else (j, w) ∷ rest

module _ {ℓ} {V : Type ℓ} where
  pub load-store :
      (j k : Text) (v : V) (m : List (Text × V))
      → load j (store k v m) ≡ (if k == j then some v else load j m)
  unfolding load store
  load-store j k v [] = refl
  load-store j k v ((i, w) ∷ m) =
      ground (arith, eq_iff k j, eq_iff i k, eq_iff i j, load-store j k v m)

  pub load-delete :
      (j k : Text) (m : List (Text × V)) → load j (delete k m) ≡ (if k == j then none else load j m)
  unfolding load delete
  load-delete j k [] = ground arith
  load-delete j k ((i, w) ∷ m) =
      ground (arith, eq_iff k j, eq_iff i k, eq_iff i j, load-delete j k m)

  -- No key is listed twice.
  abbrev pub NodupKeys : List (Text × V) → Type ℓ
  NodupKeys [] = Unit
  NodupKeys ((k, v) ∷ m) = (load k m ≡ none) × NodupKeys m

  -- A predicate of all keys.
  abbrev pub AllKeys : (Text → Type 0) → List (Text × V) → Type 0
  AllKeys P [] = Unit
  AllKeys P ((k, v) ∷ m) = P k × AllKeys P m

  pub store-NodupKeys :
      (k : Text) (v : V) (m : List (Text × V)) → NodupKeys m → NodupKeys (store k v m)
  unfolding store load
  store-NodupKeys k v [] h = (refl, tt)
  store-NodupKeys k v ((i, w) ∷ m) (p, h) =
      ground (arith, eq_iff i k, eq_iff k i, load-store i k v m, store-NodupKeys k v m h)

  pub delete-NodupKeys : (k : Text) (m : List (Text × V)) → NodupKeys m → NodupKeys (delete k m)
  unfolding delete
  delete-NodupKeys k [] h = tt
  delete-NodupKeys k ((i, w) ∷ m) (p, h) =
      ground (arith, eq_iff i k, load-delete i k m, delete-NodupKeys k m h)

  pub store-AllKeys :
      (P : Text → Type 0) (k : Text) (v : V) (m : List (Text × V))
      → P k
      → AllKeys P m
      → AllKeys P (store k v m)
  unfolding store
  store-AllKeys P k v [] p h = (p, tt)
  store-AllKeys P k v ((i, w) ∷ m) p (q, h) = elim (Bool-cases (i == k)) [
    | inl same ↦ rw same (p, h)
    | inr other ↦ rw other (q, store-AllKeys P k v m p h)
  ]

  pub delete-AllKeys :
      (P : Text → Type 0) (k : Text) (m : List (Text × V)) → AllKeys P m → AllKeys P (delete k m)
  unfolding delete
  delete-AllKeys P k [] h = tt
  delete-AllKeys P k ((i, w) ∷ m) (q, h) = elim (Bool-cases (i == k)) [
    | inl same ↦ rw same (delete-AllKeys P k m h)
    | inr other ↦ rw other (q, delete-AllKeys P k m h)
  ]

  pub AllKeys-mono :
      (P Q : Text → Type 0)
      → ((k : Text) → P k → Q k)
      → (m : List (Text × V)) → AllKeys P m
      → AllKeys Q m
  AllKeys-mono P Q f [] h = tt
  AllKeys-mono P Q f ((k, v) ∷ m) (p, h) = (f k p, AllKeys-mono P Q f m h)

  -- A key that differs from all listed ones is not in the table.
  pub load_of_AllKeys : (k : Text) (m : List (Text × V)) → AllKeys (λ j. j ≢ k) m → load k m ≡ none
  unfolding load
  load_of_AllKeys k [] h = refl
  load_of_AllKeys k ((i, w) ∷ m) (p, h) = ground (arith, eq_iff i k, load_of_AllKeys k m h)
