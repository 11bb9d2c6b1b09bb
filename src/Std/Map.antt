-- ===== src/Std/Map.antt =====
-- `std::unordered_map` with texts for keys, as a list of its entries.
use kagu_os.Prelude.{
  ℕ, ◌≡◌, refl, ◌⊎◌, inl, inr, Option, none, some, List, [], ◌∷◌, ◌++◌, arith, ◌==◌, if◌then◌else◌,
  Bool-cases,
}
use kagu_os.Std.Text.{Bytes, beq, beq_iff}

module _ {ℓ} {V : Type ℓ} where
  -- `m.find(key)`
  unfoldable pub lookup : Bytes → List (Bytes × V) → Option V
  lookup key [] = none
  lookup key ((k, v) ∷ m) = if beq k key then some v else lookup key m

  -- `m[key] = v`
  unfoldable pub insert : Bytes → V → List (Bytes × V) → List (Bytes × V)
  insert key v [] = (key, v) ∷ []
  insert key v ((k, w) ∷ m) = if beq k key then (key, v) ∷ m else (k, w) ∷ insert key v m

  pub lookup-insert :
      (key j : Bytes) (v : V) (m : List (Bytes × V))
      → lookup j (insert key v m) ≡ (if beq key j then some v else lookup j m)
  unfolding lookup insert
  lookup-insert key j v [] = refl
  lookup-insert key j v ((k, w) ∷ m) =
      ground (arith, beq_iff key j, beq_iff k key, beq_iff k j, lookup-insert key j v m)

  -- Where an entry of a map with one more entry comes from.
  pub lookup-insert_cases :
      (key j : Bytes) (v w : V) (m : List (Bytes × V))
      → lookup j (insert key v m) ≡ some w
      → (v ≡ w) × (key ≡ j) ⊎ (lookup j m ≡ some w)
  lookup-insert_cases key j v w m h = elim (Bool-cases (beq key j)) [
    | inl e ↦ inl (cc (rw (lookup-insert key j v m, e) at h), (beq_iff key j).0 e)
    | inr e ↦ inr (rw (lookup-insert key j v m, e) at h)
  ]

  pub lookup-append :
      (j : Bytes) (m n : List (Bytes × V))
      → lookup j (m ++ n) ≡ elim (lookup j m) [ none ↦ lookup j n | some v ↦ some v ]
  unfolding lookup
  lookup-append j [] n = refl
  lookup-append j ((k, v) ∷ m) n = ground (arith, lookup-append j m n)

  -- No key stands twice.
  abbrev pub NodupKeys : List (Bytes × V) → Type ℓ
  NodupKeys [] = Unit
  NodupKeys ((k, v) ∷ m) = (lookup k m ≡ none) × NodupKeys m

  pub append-NodupKeys :
      (m : List (Bytes × V)) (key : Bytes) (v : V)
      → NodupKeys m
      → lookup key m ≡ none
      → NodupKeys (m ++ (key, v) ∷ [])
  unfolding lookup
  append-NodupKeys [] key v h new = (refl, tt)
  append-NodupKeys ((k, w) ∷ m) key v (hk, h) new = (
    rw (lookup-append k m ((key, v) ∷ []), hk) (ground (arith, beq_iff k key, beq_iff key k)),
    append-NodupKeys m key v h (ground arith),
  )

-- The first name of a value in a table of names and values, whose numbers are given.
unfoldable pub name_of {ℓ} : {A : Type ℓ} → (A → ℕ) → ℕ → List (Bytes × A) → Option Bytes
name_of number n [] = none
name_of number n ((name, a) ∷ rest) = if number a == n then some name else name_of number n rest
