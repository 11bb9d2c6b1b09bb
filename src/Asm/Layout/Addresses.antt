-- ===== src/Asm/Layout/Addresses.antt =====
-- Where the constants and the variables stand behind the layout.
use kagu_os.Prelude.{
  ℕ, zero, suc, ◌+◌, ◌≤◌, ◌<◌, ◌≡◌, refl, sym, ap, ◌∙◌, Option, none, some, List, [], ◌∷◌, arith,
  if◌then◌else◌, length, get_elem?,
}
use kagu_os.Std.Text.{Bytes, beq, beq_iff}
use kagu_os.Std.Map.{lookup, NodupKeys, insert, lookup-insert}
use kagu_os.Asm.State.{ConstantInfo, VariableInfo, LabelInfo}
use kagu_os.Asm.Layout.{
  place_constants, place_ordered, place_variables, resolve_constant, resolve_constants, Bytes,
  lookup, insert,
}

module _ (labels : List (Bytes × LabelInfo)) where
  pub length-resolve_constants :
      (cs : List ConstantInfo) → length (resolve_constants labels cs) ≡ length cs
  unfolding resolve_constants
  length-resolve_constants [] = refl
  length-resolve_constants (ci ∷ cs) = ap suc (length-resolve_constants cs)

  pub get_elem?-resolve_constants :
      (cs : List ConstantInfo) (i : ℕ) (ci : ConstantInfo)
      → get_elem? cs i ≡ some ci
      → get_elem? (resolve_constants labels cs) i ≡ some (resolve_constant labels ci)
  unfolding resolve_constants
  get_elem?-resolve_constants [] i ci h = cc
  get_elem?-resolve_constants (d ∷ cs) zero ci h = cc
  get_elem?-resolve_constants (d ∷ cs) (suc i) ci h = get_elem?-resolve_constants cs i ci h

pub length-place_constants :
    (s : ℕ) (cs : List ConstantInfo) → length (place_constants s cs) ≡ length cs
unfolding place_constants
length-place_constants s [] = refl
length-place_constants s (ci ∷ cs) = ap suc (length-place_constants (s + 1) cs)

pub get_elem?-place_constants :
    (s : ℕ) (cs : List ConstantInfo) (i : ℕ) (ci : ConstantInfo)
    → get_elem? cs i ≡ some ci
    → get_elem? (place_constants s cs) i ≡ some (record ci { address = s + i })
unfolding place_constants
get_elem?-place_constants s [] i ci h = cc
get_elem?-place_constants s (d ∷ cs) zero ci h = ground arith
get_elem?-place_constants s (d ∷ cs) (suc i) ci h =
    get_elem?-place_constants (s + 1) cs i ci h
    ∙ ap (λ a. some (record ci { address = a })) (shift s i)
  where
    shift : (s i : ℕ) → s + 1 + i ≡ s + suc i
    shift s i = omega arith

pub length-place_ordered :
    (s : ℕ) (vs : List (Bytes × VariableInfo)) → length (place_ordered s vs) ≡ length vs
unfolding place_ordered
length-place_ordered s [] = refl
length-place_ordered s ((name, vi) ∷ vs) = ap suc (length-place_ordered (s + 1) vs)

-- A placed variable lies in the room of its table.
pub place_ordered_bounds :
    (s : ℕ) (vs : List (Bytes × VariableInfo)) (name : Bytes) (vi : VariableInfo)
    → lookup name (place_ordered s vs) ≡ some vi
    → (s ≤ vi.address) × (vi.address < s + length vs)
unfolding place_ordered lookup
place_ordered_bounds s [] name vi h = cc
place_ordered_bounds s ((k, w) ∷ vs) name vi h =
    ground (arith, place_ordered_bounds (s + 1) vs name vi)

place_ordered-none :
    (s : ℕ) (vs : List (Bytes × VariableInfo)) (name : Bytes)
    → lookup name vs ≡ none
    → lookup name (place_ordered s vs) ≡ none
unfolding place_ordered lookup
place_ordered-none s [] name h = refl
place_ordered-none s ((k, w) ∷ vs) name h = ground (arith, place_ordered-none (s + 1) vs name)

-- The address of what a table holds for a name.
abbrev pub address_of : Option VariableInfo → Option ℕ
address_of none = none
address_of (some vi) = some vi.address

-- The address that the second table gives, or else that of the first.
abbrev pub either_address : Option VariableInfo → Option VariableInfo → Option ℕ
either_address none old = address_of old
either_address (some vi) old = some vi.address

either_insert :
    (k name : Bytes) (vi w : VariableInfo) (placed : Option VariableInfo)
    (variables : List (Bytes × VariableInfo))
    → vi.address ≡ w.address
    → (k ≡ name → placed ≡ none)
    → either_address placed (lookup name (insert k vi variables))
      ≡ either_address (if beq k name then some w else placed) (lookup name variables)
either_insert k name vi w placed variables same h =
    rw (lookup-insert k name vi variables) (ground (arith, h, beq_iff k name))

-- The addresses that the two tables give a variable are the same one.
pub place_agree :
    (s : ℕ) (vs variables : List (Bytes × VariableInfo)) (name : Bytes)
    → NodupKeys vs
    → address_of (lookup name (place_variables s vs variables))
      ≡ either_address (lookup name (place_ordered s vs)) (lookup name variables)
unfolding place_variables place_ordered lookup
place_agree s [] variables name h = refl
place_agree s ((k, w) ∷ vs) variables name (hk, h) =
    place_agree (s + 1) vs _ name h
    ∙ either_insert k name _ _ (lookup name (place_ordered (s + 1) vs)) variables refl
        (λ e. place_ordered-none (s + 1) vs name (ap (λ n. lookup n vs) (sym e) ∙ hk))

placed_or_new :
    (s : ℕ) (vs : List (Bytes × VariableInfo)) (name : Bytes)
    → lookup name (place_ordered s vs) ≡ none
    → lookup name vs ≡ none
unfolding place_ordered lookup
placed_or_new s [] name h = refl
placed_or_new s ((k, w) ∷ vs) name h = ground (arith, placed_or_new (s + 1) vs name)

either_bounds :
    (s : ℕ) (vs : List (Bytes × VariableInfo)) (name : Bytes) (a : ℕ) (old : Option VariableInfo)
    (placed : Option VariableInfo)
    → lookup name (place_ordered s vs) ≡ placed
    → (placed ≡ none → old ≡ none)
    → some a ≡ either_address placed old
    → (s ≤ a) × (a < s + length vs)
either_bounds s vs name a old none at new is = ground (arith, new refl)
either_bounds s vs name a old (some w) at new is =
    ground (arith, place_ordered_bounds s vs name w at)

-- A variable lies in the room of its table, where both tables have the same names.
pub place_variables_bounds :
    (s : ℕ) (vs variables : List (Bytes × VariableInfo)) (name : Bytes) (vi : VariableInfo)
    → NodupKeys vs
    → lookup name variables ≡ lookup name vs
    → lookup name (place_variables s vs variables) ≡ some vi
    → (s ≤ vi.address) × (vi.address < s + length vs)
place_variables_bounds s vs variables name vi once agree h =
    either_bounds s vs name vi.address (lookup name variables) (lookup name (place_ordered s vs))
      refl (λ e. agree ∙ placed_or_new s vs name e)
      (sym (ap address_of h) ∙ place_agree s vs variables name once)

-- Two names with one address in a placed table are one name.
place_ordered-injective :
    (s : ℕ) (vs : List (Bytes × VariableInfo)) (x y : Bytes) (vi wi : VariableInfo)
    → lookup x (place_ordered s vs) ≡ some vi
    → lookup y (place_ordered s vs) ≡ some wi
    → vi.address ≡ wi.address
    → x ≡ y
unfolding place_ordered lookup
place_ordered-injective s [] x y vi wi hx hy same = cc
place_ordered-injective s ((k, w) ∷ vs) x y vi wi hx hy same = ground (
  arith,
  beq_iff k x,
  beq_iff k y,
  place_ordered_bounds (s + 1) vs x vi,
  place_ordered_bounds (s + 1) vs y wi,
  place_ordered-injective (s + 1) vs x y vi wi,
)

either_placed :
    (a : ℕ) (old placed : Option VariableInfo)
    → (placed ≡ none → old ≡ none)
    → some a ≡ either_address placed old
    → (w : VariableInfo) × (placed ≡ some w) × (w.address ≡ a)
either_placed a old none new is = absurd (ground (arith, new refl))
either_placed a old (some w) new is = (w, refl, ground (arith, is))

placed_at :
    (s : ℕ) (vs variables : List (Bytes × VariableInfo)) (name : Bytes) (vi : VariableInfo)
    → NodupKeys vs
    → lookup name variables ≡ lookup name vs
    → lookup name (place_variables s vs variables) ≡ some vi
    → (w : VariableInfo) × (lookup name (place_ordered s vs) ≡ some w) × (w.address ≡ vi.address)
placed_at s vs variables name vi once agree h =
    either_placed vi.address (lookup name variables) (lookup name (place_ordered s vs))
      (λ e. agree ∙ placed_or_new s vs name e)
      (sym (ap address_of h) ∙ place_agree s vs variables name once)

-- Two variables with one address are one variable, where both tables have the same names.
pub place_variables-injective :
    (s : ℕ) (vs variables : List (Bytes × VariableInfo)) (x y : Bytes) (vi wi : VariableInfo)
    → NodupKeys vs
    → ((name : Bytes) → lookup name variables ≡ lookup name vs)
    → lookup x (place_variables s vs variables) ≡ some vi
    → lookup y (place_variables s vs variables) ≡ some wi
    → vi.address ≡ wi.address
    → x ≡ y
place_variables-injective s vs variables x y vi wi once agree hx hy same =
    let (v, atx, isx) = placed_at s vs variables x vi once (agree x) hx in
    let (w, aty, isy) = placed_at s vs variables y wi once (agree y) hy in
    place_ordered-injective s vs x y v w atx aty (isx ∙ same ∙ sym isy)
