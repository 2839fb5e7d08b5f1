-- ===== src/BetMaker/Database/Rows.antt =====
-- Lemmas on tables: primary keys, and that updating by the ids of selected rows is updating the rows.
use mathlib.Core.Path.{ap₂}
use mathlib.Core.Bool.{Bool-set}
use mathlib.Core.Logic.{∥∥₁_elim}
use mathlib.Core.List.{Perm, Permᴰ}
use native.Mathlib.Nat.{ℕ_set}
use bsw.Common.{
  ℕ, ◌≡◌, refl, ◌∙◌, Bool, true, false, List, [], ◌∷◌, map, if◌then◌else◌, filter, contains, length,
  arith,
}
use bsw.BetMaker.Models.{Bet}

-- `[b.id for b in bets]`
abbrev pub ids : List Bet → List ℕ
ids = map (λ b. b.id)

-- The primary key.
abbrev pub HasUniqueIds : List Bet → Type 0
HasUniqueIds [] = Unit
HasUniqueIds (b ∷ t) = (contains b.id (ids t) ≡ false) × HasUniqueIds t

contains-permᴰ :
    (i : ℕ) {xs ys : List Bet} → Permᴰ xs ys → contains i (ids xs) ≡ contains i (ids ys)
contains-permᴰ i Permᴰ.nil = refl
contains-permᴰ i (Permᴰ.cons e p) = ground (arith, contains-permᴰ i p)
contains-permᴰ i (Permᴰ.swap e f) = ground arith
contains-permᴰ i (Permᴰ.trans p q) = contains-permᴰ i p ∙ contains-permᴰ i q

length-permᴰ : {xs ys : List Bet} → Permᴰ xs ys → length xs ≡ length ys
length-permᴰ Permᴰ.nil = refl
length-permᴰ (Permᴰ.cons e p) = omega (arith, length-permᴰ p)
length-permᴰ (Permᴰ.swap e f) = refl
length-permᴰ (Permᴰ.trans p q) = length-permᴰ p ∙ length-permᴰ q

pub contains-perm :
    (i : ℕ) {xs ys : List Bet} → Perm xs ys → contains i (ids xs) ≡ contains i (ids ys)
contains-perm i p = ∥∥₁_elim p (Bool-set _ _) (contains-permᴰ i)

pub length-perm : {xs ys : List Bet} → Perm xs ys → length xs ≡ length ys
length-perm p = ∥∥₁_elim p (ℕ_set _ _) length-permᴰ

pub length-ids : (xs : List Bet) → length (ids xs) ≡ length xs
length-ids [] = refl
length-ids (x ∷ xs) = omega (arith, length-ids xs)

module _ (p : Bet → Bool) where
  contains-filter :
      (i : ℕ) (t : List Bet) → contains i (ids t) ≡ false → contains i (ids (filter p t)) ≡ false
  contains-filter i [] h = refl
  contains-filter i (b ∷ t) h = ground (arith, contains-filter i t)

  -- Updating the rows whose ids were selected, where `sel` holds those of an enclosing table.
  map_selected :
      (f : Bet → Bet) (sel : ℕ → Bool) (t : List Bet)
      → HasUniqueIds t
      → ((b : Bet) → contains b.id (ids t) ≡ true → sel b.id ≡ contains b.id (ids (filter p t)))
      → map (λ b. if sel b.id then f b else b) t ≡ map (λ b. if p b then f b else b) t
  map_selected f sel [] u h = refl
  map_selected f sel (b ∷ t) u h =
      ap₂ (λ x xs. x ∷ xs) (ground (arith, h b, contains-filter b.id t u.0))
        (map_selected f sel t u.1 (λ c m. ground (arith, h c)))

-- Selecting rows by a test and updating those with their ids is updating the rows that pass it.
pub map-ids :
    (p : Bet → Bool) (f : Bet → Bet) (selected t : List Bet)
    → HasUniqueIds t
    → Perm selected (filter p t)
    → map (λ b. if contains b.id (ids selected) then f b else b) t
      ≡ map (λ b. if p b then f b else b) t
map-ids p f selected t u s =
    map_selected p f (λ i. contains i (ids selected)) t u (λ b m. contains-perm b.id s)

-- An update that keeps the ids keeps the primary key.
module _ (g : Bet → Bet) (keeps : (b : Bet) → (g b).id ≡ b.id) where
  pub ids-map : (t : List Bet) → ids (map g t) ≡ ids t
  ids-map [] = refl
  ids-map (b ∷ t) = ground (arith, keeps b, ids-map t)

  pub map-HasUniqueIds : (t : List Bet) → HasUniqueIds t → HasUniqueIds (map g t)
  map-HasUniqueIds [] u = tt
  map-HasUniqueIds (b ∷ t) u = (rw (ids-map t, keeps b) u.0, map-HasUniqueIds t u.1)

-- An update that no row passes changes nothing.
pub map_none :
    (p : Bet → Bool) (f : Bet → Bet) (t : List Bet)
    → length (filter p t) ≡ 0
    → map (λ b. if p b then f b else b) t ≡ t
map_none p f [] h = refl
map_none p f (b ∷ t) h = ground (arith, map_none p f t)
