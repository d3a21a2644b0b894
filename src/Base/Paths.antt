-- ===== src/Base/Paths.antt =====
-- Paths as `std::path` of a Unix system reads them: the components of a text, and `join`.
use entheai.Base.{
  ℕ, ◌≡◌, ◌↔◌, Bool, true, false, ◌&&◌, List, [], ◌∷◌, ◌++◌, ◌==◌, if◌then◌else◌, arith, Eq, ◌=?◌,
  nat_eq,
}

abbrev pub list_beq {ℓ} : {A : Type ℓ} ⦃e : Eq A⦄ → List A → List A → Bool
list_beq [] [] = true
list_beq (a ∷ as') (b ∷ bs) = (a =? b) && list_beq as' bs
list_beq _ _ = false

pub list_beq_iff {ℓ} :
    {A : Type ℓ} ⦃e : Eq A⦄ (as' bs : List A) → (list_beq as' bs ≡ true) ↔ (as' ≡ bs)
list_beq_iff [] [] = ground arith
list_beq_iff [] (b ∷ bs) = ground arith
list_beq_iff (a ∷ as') [] = ground arith
list_beq_iff ⦃e⦄ (a ∷ as') (b ∷ bs) = ground (arith, e.beq_iff a b, list_beq_iff as' bs)

instance abbrev pub list_eq {ℓ} : {A : Type ℓ} ⦃e : Eq A⦄ → Eq (List A)
list_eq = record { beq = list_beq; beq_iff = list_beq_iff }

pub data Component : Type 0 where
  root_dir cur_dir parent_dir : Component
  normal : List ℕ → Component

abbrev pub component_beq : Component → Component → Bool
component_beq root_dir root_dir = true
component_beq cur_dir cur_dir = true
component_beq parent_dir parent_dir = true
component_beq (normal s) (normal t) = s =? t
component_beq _ _ = false

pub component_beq_iff : (c d : Component) → (component_beq c d ≡ true) ↔ (c ≡ d)
component_beq_iff root_dir d = ground arith
component_beq_iff cur_dir d = ground arith
component_beq_iff parent_dir d = ground arith
component_beq_iff (normal s) (normal t) = ground (arith, list_beq_iff s t)
component_beq_iff (normal s) root_dir = ground arith
component_beq_iff (normal s) cur_dir = ground arith
component_beq_iff (normal s) parent_dir = ground arith

instance abbrev pub component_eq : Eq Component
component_eq = record { beq = component_beq; beq_iff = component_beq_iff }

abbrev pub is_normal : Component → Bool
is_normal (normal _) = true
is_normal _ = false

-- A text split at each separator.
abbrev pub add_to_first : ℕ → List (List ℕ) → List (List ℕ)
add_to_first c [] = (c ∷ []) ∷ []
add_to_first c (s ∷ ss) = (c ∷ s) ∷ ss

unfoldable pub split : List ℕ → List (List ℕ)
split [] = [] ∷ []
split (c ∷ s) = let rest = split s in if c == b'/' then [] ∷ rest else add_to_first c rest

-- Empty segments count for nothing, and `.` counts only at the start of a relative path.
abbrev pub segments : List (List ℕ) → List Component
segments [] = []
segments (s ∷ ss) =
    let rest = segments ss in
    if s =? []
    then rest
    else if s =? (b'.' ∷ [])
    then rest
    else if s =? (b'.' ∷ b'.' ∷ [])
    then parent_dir ∷ rest
    else normal s ∷ rest

abbrev pub relative : List (List ℕ) → List Component
relative [] = []
relative (s ∷ ss) = if s =? (b'.' ∷ []) then cur_dir ∷ segments ss else segments (s ∷ ss)

unfoldable pub components : List ℕ → List Component
unfolding split
components [] = []
components (c ∷ p) = if c == b'/' then root_dir ∷ segments (split p) else relative (split (c ∷ p))

-- `join`: an absolute path replaces the base; else its components follow, without a `.`.
abbrev pub join : List Component → List Component → List Component
join base [] = base
join base (root_dir ∷ cs) = root_dir ∷ cs
join base (cur_dir ∷ cs) = base ++ cs
join base (c ∷ cs) = base ++ c ∷ cs
