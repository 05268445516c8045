-- ===== src/Client/Pipeline/Table.antt =====
-- The map `in_flight` of `run` in src/client/pipeline.rs: `find`, `remove` and distinct keys.
use rust_modbus.Prelude.{
  ℕ, ◌≡◌, refl, subst, ◌≢◌, inl, inr, none, some, List, [], ◌∷◌, arith, ◌==◌, Bool-cases, All,
}
use rust_modbus.Client.Pipeline.{Waiting, find, remove}

-- Every identifier has one entry at most.
unfoldable pub IsDistinct : List Waiting → Type 0
IsDistinct [] = Unit
IsDistinct (entry ∷ entries) = (find entry.transaction entries ≡ none) × IsDistinct entries

pub find-remove :
    (transaction : ℕ) (entries : List Waiting)
    → find transaction (remove transaction entries) ≡ none
unfolding find remove
find-remove transaction [] = refl
find-remove transaction (entry ∷ entries) = ground (arith, find-remove transaction entries)

pub find-remove_other :
    (transaction other : ℕ) (entries : List Waiting)
    → other ≢ transaction
    → find other (remove transaction entries) ≡ find other entries
unfolding find remove
find-remove_other transaction other [] h = refl
find-remove_other transaction other (entry ∷ entries) h =
    ground (arith, find-remove_other transaction other entries h)

pub remove_absent :
    (transaction : ℕ) (entries : List Waiting)
    → find transaction entries ≡ none
    → remove transaction entries ≡ entries
unfolding find remove
remove_absent transaction [] h = refl
remove_absent transaction (entry ∷ entries) h = ground (arith, remove_absent transaction entries)

-- What is absent stays absent.
pub remove-absent :
    (transaction other : ℕ) (entries : List Waiting)
    → find other entries ≡ none
    → find other (remove transaction entries) ≡ none
unfolding find remove
remove-absent transaction other [] h = refl
remove-absent transaction other (entry ∷ entries) h =
    ground (arith, remove-absent transaction other entries)

pub remove-IsDistinct :
    (transaction : ℕ) (entries : List Waiting)
    → IsDistinct entries
    → IsDistinct (remove transaction entries)
unfolding IsDistinct remove
remove-IsDistinct transaction [] h = tt
remove-IsDistinct transaction (entry ∷ entries) (h, hs) =
    elim (Bool-cases (entry.transaction == transaction)) [
      | inl e ↦ rw e (remove-IsDistinct transaction entries hs)
      | inr e ↦ rw e (
        remove-absent transaction entry.transaction entries h,
        remove-IsDistinct transaction entries hs,
      )
    ]

pub remove-All {ℓ} :
    (P : Waiting → Type ℓ) (transaction : ℕ) (entries : List Waiting)
    → All P entries
    → All P (remove transaction entries)
unfolding remove
remove-All P transaction [] h = tt
remove-All P transaction (entry ∷ entries) (h, hs) =
    elim (Bool-cases (entry.transaction == transaction)) [
      | inl e ↦ rw e (remove-All P transaction entries hs)
      | inr e ↦ rw e (h, remove-All P transaction entries hs)
    ]

-- What is found has the property, and the key.
pub find-All {ℓ} :
    (P : Waiting → Type ℓ) (transaction : ℕ) (entries : List Waiting) (found : Waiting)
    → All P entries
    → find transaction entries ≡ some found
    → P found × (found.transaction ≡ transaction)
unfolding find
find-All P transaction [] found h e = cc
find-All P transaction (entry ∷ entries) found (h, hs) e =
    elim (Bool-cases (entry.transaction == transaction)) [
      | inl t ↦ let same : entry ≡ found = grind arith in (subst P same h, ground arith)
      | inr t ↦ find-All P transaction entries found hs (ground arith)
    ]
