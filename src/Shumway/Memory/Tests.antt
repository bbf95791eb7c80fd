-- ===== src/Shumway/Memory/Tests.antt =====
-- The theorems on the shared memory at ten pieces of which all but one are locked.
use avr_ha_lib.Prelude.{ℕ, ◌≡◌, refl, true, false, some, none, List, [], ◌∷◌, arith, replicate}
use avr_ha_lib.Shumway.Memory.{Handle, new_handle, lock, update, get, free, scan, room}
use avr_ha_lib.Shumway.Memory.Management.{Outcome, get-Outcome, free-get}

abbrev held : Handle
held = lock (new_handle (replicate 255 0))

-- The piece 3 is not locked, and three bytes of it are skipped.
abbrev pieces : List Handle
pieces =
    held
    ∷ held
    ∷ held
    ∷ (record (new_handle (replicate 255 0)) { offset = 3 })
    ∷ held
    ∷ held
    ∷ held
    ∷ held
    ∷ held
    ∷ held
    ∷ []

got : get 252 pieces ≡ (false, some 3, update lock pieces 3)
unfolding get scan room
got = refl

refused : get 253 pieces ≡ (true, none, pieces)
unfolding get scan room
refused = refl

get-Outcome_example : Outcome 252 pieces
get-Outcome_example = get-Outcome 252 pieces

free-get_example :
    let (_, hs') = free 5 pieces in
    (key : ℕ) × (get 255 hs' ≡ (false, some key, update lock hs' key))
free-get_example = free-get 255 5 held pieces (omega arith) refl refl (omega arith)
