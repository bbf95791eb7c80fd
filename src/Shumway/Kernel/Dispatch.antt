-- ===== src/Shumway/Kernel/Dispatch.antt =====
-- Which servers a message meets when each that it meets sends it on with one more visit.
use avr_ha_lib.Prelude.{
  ℕ, suc, ◌+◌, ◌-◌, ◌<◌, ◌≡◌, ◌≢◌, sym, ◌∙◌, some, arith, ◌==◌, ltb, if◌then◌else◌,
}
use avr_ha_lib.Shumway.Kernel.{
  Direction, direction_up, direction_down, direction_unknown, Message, receiver,
}

-- The servers that a message of the server `s` is for.
abbrev pub Addressed : Direction → ℕ → ℕ → Type 0
Addressed direction_up s j = s < j
Addressed direction_down s j = j < s
Addressed direction_unknown s j = j ≢ s

-- The visit at which it meets them.
abbrev visit : Direction → ℕ → ℕ → ℕ
visit direction_up s j = j - suc s
visit direction_down s j = s - suc j
visit direction_unknown s j = j

module _ (n s : ℕ) (few : n < 128) (registered : s < n) (sig key : ℕ) where
  abbrev sent : Direction → ℕ → Message
  sent d v = record { sig_id = sig; msg_id = key; sender_id = s; dir = d; visits = v }

  met-up :
      (v : ℕ)
      → v < 128
      → receiver n (sent direction_up v) ≡ some (if ltb (s + suc v) n then s + suc v else s)
  unfolding receiver
  met-up v small = ground arith

  met-down :
      (v : ℕ)
      → v < 128
      → receiver n (sent direction_down v) ≡ some (if ltb v s then s - suc v else s)
  unfolding receiver
  met-down v small = ground arith

  met-unknown :
      (v : ℕ)
      → v < 128
      → receiver n (sent direction_unknown v)
        ≡ some (if v == s then (if ltb (suc v) n then suc v else s) else if ltb v n then v else s)
  unfolding receiver
  met-unknown v small = ground arith

  -- A message that is sent on with one more visit by every server that it meets comes to each server
  -- of its direction (all but the sender when the direction is unknown) before it comes back to its
  -- sender, and it does come back: at the visit `n` at the latest, for less than 128 servers.
  pub receiver-trip :
      (d : Direction)
      → (receiver n (sent d n) ≡ some s)
        × ((v j : ℕ)
            → v < 128
            → receiver n (sent d v) ≡ some s
            → j < n
            → Addressed d s j
            → (u : ℕ) × (u < v) × (receiver n (sent d u) ≡ some j))
  receiver-trip direction_up = (
    met-up n few ∙ ground arith,
    λ v j small back lt h. (
      j - suc s,
      (let e = sym back ∙ met-up v small in ground arith),
      met-up (j - suc s) (omega arith) ∙ ground arith,
    ),
  )
  receiver-trip direction_down = (
    met-down n few ∙ ground arith,
    λ v j small back lt h. (
      s - suc j,
      (let e = sym back ∙ met-down v small in ground arith),
      met-down (s - suc j) (omega arith) ∙ ground arith,
    ),
  )
  receiver-trip direction_unknown = (
    met-unknown n few ∙ ground arith,
    λ v j small back lt h. (
      j,
      (let e = sym back ∙ met-unknown v small in ground arith),
      met-unknown j (omega arith) ∙ ground arith,
    ),
  )
