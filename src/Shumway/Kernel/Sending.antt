-- ===== src/Shumway/Kernel/Sending.antt =====
-- What becomes of a sequence of sends when nothing is received in between.
use avr_ha_lib.Prelude.{
  ℕ, zero, suc, ◌-◌, ◌≤◌, ◌≡◌, refl, sym, ap, ◌∙◌, true, false, Option, some, List, [], ◌∷◌, ◌++◌,
  map, append-nil, append_assoc, arith, length, length-append, take, ℕ_discrete,
}
use avr_ha_lib.Shumway.Queue.{Queue}
use avr_ha_lib.Shumway.Queue.Refine.{IsValid, contents, fifo_push, push-fifo, length-slots}
use avr_ha_lib.Shumway.Kernel.{Message, max_signal_num, send, send_all}

-- As many of the messages as find room in the queue `xs`.
abbrev pub kept : List (Option Message) → List Message → List (Option Message)
kept xs ms = xs ++ map some (take (max_signal_num - length xs) ms)

take-nil : (n : ℕ) → take {A = Message} n [] ≡ []
take-nil zero = refl
take-nil (suc n) = refl

send-kept :
    (xs : List (Option Message)) (m : Message) (ms : List Message)
    → length xs ≤ max_signal_num
    → kept (fifo_push max_signal_num m xs).1 ms ≡ kept xs (m ∷ ms)
send-kept xs m ms le = elim (ℕ_discrete (length xs) max_signal_num) [
  | yes full ↦
      let p : fifo_push max_signal_num m xs ≡ (true, xs) = ground arith in
      let z : max_signal_num - length xs ≡ 0 = omega arith in rw (p, z) refl
  | no room ↦
      let p : fifo_push max_signal_num m xs ≡ (false, xs ++ some m ∷ []) = ground arith in
      let z : max_signal_num - length xs ≡ suc (max_signal_num - length (xs ++ some m ∷ [])) =
        omega (arith, length-append xs (some m ∷ [])) in
      rw (p, z)
        (append_assoc xs (some m ∷ [])
          (map some (take (max_signal_num - length (xs ++ some m ∷ [])) ms)))
]

-- `send` reports nothing: on a valid queue, a sequence of sends keeps the messages that are there
-- and appends, in order, those that find room in max_signal_num places; the others are lost.
pub send_all-kept :
    (ms : List Message) (q : Queue Message)
    → IsValid max_signal_num q
    → (contents max_signal_num (send_all ms q) ≡ kept (contents max_signal_num q) ms)
      × IsValid max_signal_num (send_all ms q)
unfolding send
send_all-kept [] q v = (
  rw (take-nil (max_signal_num - length (contents max_signal_num q)))
      (sym (append-nil (contents max_signal_num q))),
  v,
)
send_all-kept (m ∷ ms) q v =
    let (same, v') = push-fifo max_signal_num m q v in
    let (all, v'') = send_all-kept ms (send m q) v' in
    (
      all
          ∙ ap (λ xs. kept xs ms) (ap (λ r. r.1) same)
          ∙ send-kept (contents max_signal_num q) m ms
              (omega (arith, length-slots max_signal_num q.elements q.front q.fill, v.fill_in)),
      v'',
    )
