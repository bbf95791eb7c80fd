-- ===== src/Shumway/Kernel.antt =====
-- tools/bootloader/legacy/shumway/ipc/Message.{h,cpp}, ipc/Server.h (`get_server`) and
-- kernel/Kernel.cpp: messages, and their dispatch to the servers. A server is its number.
pub mod Dispatch
pub mod Sending
mod Tests
use avr_ha_lib.Prelude.{
  ℕ, ◌+◌, ◌-◌, ◌%◌, Bool, true, false, Option, none, some, List, [], ◌∷◌, ◌==◌, ltb, if◌then◌else◌,
}
use avr_ha_lib.Shumway.Queue.{Queue, push, pop, empty}

-- `Message::DIRECTION`.
pub data Direction : Type 0 where
  direction_up : Direction
  direction_down : Direction
  direction_unknown : Direction

-- `Message`; a signal is the number that `SIGNAL` gives it.
pub record Message : Type 0 where
  pub sig_id : ℕ
  pub msg_id : ℕ
  pub sender_id : ℕ
  pub dir : Direction
  pub visits : ℕ

abbrev pub message : ℕ → ℕ → ℕ → Direction → Message
message sig_id msg_id sender_id dir = record {
  sig_id = sig_id;
  msg_id = msg_id;
  sender_id = sender_id;
  dir = dir;
  visits = 0;
}

abbrev pub set_sender_id : ℕ → Message → Message
set_sender_id sender_id m = record m { sender_id = sender_id; visits = 0 }

abbrev pub toggle : Direction → Direction
toggle direction_up = direction_down
toggle direction_down = direction_up
toggle direction_unknown = direction_unknown

abbrev pub toggle_direction : Message → Message
toggle_direction m = record m { dir = toggle m.dir }

abbrev pub raise_visits : Message → Message
raise_visits m = record m { visits = (m.visits + 1) % 256 }

-- `Server::get_server`, with `server_num` servers registered; `none` is NULL.
abbrev pub get_server : ℕ → ℕ → Option ℕ
get_server server_num n = if ltb n server_num then some n else none

-- The choice of `__target_id` in `_run`.
abbrev pub target : Direction → ℕ → ℕ → ℕ
target direction_up sender visits = (sender + (visits + 1) % 256) % 256
target direction_down sender visits = (sender + 256 - (visits + 1) % 256) % 256
target direction_unknown sender visits = if visits == sender then (visits + 1) % 256 else visits

-- The server whose `receive` is called; `none` is a call through NULL.
unfoldable pub receiver : ℕ → Message → Option ℕ
receiver server_num m = elim (get_server server_num (target m.dir m.sender_id m.visits)) [
  | some n ↦ some n
  | none ↦ get_server server_num m.sender_id
]

-- MAX_SIGNAL_NUM of config/config.h.
abbrev pub max_signal_num : ℕ
max_signal_num = 20

-- `Kernel::send`, which does not look at the result of `push`.
unfoldable pub send : Message → Queue Message → Queue Message
send m q = let (_, q') = push max_signal_num m q in q'

-- Sends, in order.
abbrev pub send_all : List Message → Queue Message → Queue Message
send_all [] q = q
send_all (m ∷ ms) q = send_all ms (send m q)

module _ {ℓ} {S : Type ℓ} (server_num : ℕ)
    (receive : ℕ → Message → S → Option (List Message × S)) where
  -- A round of the inner loop of `_run`, on the servers' state and the queue: the servers' `receive`
  -- gives the messages that it sends and the new state. The flag is `true` when the queue was empty.
  unfoldable pub round : S → Queue Message → Option (Bool × S × Queue Message)
  round s q =
      let (failed, got, q') = pop max_signal_num q in
      if failed then some (true, s, q') else elim got [
        | none ↦ none
        | some m ↦ elim (receiver server_num m) [
          | none ↦ none
          | some n ↦ elim (receive n m s) [
            | none ↦ none
            | some (sent, s') ↦ some (false, s', send_all sent q')
          ]
        ]
      ]
