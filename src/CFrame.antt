-- ===== src/CFrame.antt =====
-- include/avr-halib/common/cframe.h: byte stuffing as two state machines, one for sending and one
-- for receiving. A `char` is its byte, 0 to 255, and signed, as it is by the compiler's default: a byte
-- from 128 on is a negative number.
pub mod Frame
use avr_ha_lib.Prelude.{
  ℕ, ◌%◌, Bool, true, false, not, ◌&&◌, ◌||◌, ◌==◌, ltb, if◌then◌else◌, bit_xor,
}

-- A stuffing configuration: the template argument of `CFrame`, its codes from 0 to 255.
pub record Stuffing : Type 0 where
  pub esc : ℕ
  pub sofr : ℕ
  pub eofr : ℕ
  pub escmod : ℕ
  pub none_code : ℕ
  pub xoff : ℕ
  pub xon : ℕ
  pub use_none_char : Bool
  pub use_xon_xoff : Bool

-- `CFrameOldReadable`, over `CFrameModifierBase`.
abbrev pub old_readable : Stuffing
old_readable = record {
  esc = b'e';
  sofr = b'a';
  eofr = b's';
  escmod = 0x01;
  none_code = 0x00;
  xoff = 0x13;
  xon = 0x11;
  use_none_char = false;
  use_xon_xoff = false;
}

-- `CFrameReadable`, the default.
abbrev pub readable : Stuffing
readable = record old_readable { escmod = 0x20 }

-- `CFrameAscii`.
abbrev pub ascii : Stuffing
ascii = record old_readable { esc = 0x1b; sofr = 0x02; eofr = 0x03; escmod = 0x20 }

-- `state_t`.
pub data State : Type 0 where
  invalid started regular stuff fine : State

abbrev pub is_invalid : State → Bool
is_invalid invalid = true
is_invalid _ = false

abbrev pub is_started : State → Bool
is_started started = true
is_started _ = false

abbrev pub is_regular : State → Bool
is_regular regular = true
is_regular _ = false

abbrev pub is_fine : State → Bool
is_fine fine = true
is_fine _ = false

-- The member `state`.
pub record CFrame : Type 0 where
  pub tx : State
  pub rx : State

unfoldable pub reset_tx : CFrame → CFrame
reset_tx m = record m { tx = invalid }

unfoldable pub reset_rx : CFrame → CFrame
reset_rx m = record m { rx = invalid }

-- `reset`; the constructor calls it on the uninitialised member.
unfoldable pub reset : CFrame → CFrame
reset m = reset_rx (reset_tx m)

-- What the constructor leaves, whatever the memory held.
abbrev pub fresh : CFrame
fresh = record { tx = invalid; rx = invalid }

unfoldable pub sending : CFrame → Bool
sending m = not (is_invalid m.tx) && not (is_fine m.tx)

unfoldable pub ready_to_start : CFrame → Bool
ready_to_start m = is_invalid m.tx

unfoldable pub again : CFrame → Bool
again m = not (is_regular m.tx)

unfoldable pub tx_complete : CFrame → Bool
tx_complete m = is_fine m.tx

unfoldable pub receiving : CFrame → Bool
receiving m = not (is_invalid m.rx)

unfoldable pub restarted : CFrame → Bool
restarted m = is_started m.rx

unfoldable pub finished : CFrame → Bool
finished m = is_fine m.rx

-- `(char)(c ^ escmod)`, unless `escmod` is zero.
abbrev pub unstuff : Stuffing → ℕ → ℕ
unstuff s c = if s.escmod == 0 then c else bit_xor c s.escmod % 256

-- `c == code` for a signed `char` and an enumerator: a negative character is none of the codes.
abbrev pub matches : ℕ → ℕ → Bool
matches c code = ltb c 128 && c == code

-- The bytes that `transformOut` escapes.
abbrev pub is_control : Stuffing → ℕ → Bool
is_control s c =
    matches c s.eofr
    || (matches c s.sofr
        || (matches c s.esc
            || ((s.use_none_char && matches c s.none_code)
                || (s.use_xon_xoff && (matches c s.xon || matches c s.xoff)))))

unfoldable pub start_frame : Stuffing → CFrame → ℕ × CFrame
start_frame s m = (s.sofr, if is_invalid m.tx then record m { tx = started } else m)

unfoldable pub end_frame : Stuffing → CFrame → ℕ × CFrame
end_frame s m = (s.eofr, if is_regular m.tx then record m { tx = fine } else m)

-- The branches of `transformOut`, once `started` has become `regular`.
unfoldable pub out_step : Stuffing → State → ℕ → ℕ × State
out_step s regular c = if is_control s c then (s.esc, stuff) else (c, regular)
out_step s stuff c = (unstuff s c, regular)
out_step s t c = (c, t)

unfoldable pub transform_out : Stuffing → ℕ → CFrame → ℕ × CFrame
unfolding out_step
transform_out s c m =
    let (c', t) = out_step s (if is_started m.tx then regular else m.tx) c in
    (c', record m { tx = t })

-- The branches of `transformIn`, once `started` has become `regular`: the byte left in `c`, the
-- state, and whether the function has returned `false` early.
unfoldable pub in_step : Stuffing → State → ℕ → ℕ × State × Bool
in_step s invalid c = (c, (if matches c s.sofr then started else invalid), false)
in_step s regular c =
    if matches c s.eofr
    then (c, fine, false)
    else if matches c s.sofr
    then (c, started, false)
    else if matches c s.esc
    then (c, stuff, false)
    else if s.use_none_char && matches c s.none_code
    then (c, regular, true)
    else if s.use_xon_xoff && matches c s.xon
    then (c, regular, true)
    else if s.use_xon_xoff && matches c s.xoff
    then (c, regular, true)
    else (c, regular, false)
in_step s stuff c = (unstuff s c, regular, false)
in_step s t c = (c, t, false)

-- `transformIn`: whether `c` is now a byte of the payload, that byte, and the machine.
unfoldable pub transform_in : Stuffing → ℕ → CFrame → Bool × ℕ × CFrame
unfolding in_step
transform_in s c m =
    let (c', t, early) = in_step s (if is_started m.rx then regular else m.rx) c in
    (not early && is_regular t, c', record m { rx = t })
